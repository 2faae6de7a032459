-- ===== src/Runner/Dispatch/Moves.antt =====
-- crates/runner/src/runner.rs: what sending a plan, or none, does to the work on a test.
use phpunit_rust.Prelude.{
  ℕ, ◌<◌, String, Bool, true, false, ◌||◌, ◌≡◌, refl, sym, ap, inl, inr, none, some, List,
  if◌then◌else◌, set, get_elem?, length, length-set, arith, subst, Bool-cases, Option-cases,
}
use phpunit_rust.Types.{BatchPlan}
use phpunit_rust.ForkPool.Bind.{ok_injective}
use phpunit_rust.ForkPool.{PhpForkPool, Result, ok, err, write_batch, close_slot}
use phpunit_rust.Runner.Requeue.Pending.{pending, plan_has}
use phpunit_rust.Runner.Dispatch.Slots.{in_flight, at_slot, in_flight-put}
use phpunit_rust.Runner.Dispatch.Pick.{pick_best_for_slot, loaded_of}
use phpunit_rust.Runner.Dispatch.Pick.Best.{pick-any}
use phpunit_rust.Runner.Dispatch.{State, send_plan, dispatch, close, extend, flag_of}

-- The test waits in the queue or runs on a slot.
abbrev pub open_work : String → String → State → Bool
open_work c m s = pending c m s.queue || in_flight c m s.slot_in_flight

-- Everything that the dispatch of a plan leaves alone.
pub record SameBooks (s t : State) : Type 0 where
  pub ledger : t.ledger ≡ s.ledger
  pub attempts : t.attempts ≡ s.attempts
  pub live_readers : t.live_readers ≡ s.live_readers
  pub watchdog_fired : t.watchdog_fired ≡ s.watchdog_fired
  pub master_died : t.master_died ≡ s.master_died
  pub slots : length t.slot_in_flight ≡ length s.slot_in_flight

pub send_plan-eq-ok :
    (slot : ℕ) (plan : BatchPlan) (s t : State)
    → send_plan slot plan s ≡ ok t
    → (pool : PhpForkPool) × (t ≡ record s {
      pool = pool;
      slot_loaded = set s.slot_loaded slot (extend (loaded_of s.slot_loaded slot) plan.fingerprint);
      slot_in_flight = set s.slot_in_flight slot (some plan);
    })
unfolding send_plan
send_plan-eq-ok slot plan s t h = go (write_batch slot plan s.pool) refl
  where
    go :
        (r : Result PhpForkPool)
        → write_batch slot plan s.pool ≡ r
        → (pool : PhpForkPool) × (t ≡ record s {
          pool = pool;
          slot_loaded =
              set s.slot_loaded slot (extend (loaded_of s.slot_loaded slot) plan.fingerprint);
          slot_in_flight = set s.slot_in_flight slot (some plan);
        })
    go (ok p) e = (p, cc (rw e at h))
    go (err w) e = cc (rw e at h)

-- What a handler keeps of the work on a test.
abbrev pub Moves : String → String → State → State → Type 0
Moves c m s t = SameBooks s t × (open_work c m t ≡ open_work c m s)

idle_books :
    (s : State) (pool : PhpForkPool) (flags : List Bool)
    → SameBooks s (record s { pool = pool; slot_open = flags })
idle_books s pool flags = record {
  ledger = refl;
  attempts = refl;
  live_readers = refl;
  watchdog_fired = refl;
  master_died = refl;
  slots = refl;
}

pub idle-Moves :
    (c m : String) (slot : ℕ) (s : State) (b : Bool) → Moves c m s (if b then close slot s else s)
unfolding close
idle-Moves c m slot s true =
    (idle_books s (close_slot slot s.pool) (set s.slot_open slot false), refl)
idle-Moves c m slot s false = (idle_books s s.pool s.slot_open, refl)

pub sent-Moves :
    (c m : String) (slot : ℕ) (s : State) (plan : BatchPlan) (rest : List BatchPlan)
    (pool : PhpForkPool) (loaded : List (List String))
    → slot < length s.slot_in_flight
    → at_slot s.slot_in_flight slot ≡ none
    → pending c m s.queue ≡ (plan_has c m plan || pending c m rest)
    → Moves c m s (record s {
      queue = rest;
      pool = pool;
      slot_loaded = loaded;
      slot_in_flight = set s.slot_in_flight slot (some plan);
    })
sent-Moves c m slot s plan rest pool loaded range free e = (
  record {
    ledger = refl;
    attempts = refl;
    live_readers = refl;
    watchdog_fired = refl;
    master_died = refl;
    slots = length-set s.slot_in_flight slot (some plan);
  },
  ground (arith, in_flight-put c m s.slot_in_flight slot plan range free),
)

-- Dispatching to a free slot moves at most one plan from the queue to the slot.
pub dispatch-Moves :
    (c m : String) (slot : ℕ) (s t : State)
    → slot < length s.slot_in_flight
    → at_slot s.slot_in_flight slot ≡ none
    → dispatch slot s ≡ ok t
    → SameBooks s t × (open_work c m t ≡ open_work c m s)
unfolding dispatch
dispatch-Moves c m slot s t range free h =
    elim (Option-cases (pick_best_for_slot s.queue (loaded_of s.slot_loaded slot))) [
      | inl e ↦
          subst (Moves c m s) (ok_injective (rw (e, dispatch) at h))
            (idle-Moves c m slot s (flag_of (get_elem? s.slot_open slot)))
      | inr ((plan, rest), e) ↦
          let (pool, q) =
            send_plan-eq-ok slot plan (record s { queue = rest }) t (rw (e, dispatch) at h) in
          subst (Moves c m s) (sym q) (
            sent-Moves c m slot s plan rest pool
              (set s.slot_loaded slot (extend (loaded_of s.slot_loaded slot) plan.fingerprint))
              range free
              (pick-any (plan_has c m) s.queue (loaded_of s.slot_loaded slot) plan rest e))
    ]

pub dispatch-live_readers :
    (slot : ℕ) (s t : State) → dispatch slot s ≡ ok t → t.live_readers ≡ s.live_readers
unfolding dispatch close
dispatch-live_readers slot s t h =
    elim (Option-cases (pick_best_for_slot s.queue (loaded_of s.slot_loaded slot))) [
      | inl e ↦ elim (Bool-cases (flag_of (get_elem? s.slot_open slot))) [
        | inl shut ↦ sym (ap State.live_readers (ok_injective (rw (e, dispatch, shut) at h)))
        | inr idle ↦ sym (ap State.live_readers (ok_injective (rw (e, dispatch, idle) at h)))
      ]
      | inr ((plan, rest), e) ↦
          let (pool, q) =
            send_plan-eq-ok slot plan (record s { queue = rest }) t (rw (e, dispatch) at h) in
          ap State.live_readers q
    ]
