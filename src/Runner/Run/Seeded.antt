-- ===== src/Runner/Run/Seeded.antt =====
-- crates/runner/src/runner.rs: where the selected tests are once every slot has its first plan.
use phpunit_rust.Prelude.{
  ℕ, zero, suc, ◌+◌, ◌≤◌, ◌<◌, String, true, false, ◌||◌, ◌≡◌, refl, sym, ap, ◌∙◌, ◌⊎◌, inl, inr,
  Option, none, some, List, [], ◌∷◌, any, length, set, arith, subst,
}
use phpunit_rust.Types.{TestOutcome, BatchClass, BatchPlan}
use phpunit_rust.Discovery.{TestCase}
use phpunit_rust.Discovery.Grouped.{count_cases}
use phpunit_rust.ForkPool.Bind.{ok_injective, >>=-eq-ok}
use phpunit_rust.ForkPool.{PhpForkPool, ok, ◌>>=◌, len}
use phpunit_rust.Runner.Received.{covers, is_text}
use phpunit_rust.Runner.Received.Laws.{covers-record_outcome}
use phpunit_rust.Runner.Requeue.{Ledger, settle}
use phpunit_rust.Runner.Requeue.Settled.{IsBalanced, settle-IsBalanced}
use phpunit_rust.Runner.Requeue.Pending.{pending, class_has}
use phpunit_rust.Runner.Queue.{build_queue}
use phpunit_rust.Runner.Queue.Plans.{QueueConfig, RowCounts}
use phpunit_rust.Runner.Queue.Held.{held, held_classes, count_names, count_outcomes}
use phpunit_rust.Runner.Queue.Kept.{held-build_queue}
use phpunit_rust.Runner.Dispatch.{State, close, extend}
use phpunit_rust.Runner.Dispatch.Pick.{loaded_of}
use phpunit_rust.Runner.Dispatch.Slots.{in_flight, at_slot, at_slot-set_ne}
use phpunit_rust.Runner.Dispatch.Located.{IsRunning}
use phpunit_rust.Runner.Dispatch.Moves.{open_work, Moves, idle-Moves, sent-Moves, send_plan-eq-ok}
use phpunit_rust.Runner.Run.{
  RunConfig, start, take_readers, seed, seed_from, settle_all, replicate, no_outcome, fresh_state,
}

count_names-any : (m : String) (ns : List String) → 0 < count_names m ns → any (is_text m) ns ≡ true
count_names-any m [] h = elim h [ ]
count_names-any m (n ∷ ns) h = ground (arith, count_names-any m ns)

held_classes-any :
    (c m : String) (bcs : List BatchClass)
    → 0 < held_classes 0 c m bcs
    → any (class_has c m) bcs ≡ true
held_classes-any c m [] h = elim h [ ]
held_classes-any c m (bc ∷ bcs) h =
    ground (arith, held_classes-any c m bcs, count_names-any m bc.methods)

held-pending : (c m : String) (ps : List BatchPlan) → 0 < held 0 c m ps → pending c m ps ≡ true
held-pending c m [] h = elim h [ ]
held-pending c m (p ∷ ps) h = ground (arith, held-pending c m ps, held_classes-any c m p.classes)

settle_all-IsBalanced :
    (os : List TestOutcome) (l : Ledger) → IsBalanced l → IsBalanced (settle_all os l)
unfolding settle_all
settle_all-IsBalanced [] l v = v
settle_all-IsBalanced (o ∷ os) l v = settle_all-IsBalanced os (settle o l) (settle-IsBalanced o l v)

covers-settle_all :
    (c m : String) (os : List TestOutcome) (l : Ledger)
    → (covers l.received c m ≡ true) ⊎ (0 < count_outcomes c m os)
    → covers (settle_all os l).received c m ≡ true
unfolding settle_all
covers-settle_all c m [] l (inl h) = h
covers-settle_all c m [] l (inr h) = elim h [ ]
covers-settle_all c m (o ∷ os) l h =
    covers-settle_all c m os (settle o l)
      (ground (arith, covers-record_outcome o l.received c m, h))

pub no_outcome-IsBalanced : IsBalanced no_outcome
unfolding covers
no_outcome-IsBalanced = record { reported = λ c m. refl; shown = refl }

-- No slot from the given one on has a plan.
abbrev FreeFrom : ℕ → State → Type 0
FreeFrom slot s = (k : ℕ) → slot ≤ k → at_slot s.slot_in_flight k ≡ none

seed_from-Moves :
    (c m : String) (slot : ℕ) (queue : List BatchPlan) (s t : State)
    → s.queue ≡ queue
    → slot < length s.slot_in_flight
    → FreeFrom slot s
    → seed_from slot queue s ≡ ok t
    → Moves c m s t × FreeFrom (slot + 1) t
unfolding close
seed_from-Moves c m slot [] s t e range free h =
    subst (λ u. Moves c m s u × FreeFrom (slot + 1) u) (ok_injective h)
      (idle-Moves c m slot s true, λ k low. free k (omega arith))
seed_from-Moves c m slot (plan ∷ rest) s t e range free h =
    let (pool, q) = send_plan-eq-ok slot plan (record s { queue = rest }) t h in
    subst (λ u. Moves c m s u × FreeFrom (slot + 1) u) (sym q)
      (
        sent-Moves c m slot s plan rest pool
            (set s.slot_loaded slot (extend (loaded_of s.slot_loaded slot) plan.fingerprint)) range
            (free slot (omega arith)) (ap (pending c m) e),
        λ k low.
            at_slot-set_ne s.slot_in_flight slot k (some plan) (omega arith) ∙ free k (omega arith),
      )

Moves-trans : (c m : String) (s t u : State) → Moves c m s t → Moves c m t u → Moves c m s u
Moves-trans c m s t u p q = (
  record {
    ledger = q.0.ledger ∙ p.0.ledger;
    attempts = q.0.attempts ∙ p.0.attempts;
    live_readers = q.0.live_readers ∙ p.0.live_readers;
    watchdog_fired = q.0.watchdog_fired ∙ p.0.watchdog_fired;
    master_died = q.0.master_died ∙ p.0.master_died;
    slots = q.0.slots ∙ p.0.slots;
  },
  q.1 ∙ p.1,
)

-- Seeding moves plans from the queue to the slots.
seed-Moves :
    (c m : String) (left slot : ℕ) (s t : State)
    → slot + left ≤ length s.slot_in_flight
    → FreeFrom slot s
    → seed left slot s ≡ ok t
    → Moves c m s t
unfolding seed
seed-Moves c m zero slot s t range free h = subst (Moves c m s) (ok_injective h) (
  record {
    ledger = refl;
    attempts = refl;
    live_readers = refl;
    watchdog_fired = refl;
    master_died = refl;
    slots = refl;
  },
  refl,
)
seed-Moves c m (suc left) slot s t range free h =
    let (u, hu, rest) = >>=-eq-ok (seed_from slot s.queue s) (seed left (slot + 1)) h in
    let (moved, free') = seed_from-Moves c m slot s.queue s u refl (omega arith) free hu in
    Moves-trans c m s u t moved
      (seed-Moves c m left (slot + 1) u t (omega (arith, moved.0.slots)) free' rest)

length-replicate {ℓ} : {A : Type ℓ} (n : ℕ) (a : A) → length (replicate n a) ≡ n
length-replicate zero a = refl
length-replicate (suc n) a = ap suc (length-replicate n a)

at_slot-replicate : (n k : ℕ) → at_slot (replicate n none) k ≡ none
at_slot-replicate zero k = refl
at_slot-replicate (suc n) zero = refl
at_slot-replicate (suc n) (suc k) = at_slot-replicate n k

abbrev config_of : RunConfig → RowCounts → QueueConfig
config_of cfg row_counts = record {
  class_file_index = cfg.class_file_index;
  n_workers = cfg.n_workers;
  row_counts = row_counts;
}

located_start :
    (c m : String) (queue : List BatchPlan) (synthetic : List TestOutcome) (s : State)
    → 0 < held 0 c m queue + count_outcomes c m synthetic
    → (open_work c m s ≡ pending c m queue)
    → (covers (settle_all synthetic s.ledger).received c m || open_work c m s) ≡ true
located_start c m queue synthetic s h e =
    ground (arith, covers-settle_all c m synthetic s.ledger, held-pending c m queue)

pending_fresh :
    (c m : String) (p : PhpForkPool) (n : ℕ) (queue : List BatchPlan)
    → open_work c m (fresh_state p n queue) ≡ pending c m queue
pending_fresh c m p n queue = ground (arith, none_in_flight n)
  where
    none_in_flight : (k : ℕ) → in_flight c m (replicate k none) ≡ false
    none_in_flight zero = refl
    none_in_flight (suc k) = none_in_flight k

abbrev no_plan : Option BatchPlan
no_plan = none

-- Where the loop begins: the test is located, and as many readers live as there are slots.
pub start-IsRunning :
    (c m : String) (pool : PhpForkPool) (cfg : RunConfig) (row_counts : RowCounts)
    (cases : List TestCase) (s : State)
    → 0 < count_cases c m cases
    → start pool cfg row_counts cases ≡ ok s
    → IsRunning c m s
      × (s.live_readers ≡ len pool)
      × (s.watchdog_fired ≡ false)
      × (s.master_died ≡ false)
unfolding start
start-IsRunning c m pool cfg row_counts cases s selected h =
    let n = len pool in
    let built = build_queue (config_of cfg row_counts) cases in
    let (p, hp, h1) =
      >>=-eq-ok (take_readers n 0 pool)
        (λ p. seed n 0 (fresh_state p n built.0) >>= λ u.
          ok (record u { ledger = settle_all built.1 u.ledger }))
        h in
    let (u, hu, h2) =
      >>=-eq-ok (seed n 0 (fresh_state p n built.0))
        (λ u. ok (record u { ledger = settle_all built.1 u.ledger })) h1 in
    let moved =
      seed-Moves c m n 0 (fresh_state p n built.0) u (omega (arith, length-replicate n no_plan))
        (λ k _. at_slot-replicate n k) hu in
    subst
      (λ v.
        IsRunning c m v
        × (v.live_readers ≡ len pool)
        × (v.watchdog_fired ≡ false)
        × (v.master_died ≡ false))
      (ok_injective h2)
      (
        record {
          balanced =
              settle_all-IsBalanced built.1 u.ledger
                (subst IsBalanced (sym moved.0.ledger) no_outcome-IsBalanced);
          located =
              located_start c m built.0 built.1 u
                (omega (arith, held-build_queue (config_of cfg row_counts) cases c m 0))
                (moved.1 ∙ pending_fresh c m p n built.0);
        },
        moved.0.live_readers,
        moved.0.watchdog_fired,
        moved.0.master_died,
      )
