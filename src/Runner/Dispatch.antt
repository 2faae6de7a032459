-- ===== src/Runner/Dispatch.antt =====
-- crates/runner/src/runner.rs: the dispatcher loop of `run_resumable`. A state holds the loop's
-- variables; each event of the channel has a handler that returns the next state, or the error
-- with which the run ends. Spans of the profiler are left out.
pub mod Pick
pub mod Slots
pub mod Moves
pub mod Ends
pub mod Located
pub mod Complete
pub mod Loop
use phpunit_rust.Prelude.{
  ℕ, zero, suc, ◌+◌, ◌-◌, String, Bool, true, false, not, ◌||◌, ◌&&◌, nat_eq, Option, none, some,
  List, [], ◌∷◌, ◌++◌, if◌then◌else◌, any, get_elem?, set, map,
}
use phpunit_rust.Types.{TestOutcome, BatchPlan}
use phpunit_rust.ForkPool.{
  PhpForkPool, Result, ok, err, ◌>>=◌, write_batch, close_slot, terminate, wait, master_alive,
}
use phpunit_rust.Runner.StopOn.{StopOn, matches}
use phpunit_rust.Runner.Received.{synth_error_outcomes, Log, insert_text}
use phpunit_rust.Runner.Requeue.{Ledger, Attempts, settle, requeue_unrun}
use Pick.{pick_best_for_slot, loaded_of}

-- What the loop reads of the run's configuration, and of the system around it.
pub record Settings : Type 0 where
  pub stop_on : StopOn
  pub worker_timeout : Option ℕ
  pub class_methods : String → Option (List String)
  -- The message that `format!` builds from the timeout's seconds.
  pub watchdog_cause : String
  -- What the operating system answers about the master when the last reader is gone.
  pub alive : Bool

pub record State : Type 0 where
  pub queue : List BatchPlan
  pub pool : PhpForkPool
  pub slot_open : List Bool
  pub slot_in_flight : List (Option BatchPlan)
  pub slot_loaded : List (List String)
  pub ledger : Ledger
  pub attempts : Attempts
  pub total : ℕ
  pub live_readers : ℕ
  pub stopping : Bool
  pub watchdog_fired : Bool
  pub master_died : Bool

-- What `rx.recv_timeout` returns: a worker's message, the end of its pipe, or a timeout.
pub data Event : Type 0 where
  outcome : ℕ → TestOutcome → Event
  batch_done : ℕ → Event
  slot_died : ℕ → Event
  eof : ℕ → Event
  timeout : Event

-- `HashSet::extend`.
abbrev pub extend : List String → List String → List String
extend fp [] = fp
extend fp (s ∷ ss) = extend (insert_text s fp) ss

-- Hands the plan to the slot.
unfoldable pub send_plan : ℕ → BatchPlan → State → Result State
send_plan slot plan s = do
  pool ← write_batch slot plan s.pool
  ok (record s {
    pool = pool;
    slot_loaded = set s.slot_loaded slot (extend (loaded_of s.slot_loaded slot) plan.fingerprint);
    slot_in_flight = set s.slot_in_flight slot (some plan);
  })

abbrev pub flag_of : Option Bool → Bool
flag_of none = false
flag_of (some b) = b

unfoldable pub close : ℕ → State → State
close slot s = record s { pool = close_slot slot s.pool; slot_open = set s.slot_open slot false }

-- The end of the handlers of `BatchDone` and `SlotDied`: the next plan, or no more.
unfoldable pub dispatch : ℕ → State → Result State
dispatch slot s = elim (pick_best_for_slot s.queue (loaded_of s.slot_loaded slot)) [
  | none ↦ ok (if flag_of (get_elem? s.slot_open slot) then close slot s else s)
  | some (plan, rest) ↦ send_plan slot plan (record s { queue = rest })
]

unfoldable pub on_outcome : Settings → TestOutcome → State → State
on_outcome cfg o s =
    let stop = not s.stopping && matches cfg.stop_on o.status in
    record s {
      total = s.total + o.duration_ms;
      stopping = s.stopping || stop;
      queue = if stop then [] else s.queue;
      ledger = settle o s.ledger;
    }

unfoldable pub on_batch_done : ℕ → State → Result State
on_batch_done slot s = dispatch slot (record s { slot_in_flight = set s.slot_in_flight slot none })

-- `slot_in_flight[slot].take()`, and the tests of what it held back on the queue.
abbrev pub recover : Settings → ℕ → Option (Option BatchPlan) → State → State
recover cfg slot (some (some lost)) s =
    let r = requeue_unrun lost cfg.class_methods s.ledger s.attempts s.queue in
    record s {
      slot_in_flight = set s.slot_in_flight slot none;
      ledger = r.ledger;
      attempts = r.attempts;
      queue = r.queue;
    }
recover cfg slot _ s = s

unfoldable pub on_slot_died : Settings → ℕ → State → Result State
on_slot_died cfg slot s = dispatch slot (recover cfg slot (get_elem? s.slot_in_flight slot) s)

abbrev pub is_some {ℓ} : {A : Type ℓ} → Option A → Bool
is_some none = false
is_some (some a) = true

unfoldable pub synth_slots : String → Ledger → List (Option BatchPlan) → Log → Log
synth_slots cause l [] log = log
synth_slots cause l (none ∷ ps) log = synth_slots cause l ps log
synth_slots cause l (some p ∷ ps) log =
    synth_slots cause l ps (synth_error_outcomes p cause l.received log)

unfoldable pub synth_queue : String → Ledger → List BatchPlan → Log → Log
synth_queue cause l [] log = log
synth_queue cause l (p ∷ ps) log =
    synth_queue cause l ps (synth_error_outcomes p cause l.received log)

-- Errors for the batches in flight, then for those of the queue.
unfoldable pub drain : String → State → State
drain cause s = record s {
  slot_in_flight = map (λ _. none) s.slot_in_flight;
  queue = [];
  ledger = record s.ledger {
    log =
        synth_queue cause s.ledger s.queue
          (synth_slots cause s.ledger s.slot_in_flight s.ledger.log);
  };
}

abbrev pub crash_cause : String
crash_cause = "worker process crashed before reporting this test"

abbrev pub is_empty : List BatchPlan → Bool
is_empty [] = true
is_empty (p ∷ ps) = false

abbrev pub has_unfinished : State → Bool
has_unfinished s = not (is_empty s.queue) || any is_some s.slot_in_flight

-- The master is gone with work left.
abbrev pub master_lost : Settings → State → Bool
master_lost cfg s = has_unfinished s && not (master_alive cfg.alive s.pool)

-- The last reader is gone.
unfoldable pub on_last_eof : Settings → State → State
on_last_eof cfg s =
    if master_lost cfg s then record s { master_died = true } else drain crash_cause s

unfoldable pub on_eof : Settings → State → State
on_eof cfg s =
    let s' = record s { live_readers = s.live_readers - 1 } in
    if nat_eq s'.live_readers 0 then on_last_eof cfg s' else s'

unfoldable pub handle : Settings → Event → State → Result State
handle cfg (outcome slot o) s = ok (on_outcome cfg o s)
handle cfg (batch_done slot) s = on_batch_done slot s
handle cfg (slot_died slot) s = on_slot_died cfg slot s
handle cfg (eof slot) s = ok (on_eof cfg s)
handle cfg timeout s = ok (
    if is_some cfg.worker_timeout && any is_some s.slot_in_flight
    then record s { watchdog_fired = true }
    else s)

-- The loop over the events of the channel, until no reader is left or the watchdog fires.
unfoldable pub run_loop : Settings → List Event → State → Result State
run_loop cfg [] s = ok s
run_loop cfg (e ∷ es) s = elim (nat_eq s.live_readers 0 || s.watchdog_fired) [
  | true ↦ ok s
  | false ↦ handle cfg e s >>= λ t. run_loop cfg es t
]

-- After the loop: what the watchdog aborts, and the end of the pool.
unfoldable pub finish : Settings → State → State
finish cfg s =
    if s.watchdog_fired
    then (let t = drain cfg.watchdog_cause s in record t { pool = wait (terminate t.pool) })
    else record s { pool = wait s.pool }
