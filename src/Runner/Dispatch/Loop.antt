-- ===== src/Runner/Dispatch/Loop.antt =====
-- crates/runner/src/runner.rs: the dispatcher loop as a whole, under what the workers' protocol
-- promises.
use phpunit_rust.Prelude.{
  ◌-◌, ◌<◌, ◌≤◌, String, true, false, ◌||◌, ◌&&◌, ◌≡◌, refl, ◌∙◌, inl, inr, List, [], ◌∷◌, any,
  nat_eq, length, arith, subst, Bool-cases,
}
use phpunit_rust.Types.{TestOutcome}
use phpunit_rust.ForkPool.Bind.{ok_injective, >>=-eq-ok}
use phpunit_rust.ForkPool.{ok}
use phpunit_rust.Runner.StopOn.{matches}
use phpunit_rust.Runner.Received.{covers}
use phpunit_rust.Runner.Received.Laws.{covers-record_outcome}
use phpunit_rust.Runner.Requeue.Settled.{settle-IsBalanced}
use phpunit_rust.Runner.Dispatch.Slots.{at_slot, slot_has}
use phpunit_rust.Runner.Dispatch.Located.{
  IsRunning, SameRun, on_batch_done-IsRunning, on_slot_died-IsRunning,
}
use phpunit_rust.Runner.Dispatch.Complete.{Reported, drain-Reported}
use phpunit_rust.Runner.Dispatch.{
  State, Settings, Event, outcome, batch_done, slot_died, eof, timeout, on_outcome, on_last_eof,
  on_eof, drain, crash_cause, master_lost, handle, run_loop, is_some,
}
use phpunit_rust.Runner.Dispatch.Ends.{over}

-- What the protocol promises of an event for one test: messages carry the number of a slot, a
-- worker is done with a batch only after it reported the batch's tests, and no outcome triggers the
-- stopping policy.
abbrev pub Permitted : Settings → String → String → Event → State → Type 0
Permitted cfg c m (outcome slot o) s = matches cfg.stop_on o.status ≡ false
Permitted cfg c m (batch_done slot) s =
    (slot < length s.slot_in_flight)
    × (slot_has c m (at_slot s.slot_in_flight slot) ≡ true → covers s.ledger.received c m ≡ true)
Permitted cfg c m (slot_died slot) s = slot < length s.slot_in_flight
Permitted cfg c m (eof slot) s = Unit {0}
Permitted cfg c m timeout s = Unit {0}

abbrev pub Honest : Settings → String → String → List Event → State → Type 0
Honest cfg c m [] s = Unit {0}
Honest cfg c m (e ∷ es) s =
    Permitted cfg c m e s × ((t : State) → handle cfg e s ≡ ok t → Honest cfg c m es t)

-- How far the loop is, for one test.
pub data Phase (c m : String) (s : State) : Type 0 where
  running :
      IsRunning c m s
      → 1 ≤ s.live_readers
      → s.watchdog_fired ≡ false
      → s.master_died ≡ false
      → Phase c m s
  stuck : IsRunning c m s → s.watchdog_fired ≡ true → s.master_died ≡ false → Phase c m s
  reported :
      s.live_readers ≡ 0
      → s.watchdog_fired ≡ false
      → s.master_died ≡ false
      → Reported c m s.ledger.log
      → Phase c m s
  abandoned :
      s.live_readers ≡ 0
      → s.watchdog_fired ≡ false
      → s.master_died ≡ true
      → IsRunning c m s
      → Phase c m s

on_outcome-IsRunning :
    (cfg : Settings) (c m : String) (o : TestOutcome) (s : State)
    → matches cfg.stop_on o.status ≡ false
    → IsRunning c m s
    → IsRunning c m (on_outcome cfg o s)
unfolding on_outcome
on_outcome-IsRunning cfg c m o s quiet v = record {
  balanced = settle-IsBalanced o s.ledger v.balanced;
  located = ground (arith, quiet, covers-record_outcome o s.ledger.received c m, v.located);
}

SameRun-Phase :
    (c m : String) (s t : State)
    → IsRunning c m t
    → SameRun s t
    → 1 ≤ s.live_readers
    → s.watchdog_fired ≡ false
    → s.master_died ≡ false
    → Phase c m t
SameRun-Phase c m s t v same live fired died =
    running v (omega (arith, same.live_readers)) (same.watchdog_fired ∙ fired)
      (same.master_died ∙ died)

on_last_eof-Phase :
    (cfg : Settings) (c m : String) (s : State)
    → IsRunning c m s
    → s.live_readers ≡ 0
    → s.watchdog_fired ≡ false
    → s.master_died ≡ false
    → Phase c m (on_last_eof cfg s)
unfolding on_last_eof
on_last_eof-Phase cfg c m s v live fired died = elim (Bool-cases (master_lost cfg s)) [
  | inl lost ↦
      rw lost (abandoned live fired refl (record { balanced = v.balanced; located = v.located }))
  | inr kept ↦ rw kept (
      reported (unfold drain in live) (unfold drain in fired) (unfold drain in died)
        (drain-Reported c m crash_cause s v))
]

on_eof-Phase :
    (cfg : Settings) (c m : String) (s : State)
    → IsRunning c m s
    → 1 ≤ s.live_readers
    → s.watchdog_fired ≡ false
    → s.master_died ≡ false
    → Phase c m (on_eof cfg s)
unfolding on_eof
on_eof-Phase cfg c m s v live fired died =
    let s' : State = record s { live_readers = s.live_readers - 1 } in
    let v' : IsRunning c m s' = record { balanced = v.balanced; located = v.located } in
    elim (Bool-cases (nat_eq (s.live_readers - 1) 0)) [
      | inl last ↦ rw last (on_last_eof-Phase cfg c m s' v' (ground arith) fired died)
      | inr more ↦ rw more (running v' (ground arith) fired died)
    ]

-- Every event leads from a running loop to one of the four phases.
handle-Phase :
    (cfg : Settings) (c m : String) (e : Event) (s t : State)
    → Permitted cfg c m e s
    → handle cfg e s ≡ ok t
    → IsRunning c m s
    → 1 ≤ s.live_readers
    → s.watchdog_fired ≡ false
    → s.master_died ≡ false
    → Phase c m t
unfolding handle
handle-Phase cfg c m (outcome slot o) s t p h v live fired died =
    subst (Phase c m) (ok_injective h) (
      running (on_outcome-IsRunning cfg c m o s p v) (unfold on_outcome in live)
        (unfold on_outcome in fired) (unfold on_outcome in died))
handle-Phase cfg c m (batch_done slot) s t p h v live fired died =
    let (v', same) = on_batch_done-IsRunning c m slot s t p.0 p.1 h v in
    SameRun-Phase c m s t v' same live fired died
handle-Phase cfg c m (slot_died slot) s t p h v live fired died =
    let (v', same) = on_slot_died-IsRunning cfg c m slot s t p h v in
    SameRun-Phase c m s t v' same live fired died
handle-Phase cfg c m (eof slot) s t p h v live fired died =
    subst (Phase c m) (ok_injective h) (on_eof-Phase cfg c m s v live fired died)
handle-Phase cfg c m timeout s t p h v live fired died =
    subst (Phase c m) (ok_injective h)
      (elim (Bool-cases (is_some cfg.worker_timeout && any is_some s.slot_in_flight)) [
        | inl fires ↦
            rw fires (stuck (record { balanced = v.balanced; located = v.located }) refl died)
        | inr waits ↦ rw waits (running v live fired died)
      ])

-- A loop in one of the four phases reaches one of the four phases.
pub run_loop-Phase :
    (cfg : Settings) (c m : String) (es : List Event) (s t : State)
    → Honest cfg c m es s
    → run_loop cfg es s ≡ ok t
    → Phase c m s
    → Phase c m t
unfolding run_loop
run_loop-Phase cfg c m [] s t honest h p = subst (Phase c m) (ok_injective h) p
run_loop-Phase cfg c m (e ∷ es) s t honest h (running v live fired died) =
    let on : (nat_eq s.live_readers 0 || s.watchdog_fired) ≡ false = ground arith in
    let (u, hu, rest) = >>=-eq-ok (handle cfg e s) (run_loop cfg es) (rw (on, run_loop) at h) in
    run_loop-Phase cfg c m es u t (honest.1 u hu) rest
      (handle-Phase cfg c m e s u honest.0 hu v live fired died)
run_loop-Phase cfg c m (e ∷ es) s t honest h (stuck v fired died) =
    subst (Phase c m) (over cfg e es s t (ground arith) h) (stuck v fired died)
run_loop-Phase cfg c m (e ∷ es) s t honest h (reported live fired died r) =
    subst (Phase c m) (over cfg e es s t (ground arith) h) (reported live fired died r)
run_loop-Phase cfg c m (e ∷ es) s t honest h (abandoned live fired died v) =
    subst (Phase c m) (over cfg e es s t (ground arith) h) (abandoned live fired died v)
