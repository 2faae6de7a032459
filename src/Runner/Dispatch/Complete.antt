-- ===== src/Runner/Dispatch/Complete.antt =====
-- crates/runner/src/runner.rs: the end of the dispatcher loop, where what was not reported is made
-- up or handed back.
use phpunit_rust.Prelude.{
  String, true, false, ◌&&◌, ◌≡◌, sym, ◌∙◌, inl, inr, ◌==◌, Option, none, some, List, [], ◌∷◌, any,
  any-append, arith, Bool-cases, eq_iff,
}
use phpunit_rust.Types.{BatchClass, BatchPlan}
use phpunit_rust.Runner.Received.{
  ReceivedOutcomes, covers, is_test, is_text, Log, synth_error_outcomes, methods_or_class_row,
}
use phpunit_rust.Runner.Received.Laws.{
  accounts, class_tests, plan_tests, uncovered, errors_for, synth_error_outcomes_lem,
}
use phpunit_rust.Runner.Requeue.{Ledger}
use phpunit_rust.Runner.Requeue.Pending.{pending, plan_has, class_has}
use phpunit_rust.Runner.Dispatch.Slots.{in_flight}
use phpunit_rust.Runner.Dispatch.Located.{IsRunning}
use phpunit_rust.Runner.Dispatch.{State, drain, synth_slots, synth_queue}

abbrev pub Reported : String → String → Log → Type 0
Reported c m l = any (accounts c m) l.outcomes ≡ true

class_tests-has :
    (c m class : String) (ms : List String)
    → (class == c && any (is_text m) ms) ≡ true
    → any (is_test c m) (class_tests class ms) ≡ true
class_tests-has c m class [] h = ground arith
class_tests-has c m class (n ∷ ms) h = ground (arith, class_tests-has c m class ms)

listed_tests-has :
    (c m class : String) (ms : List String)
    → (class == c && any (is_text m) ms) ≡ true
    → any (is_test c m) (class_tests class (methods_or_class_row ms)) ≡ true
listed_tests-has c m class [] h = ground arith
listed_tests-has c m class (n ∷ ms) h = class_tests-has c m class (n ∷ ms) h

plan_tests-has :
    (c m : String) (bcs : List BatchClass)
    → any (class_has c m) bcs ≡ true
    → any (is_test c m) (plan_tests bcs) ≡ true
plan_tests-has c m [] h = h
plan_tests-has c m (bc ∷ bcs) h =
    let own = class_tests bc.class (methods_or_class_row bc.methods) in
    ground (
      arith,
      any-append (is_test c m) own (plan_tests bcs),
      listed_tests-has c m bc.class bc.methods,
      plan_tests-has c m bcs,
    )

errors_for-has :
    (c m cause : String) (r : ReceivedOutcomes) (ps : List (String × String))
    → covers r c m ≡ false
    → any (is_test c m) ps ≡ true
    → any (accounts c m) (errors_for cause (uncovered r ps)) ≡ true
errors_for-has c m cause r [] fresh h = h
errors_for-has c m cause r (p ∷ ps) fresh h =
    ground (arith, errors_for-has c m cause r ps fresh, eq_iff p.0 c, eq_iff p.1 m)

module _ (c m cause : String) (l : Ledger) where
  synth-grows :
      (p : BatchPlan) (log : Log)
      → Reported c m log
      → Reported c m (synth_error_outcomes p cause l.received log)
  synth-grows p log h = rw (synth_error_outcomes_lem p cause l.received log) (
      ground (
        arith,
        any-append (accounts c m) log.outcomes
            (errors_for cause (uncovered l.received (plan_tests p.classes))),
      ))

  synth-has :
      (p : BatchPlan) (log : Log)
      → covers l.received c m ≡ false
      → plan_has c m p ≡ true
      → Reported c m (synth_error_outcomes p cause l.received log)
  synth-has p log fresh h = rw (synth_error_outcomes_lem p cause l.received log) (
      ground (
        arith,
        any-append (accounts c m) log.outcomes
            (errors_for cause (uncovered l.received (plan_tests p.classes))),
        errors_for-has c m cause l.received (plan_tests p.classes) fresh
            (plan_tests-has c m p.classes h),
      ))

  synth_slots-grows :
      (ps : List (Option BatchPlan)) (log : Log)
      → Reported c m log
      → Reported c m (synth_slots cause l ps log)
  unfolding synth_slots
  synth_slots-grows [] log h = h
  synth_slots-grows (none ∷ ps) log h = synth_slots-grows ps log h
  synth_slots-grows (some p ∷ ps) log h = synth_slots-grows ps _ (synth-grows p log h)

  synth_slots-has :
      (ps : List (Option BatchPlan)) (log : Log)
      → covers l.received c m ≡ false
      → in_flight c m ps ≡ true
      → Reported c m (synth_slots cause l ps log)
  unfolding synth_slots
  synth_slots-has [] log fresh h = cc
  synth_slots-has (none ∷ ps) log fresh h = synth_slots-has ps log fresh h
  synth_slots-has (some p ∷ ps) log fresh h = elim (Bool-cases (plan_has c m p)) [
    | inl own ↦ synth_slots-grows ps _ (synth-has p log fresh own)
    | inr other ↦ synth_slots-has ps _ fresh (rw other at h)
  ]

  synth_queue-grows :
      (ps : List BatchPlan) (log : Log)
      → Reported c m log
      → Reported c m (synth_queue cause l ps log)
  unfolding synth_queue
  synth_queue-grows [] log h = h
  synth_queue-grows (p ∷ ps) log h = synth_queue-grows ps _ (synth-grows p log h)

  synth_queue-has :
      (ps : List BatchPlan) (log : Log)
      → covers l.received c m ≡ false
      → pending c m ps ≡ true
      → Reported c m (synth_queue cause l ps log)
  unfolding synth_queue
  synth_queue-has [] log fresh h = cc
  synth_queue-has (p ∷ ps) log fresh h = elim (Bool-cases (plan_has c m p)) [
    | inl own ↦ synth_queue-grows ps _ (synth-has p log fresh own)
    | inr other ↦ synth_queue-has ps _ fresh (rw other at h)
  ]

-- Once the work that is left has been made up, every located test is in the report.
pub drain-Reported :
    (c m cause : String) (s : State) → IsRunning c m s → Reported c m (drain cause s).ledger.log
unfolding drain
drain-Reported c m cause s v =
    let slots = synth_slots cause s.ledger s.slot_in_flight s.ledger.log in
    elim (Bool-cases (covers s.ledger.received c m)) [
      | inl old ↦ synth_queue-grows c m cause s.ledger s.queue slots (
          synth_slots-grows c m cause s.ledger s.slot_in_flight s.ledger.log
            (sym (v.balanced.reported c m) ∙ old))
      | inr fresh ↦ elim (Bool-cases (pending c m s.queue)) [
        | inl queued ↦ synth_queue-has c m cause s.ledger s.queue slots fresh queued
        | inr other ↦ synth_queue-grows c m cause s.ledger s.queue slots (
            synth_slots-has c m cause s.ledger s.slot_in_flight s.ledger.log fresh
              (ground (arith, v.located)))
      ]
    ]
