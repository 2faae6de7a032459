-- ===== src/Runner/Dispatch/Located.antt =====
-- crates/runner/src/runner.rs: where a test is while the dispatcher runs, and where the handlers move
-- it.
use phpunit_rust.Prelude.{
  ℕ, ◌<◌, String, true, ◌||◌, ◌&&◌, ◌≡◌, refl, sym, ap₂, ◌∙◌, ◌==◌, Option, none, some, List, [],
  ◌∷◌, any, set, length, length-set, arith, subst,
}
use phpunit_rust.Types.{BatchClass, BatchPlan}
use phpunit_rust.ForkPool.{ok}
use phpunit_rust.Runner.Received.{covers, is_text}
use phpunit_rust.Runner.Requeue.{Ledger, resolve}
use phpunit_rust.Runner.Requeue.Settled.{
  IsBalanced, Settled-IsBalanced, requeue_unrun-Settled, covers-Settled,
}
use phpunit_rust.Runner.Requeue.Pending.{class_has}
use phpunit_rust.Runner.Requeue.Kept.{expects, expects_in}
use phpunit_rust.Runner.Requeue.Laws.{requeue_unrun_kept, requeue_unrun-pending}
use phpunit_rust.Runner.Dispatch.Slots.{
  at_slot, slot_has, in_flight-take, at_slot-set-none, get_elem?-at_slot,
}
use phpunit_rust.Runner.Dispatch.{State, Settings, recover, on_batch_done, on_slot_died}
use phpunit_rust.Runner.Dispatch.Moves.{open_work, SameBooks, dispatch-Moves}

-- The test is reported, waits in the queue, or runs on a slot.
abbrev pub Located : String → String → State → Type 0
Located c m s = (covers s.ledger.received c m || open_work c m s) ≡ true

listed-expects :
    (cm : String → Option (List String)) (c m : String) (bc : BatchClass) (ms : List String)
    → (bc.class == c && any (is_text m) ms) ≡ true
    → expects_in (resolve cm bc ms) c m bc ≡ true
listed-expects cm c m bc [] h = ground arith
listed-expects cm c m bc (n ∷ ms) h = h

class_has-expects :
    (cm : String → Option (List String)) (c m : String) (bcs : List BatchClass)
    → any (class_has c m) bcs ≡ true
    → any (expects cm c m) bcs ≡ true
class_has-expects cm c m [] h = h
class_has-expects cm c m (bc ∷ bcs) h =
    ground (arith, class_has-expects cm c m bcs, listed-expects cm c m bc bc.methods)

-- The state of a run whose report is kept in step with what is received.
pub record IsRunning (c m : String) (s : State) : Type 0 where
  pub balanced : IsBalanced s.ledger
  pub located : Located c m s

SameBooks-IsRunning :
    (c m : String) (s t : State)
    → SameBooks s t × (open_work c m t ≡ open_work c m s)
    → IsRunning c m s
    → IsRunning c m t
SameBooks-IsRunning c m s t (b, w) v = record {
  balanced = subst IsBalanced (sym b.ledger) v.balanced;
  located = ap₂ (λ l x. covers (Ledger.received l) c m || x) b.ledger w ∙ v.located;
}

-- What no message of a worker changes.
pub record SameRun (s t : State) : Type 0 where
  pub live_readers : t.live_readers ≡ s.live_readers
  pub watchdog_fired : t.watchdog_fired ≡ s.watchdog_fired
  pub master_died : t.master_died ≡ s.master_died
  pub slots : length t.slot_in_flight ≡ length s.slot_in_flight

SameBooks-SameRun :
    (r s t : State)
    → s.live_readers ≡ r.live_readers
    → s.watchdog_fired ≡ r.watchdog_fired
    → s.master_died ≡ r.master_died
    → length s.slot_in_flight ≡ length r.slot_in_flight
    → SameBooks s t
    → SameRun r t
SameBooks-SameRun r s t live fired died slots b = record {
  live_readers = b.live_readers ∙ live;
  watchdog_fired = b.watchdog_fired ∙ fired;
  master_died = b.master_died ∙ died;
  slots = b.slots ∙ slots;
}

pub on_batch_done-IsRunning :
    (c m : String) (slot : ℕ) (s t : State)
    → slot < length s.slot_in_flight
    → (slot_has c m (at_slot s.slot_in_flight slot) ≡ true → covers s.ledger.received c m ≡ true)
    → on_batch_done slot s ≡ ok t
    → IsRunning c m s
    → IsRunning c m t × SameRun s t
unfolding on_batch_done
on_batch_done-IsRunning c m slot s t range reported h v =
    let slots : List (Option BatchPlan) = set s.slot_in_flight slot none in
    let s' : State = record s { slot_in_flight = slots } in
    let same : length slots ≡ length s.slot_in_flight = length-set s.slot_in_flight slot none in
    let moved =
      dispatch-Moves c m slot s' t (omega arith) (at_slot-set-none s.slot_in_flight slot) h in
    (
      SameBooks-IsRunning c m s' t moved (record {
        balanced = v.balanced;
        located = ground (arith, in_flight-take c m s.slot_in_flight slot, v.located);
      }),
      SameBooks-SameRun s s' t refl refl refl same moved.0,
    )

-- The state after the tests of a lost batch are put back.
abbrev Recovered : String → String → ℕ → State → State → Type 0
Recovered c m slot s t = IsRunning c m t × SameRun s t × (at_slot t.slot_in_flight slot ≡ none)

recover_lost :
    (cfg : Settings) (c m : String) (slot : ℕ) (s : State) (lost : BatchPlan)
    → at_slot s.slot_in_flight slot ≡ some lost
    → IsRunning c m s
    → Recovered c m slot s (recover cfg slot (some (some lost)) s)
recover_lost cfg c m slot s lost e v =
    let cm = cfg.class_methods in
    let p = requeue_unrun-Settled lost cm s.ledger s.attempts s.queue in
    (
      record {
        balanced = Settled-IsBalanced p v.balanced;
        located = ground (
          arith,
          in_flight-take c m s.slot_in_flight slot,
          v.located,
          covers-Settled c m p,
          requeue_unrun-pending lost cm s.ledger s.attempts s.queue c m,
          class_has-expects cm c m lost.classes,
          requeue_unrun_kept lost cm s.ledger s.attempts s.queue v.balanced c m,
        );
      },
      record {
        live_readers = refl;
        watchdog_fired = refl;
        master_died = refl;
        slots = length-set s.slot_in_flight slot none;
      },
      at_slot-set-none s.slot_in_flight slot,
    )

recover-Recovered :
    (cfg : Settings) (c m : String) (slot : ℕ) (s : State) (o : Option BatchPlan)
    → at_slot s.slot_in_flight slot ≡ o
    → IsRunning c m s
    → Recovered c m slot s (recover cfg slot (some o) s)
recover-Recovered cfg c m slot s none e v =
    (v, record { live_readers = refl; watchdog_fired = refl; master_died = refl; slots = refl }, e)
recover-Recovered cfg c m slot s (some lost) e v = recover_lost cfg c m slot s lost e v

pub on_slot_died-IsRunning :
    (cfg : Settings) (c m : String) (slot : ℕ) (s t : State)
    → slot < length s.slot_in_flight
    → on_slot_died cfg slot s ≡ ok t
    → IsRunning c m s
    → IsRunning c m t × SameRun s t
unfolding on_slot_died
on_slot_died-IsRunning cfg c m slot s t range h v =
    let s' : State = recover cfg slot (some (at_slot s.slot_in_flight slot)) s in
    let (running, same, free) =
      recover-Recovered cfg c m slot s (at_slot s.slot_in_flight slot) refl v in
    let moved =
      dispatch-Moves c m slot s' t (subst (λ n. slot < n) (sym same.slots) range) free
        (rw (get_elem?-at_slot s.slot_in_flight slot range) at h) in
    (
      SameBooks-IsRunning c m s' t moved running,
      SameBooks-SameRun s s' t same.live_readers same.watchdog_fired same.master_died same.slots
          moved.0,
    )
