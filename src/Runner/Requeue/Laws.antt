-- ===== src/Runner/Requeue/Laws.antt =====
-- crates/runner/src/runner.rs: `requeue_unrun` as a whole.
use phpunit_rust.Prelude.{
  eq_refl, ◌≤◌, ◌<◌, String, true, false, ◌||◌, ◌≡◌, refl, ap, ◌∙◌, List, [], ◌∷◌, Option, any,
  arith,
}
use phpunit_rust.Types.{BatchPlan}
use phpunit_rust.Runner.Received.{covers}
use phpunit_rust.Runner.Requeue.{
  Ledger, Unrun, Attempts, max_attempts, charge_all, collect_unrun, push_rest, push_suspect,
  requeue_unrun,
}
use phpunit_rust.Runner.Requeue.Settled.{
  IsBalanced, Settled-IsBalanced, requeue_unrun-Settled, covers-Settled, charge_all-Settled,
}
use phpunit_rust.Runner.Requeue.Kept.{
  IsBalanced-RowCovers, expects, collect_unrun_kept, collect_unrun_sound,
}
use phpunit_rust.Runner.Requeue.Charge.{
  is_poison, charge_all-poisoned, charge_all_kept, charge_all_counted, charge_all_subset,
}
use phpunit_rust.Runner.Requeue.Indexed.{charge_all-Indexed, collect_unrun-Indexed, class_from}
use phpunit_rust.Runner.Requeue.Pending.{
  pending, option_unrun, is_unrun, pending-push_rest, pending-push_suspect,
}

no_unrun : (us : List Unrun) → ((c m : String) → any (is_unrun c m) us ≡ true → ⊥) → us ≡ []
no_unrun [] h = refl
no_unrun (u ∷ us) h =
    absurd (h u.owner.class u.name (ground (arith, eq_refl u.owner.class, eq_refl u.name)))

module _ (lost : BatchPlan) (class_methods : String → Option (List String)) (l : Ledger)
    (a : Attempts) (queue : List BatchPlan) where
  unrun_of : List Unrun
  unrun_of = (collect_unrun class_methods 0 lost.classes l).1

  -- The queue holds what it held, the suspect and the other tests that may run again.
  pending-requeue_unrun :
      (c m : String)
      → let r = charge_all unrun_of (collect_unrun class_methods 0 lost.classes l).0 a in
        pending c m (requeue_unrun lost class_methods l a queue).queue
        ≡ ((option_unrun c m r.suspect || any (is_unrun c m) r.rest) || pending c m queue)
  unfolding requeue_unrun unrun_of
  pending-requeue_unrun c m =
      let c0 = collect_unrun class_methods 0 lost.classes l in
      let r = charge_all c0.1 c0.0 a in
      ground (
        arith,
        pending-push_suspect c m lost r.suspect (push_rest lost r.rest queue),
        pending-push_rest (class_from 0 lost.classes) c m lost r.rest queue (
            charge_all-Indexed (class_from 0 lost.classes) c0.1 c0.0 a (
              collect_unrun-Indexed (class_from 0 lost.classes) class_methods 0 lost.classes l
                (λ k _ _. refl))),
      )

  -- What was in the queue stays.
  pub requeue_unrun-pending :
      (c m : String)
      → pending c m queue ≡ true
      → pending c m (requeue_unrun lost class_methods l a queue).queue ≡ true
  requeue_unrun-pending c m h = ground (arith, pending-requeue_unrun c m)

  -- A test that the batch of a dead worker stands for is reported once `requeue_unrun` returns, or
  -- waits in the queue: where the received outcomes are those of the report, it is covered by them
  -- or named by a plan.
  pub requeue_unrun_kept :
      IsBalanced l
      → (c m : String) → any (expects class_methods c m) lost.classes ≡ true
      → let r = requeue_unrun lost class_methods l a queue in
        (covers r.ledger.received c m || pending c m r.queue) ≡ true
  unfolding requeue_unrun unrun_of
  requeue_unrun_kept v c m h =
      let c0 = collect_unrun class_methods 0 lost.classes l in
      ground (
        arith,
        collect_unrun_kept class_methods 0 lost.classes l (IsBalanced-RowCovers l v) c m h,
        covers-Settled c m (charge_all-Settled c0.1 c0.0 a),
        charge_all_kept c m c0.1 c0.0 a,
        pending-requeue_unrun c m,
      )

  -- A test that only the new plans name was in the lost batch and not yet reported, and it was
  -- never put back before: its count was 0 and is 1 afterwards.
  pub requeue_unrun_once :
      (c m : String)
      → pending c m queue ≡ false
      → pending c m (requeue_unrun lost class_methods l a queue).queue ≡ true
      → (any (expects class_methods c m) lost.classes ≡ true)
        × (covers l.received c m ≡ false)
        × (a c m ≡ 0)
        × ((requeue_unrun lost class_methods l a queue).attempts c m ≡ 1)
  unfolding requeue_unrun unrun_of
  requeue_unrun_once c m old new =
      let c0 = collect_unrun class_methods 0 lost.classes l in
      ground (
        arith,
        pending-requeue_unrun c m,
        charge_all_subset c m c0.1 c0.0 a,
        charge_all_counted c m c0.1 c0.0 a,
        collect_unrun_sound class_methods 0 lost.classes l c m,
      )

  -- No count falls, and none reaches the limit from below it, so the `u8` never overflows.
  requeue_unrun_attempts :
      (c m : String)
      → let r = requeue_unrun lost class_methods l a queue in
        (a c m ≤ r.attempts c m) × (a c m < max_attempts → r.attempts c m < max_attempts)
  unfolding requeue_unrun
  requeue_unrun_attempts c m =
      let c0 = collect_unrun class_methods 0 lost.classes l in
      let h = charge_all_counted c m c0.1 c0.0 a in (h.0, h.1)

  -- A test that the lost batch leaves un-run and that was put back before is reported as an error, the
  -- one of a poison pill, and where no plan of the queue named it, none does afterwards.
  pub requeue_unrun_gives_up :
      (c m : String)
      → any (is_unrun c m) (collect_unrun class_methods 0 lost.classes l).1 ≡ true
      → 1 ≤ a c m
      → let r = requeue_unrun lost class_methods l a queue in
        (any (is_poison c m) r.ledger.log.outcomes ≡ true)
        × (pending c m queue ≡ false → pending c m r.queue ≡ false)
  unfolding requeue_unrun
  requeue_unrun_gives_up c m left charged =
      let c0 = collect_unrun class_methods 0 lost.classes l in
      (
        charge_all-poisoned c m c0.1 c0.0 a charged left,
        λ old. ground (arith, requeue_unrun_once c m old),
      )

  -- The report stays in step: where the received outcomes are those of the report, and `on_progress`
  -- saw exactly the report, both still hold afterwards.
  requeue_unrun-IsBalanced :
      IsBalanced l → IsBalanced (requeue_unrun lost class_methods l a queue).ledger
  requeue_unrun-IsBalanced v =
      Settled-IsBalanced (requeue_unrun-Settled lost class_methods l a queue) v

  -- A lost batch whose tests are all covered is dropped: nothing of it returns to the queue and no
  -- test is charged, also where an outcome of other rows is what covers a test whose rows it held.
  requeue_unrun_covered :
      ((c m : String)
        → any (expects class_methods c m) lost.classes ≡ true
        → covers l.received c m ≡ true)
      → ((requeue_unrun lost class_methods l a queue).queue ≡ queue)
        × ((requeue_unrun lost class_methods l a queue).attempts ≡ a)
  unfolding requeue_unrun
  requeue_unrun_covered known =
      let c0 = collect_unrun class_methods 0 lost.classes l in
      let none_left : c0.1 ≡ [] = no_unrun c0.1 (λ c m h.
        let (e, fresh) = collect_unrun_sound class_methods 0 lost.classes l c m h in
        ground (arith, known c m e)) in
      (
        ap
              (λ us.
                push_suspect lost (charge_all us c0.0 a).suspect
                  (push_rest lost (charge_all us c0.0 a).rest queue))
              none_left
            ∙ unfold charge_all push_suspect push_rest in refl,
        ap (λ us. (charge_all us c0.0 a).attempts) none_left ∙ unfold charge_all in refl,
      )
