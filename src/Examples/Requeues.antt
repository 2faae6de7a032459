-- ===== src/Examples/Requeues.antt =====
-- `requeue_unrun` on a batch of two tests of which the first was reported before the worker died.
use phpunit_rust.Prelude.{String, true, false, ◌||◌, ◌≡◌, refl, Option, none, List, [], any, arith}
use phpunit_rust.Runner.Received.{covers, record_outcome}
use phpunit_rust.Runner.Requeue.{
  Ledger, Attempts, settle, requeue_unrun, collect_unrun, unrun_methods, charge_all, charge_rest,
  push_rest, push_suspect,
}
use phpunit_rust.Runner.Requeue.Settled.{IsBalanced, settle-IsBalanced}
use phpunit_rust.Runner.Requeue.Kept.{expects}
use phpunit_rust.Runner.Requeue.Pending.{pending, is_unrun}
use phpunit_rust.Runner.Requeue.Charge.{is_poison}
use phpunit_rust.Runner.Requeue.Laws
use phpunit_rust.Runner.Run.{no_outcome}
use phpunit_rust.Runner.Run.Seeded.{no_outcome-IsBalanced}
use phpunit_rust.Examples.Inputs.{money_plan, passed, no_attempts}

abbrev unlisted : String → Option (List String)
unlisted c = none

abbrev one_passed : Ledger
one_passed = settle (passed "adds") no_outcome

one_passed-IsBalanced : IsBalanced one_passed
one_passed-IsBalanced = settle-IsBalanced (passed "adds") no_outcome no_outcome-IsBalanced

abbrev charged : Attempts
charged c m = 1

requeue_unrun_kept_example :
    let r = requeue_unrun money_plan unlisted one_passed no_attempts [] in
    (covers r.ledger.received "MoneyTest" "subtracts" || pending "MoneyTest" "subtracts" r.queue)
    ≡ true
requeue_unrun_kept_example =
    Laws.requeue_unrun_kept money_plan unlisted one_passed no_attempts [] one_passed-IsBalanced
      "MoneyTest" "subtracts" refl

requeue_unrun_once_example :
    (any (expects unlisted "MoneyTest" "subtracts") money_plan.classes ≡ true)
    × (covers one_passed.received "MoneyTest" "subtracts" ≡ false)
    × (no_attempts "MoneyTest" "subtracts" ≡ 0)
    × ((requeue_unrun money_plan unlisted one_passed no_attempts []).attempts "MoneyTest"
          "subtracts"
        ≡ 1)
unfolding requeue_unrun collect_unrun unrun_methods charge_all charge_rest push_rest push_suspect
    covers record_outcome
requeue_unrun_once_example =
    Laws.requeue_unrun_once money_plan unlisted one_passed no_attempts [] "MoneyTest" "subtracts"
      refl refl

subtracts_left :
    any
      (is_unrun "MoneyTest" "subtracts")
      (collect_unrun unlisted 0 money_plan.classes one_passed).1
    ≡ true
unfolding collect_unrun unrun_methods covers record_outcome
subtracts_left = refl

requeue_unrun_gives_up_example :
    let r = requeue_unrun money_plan unlisted one_passed charged [] in
    (any (is_poison "MoneyTest" "subtracts") r.ledger.log.outcomes ≡ true)
    × (pending "MoneyTest" "subtracts" [] ≡ false → pending "MoneyTest" "subtracts" r.queue ≡ false)
requeue_unrun_gives_up_example =
    Laws.requeue_unrun_gives_up money_plan unlisted one_passed charged [] "MoneyTest" "subtracts"
      subtracts_left (omega arith)
