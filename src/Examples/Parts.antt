-- ===== src/Examples/Parts.antt =====
-- The parts of a run on small inputs: grouping, chains, the queue, the pick, and the stopping policy.
use mathlib.Core.List.{Perm}
use mathlib.Core.List.{Permᴰ}
use mathlib.Core.List.Permᴰ
use phpunit_rust.Prelude.{
  ◌==◌, if◌then◌else◌, arith, ℕ, ◌≤◌, ◌<◌, true, false, ◌≡◌, refl, none, some, List, [], ◌∷◌,
  get_elem?,
}
use phpunit_rust.Types.{BatchPlan, TestStatus, TestOutcome}
use phpunit_rust.Discovery.{group_by_class, method_of, GroupedMethod}
use phpunit_rust.Discovery.Grouped.{
  count_classes, count_cases, count_methods, count_classes-group_by_class,
}
use phpunit_rust.ForkPool.{ok}
use phpunit_rust.Runner.Components.{
  Depends, position, join_deps, join_declared, join_all, push_method, collect, partition_by_depends,
}
use phpunit_rust.Runner.Components.Chained.{
  chain_names, methods_with, partition_by_depends-dependency_chains,
}
use phpunit_rust.ForkPool.{Result, ok, err, write_batch}
use phpunit_rust.Runner.StopOn.{on_failure}
use phpunit_rust.Runner.Received.{covers, synth_error_outcomes}
use phpunit_rust.Runner.Received.Laws.{
  emit_all, errors_for, uncovered, plan_tests, synth_error_outcomes_lem,
}
use phpunit_rust.Runner.Chains.{union, dependency_chains, find, link_methods, count_up, parent_of}
use phpunit_rust.Runner.Chains.Gathered.{together, together-dependency_chains, find-link_methods}
use phpunit_rust.Runner.Chains.Split.{count_chains, count_chains-dependency_chains}
use phpunit_rust.Runner.Requeue.{
  requeue_unrun, push_suspect, charge_all, collect_unrun, unrun_methods,
}
use phpunit_rust.Runner.Dispatch.{dispatch, send_plan, State, Settings, on_slot_died}
use phpunit_rust.Runner.Dispatch.Pick.{
  pick_best_for_slot, remove_at, best_index, overlap, affinity_scan_window,
}
use phpunit_rust.Runner.Dispatch.Pick.Best.{pick_best_for_slot_best}
use phpunit_rust.Runner.Run.{no_outcome, fresh_state, settings_of}
use phpunit_rust.Examples.Inputs.{
  case_of, cases, pool, run_config, world, money_class, money_plan, passed,
}

count_classes-group_by_class_example :
    count_classes "MoneyTest" "adds" (group_by_class cases) ≡ count_cases "MoneyTest" "adds" cases
count_classes-group_by_class_example = count_classes-group_by_class "MoneyTest" "adds" cases

abbrev two_methods : List GroupedMethod
two_methods =
    record (method_of (case_of "adds" false)) { depends_on = "subtracts" ∷ [] }
    ∷ method_of (case_of "subtracts" false)
    ∷ []

count_chains-dependency_chains_example :
    count_chains "adds" (dependency_chains two_methods) ≡ count_methods "adds" two_methods
count_chains-dependency_chains_example = count_chains-dependency_chains "adds" two_methods

together-dependency_chains_example :
    together "adds" "subtracts" (dependency_chains two_methods) ≡ true
unfolding method_of
together-dependency_chains_example =
    together-dependency_chains two_methods 0
      (record (method_of (case_of "adds" false)) { depends_on = "subtracts" ∷ [] }) "subtracts" refl
      refl refl

find-link_methods_example :
    let (ps, x) = find 2 (link_methods 2 two_methods 0 two_methods (count_up 0 two_methods)) 0 in
    parent_of ps x ≡ x
unfolding method_of
find-link_methods_example = find-link_methods two_methods 0 (omega arith)

synth_error_outcomes_lem_example :
    synth_error_outcomes money_plan "worker stuck" no_outcome.received no_outcome.log
    ≡ emit_all
        (errors_for "worker stuck" (uncovered no_outcome.received (plan_tests money_plan.classes)))
        no_outcome.log
synth_error_outcomes_lem_example =
    synth_error_outcomes_lem money_plan "worker stuck" no_outcome.received no_outcome.log

abbrev other_plan : BatchPlan
other_plan = record money_plan { fingerprint = "Rate" ∷ [] }

-- The slot has loaded what the second plan needs.
pick_best_for_slot_best_example :
    Perm (other_plan ∷ money_plan ∷ []) (money_plan ∷ other_plan ∷ [])
    × ((j : ℕ) (q : BatchPlan)
        → j < affinity_scan_window
        → get_elem? (other_plan ∷ money_plan ∷ []) j ≡ some q
        → overlap q.fingerprint ("Money" ∷ []) ≤ overlap money_plan.fingerprint ("Money" ∷ []))
unfolding pick_best_for_slot remove_at best_index overlap
pick_best_for_slot_best_example =
    pick_best_for_slot_best (other_plan ∷ money_plan ∷ []) ("Money" ∷ []) money_plan
      (other_plan ∷ []) refl

abbrev stop_settings : Settings
stop_settings = settings_of (record run_config { stop_on = on_failure }) world cases

abbrev failed : TestOutcome
failed = record (passed "adds") { status = TestStatus.fail }

abbrev waiting : State
waiting = fresh_state pool 2 (money_plan ∷ [])

abbrev lone : BatchPlan
lone = record money_plan { classes = money_class ("adds" ∷ []) ∷ [] }

abbrev sent_of : Result State → List (ℕ × BatchPlan)
sent_of (ok t) = t.pool.sent
sent_of (err w) = []

abbrev stopped : State
stopped = record (fresh_state pool 2 []) { stopping = true; slot_in_flight = some lone ∷ none ∷ [] }

-- After the policy stopped the run, the lone test of a worker that dies is sent again.
resent :
    sent_of (on_slot_died stop_settings 0 stopped)
    ≡ (0, record lone { force_exit_after = true }) ∷ []
unfolding on_slot_died dispatch pick_best_for_slot remove_at requeue_unrun push_suspect charge_all
    collect_unrun unrun_methods covers send_plan write_batch
resent = refl

-- `b` depends on `a`; nothing is declared for `c`.
abbrev declared_for : Depends
declared_for m = if m == "b" then some ("a" ∷ []) else none

grouped_b_with_a :
    partition_by_depends ("a" ∷ "b" ∷ "c" ∷ []) declared_for ≡ ("a" ∷ "b" ∷ []) ∷ ("c" ∷ []) ∷ []
unfolding partition_by_depends collect push_method join_all join_declared join_deps position union
    find
grouped_b_with_a = refl

abbrev their_chains : List (List GroupedMethod)
their_chains = dependency_chains (methods_with declared_for ("a" ∷ "b" ∷ "c" ∷ []))

partition_by_depends-dependency_chains_example :
    Permᴰ (partition_by_depends ("a" ∷ "b" ∷ "c" ∷ []) declared_for) (chain_names their_chains)
partition_by_depends-dependency_chains_example =
    partition_by_depends-dependency_chains ("a" ∷ "b" ∷ "c" ∷ []) declared_for their_chains
      (Permᴰ.refl their_chains)
