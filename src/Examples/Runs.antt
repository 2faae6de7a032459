-- ===== src/Examples/Runs.antt =====
-- A run of three tests, one of them tautological, over two slots whose workers both die with no
-- notice: the pipes end, and the two tests that were on the slots are made up as errors.
use phpunit_rust.Prelude.{true, ◌≡◌, refl, ◌⊎◌, none, some, List, [], ◌∷◌, any, arith}
use phpunit_rust.Types.{TestOutcome}
use phpunit_rust.Discovery.{group_by_class, add_cases, add_case, method_of}
use phpunit_rust.ForkPool.{
  Result, ok, err, write_batch, close_slot, len, take_reader, wait, master_alive,
}
use phpunit_rust.Runner.StopOn.{Report}
use phpunit_rust.Runner.Received.{
  covers, record_outcome, synth_error_outcomes, synth_classes, synth_methods,
}
use phpunit_rust.Runner.Received.Laws.{accounts}
use phpunit_rust.Runner.Chains.{
  dependency_chains, collect_groups, group_push, find, link_methods, link_deps,
}
use phpunit_rust.Runner.Queue.{
  build_queue, by_cost, insert_class, add_classes, add_class, add_class_methods, place_others,
  place_chains, place_rest, flush, synthetic_of, target_of,
}
use phpunit_rust.Runner.Queue.Plans.{
  method_fp, fp_classes, fp_methods, fp_lookup, fp_of_classes, fp_of_methods, mk_plan, class_of,
  required_files_for, required_files, provider_files, is_heavy, row_count_for, method_weight,
}
use phpunit_rust.Runner.Dispatch.{
  State, Settings, Event, outcome, batch_done, eof, send_plan, close, on_eof, on_last_eof, drain,
  synth_slots, synth_queue, handle, run_loop, finish,
}
use phpunit_rust.Runner.Dispatch.Complete.{Reported}
use phpunit_rust.Runner.Dispatch.Ends.{EndsOrFails, run_loop_ends}
use phpunit_rust.Runner.Run.{
  start, take_readers, seed, settle_all, fresh_state, filter_cases, matches_filter, settings_of,
  methods_lookup, class_methods_of, push_method, Resumable, run_resumable, run_with_profiler,
  emit_unfinished, not_covered,
}
use phpunit_rust.Runner.Run.Reports.{HandedBack, run_resumable_complete, run_with_profiler_complete}
use phpunit_rust.Examples.Inputs.{cases, pool, run_config, no_rows, world, money_plan, passed}

abbrev both_end : List Event
both_end = eof 0 ∷ eof 1 ∷ []

abbrev log_of : Result Report → List TestOutcome
log_of (ok r) = r.outcomes
log_of (err e) = []

-- What the run returns, in full.
abbrev outcomes_of_run : List TestOutcome
outcomes_of_run = log_of (run_with_profiler pool cases run_config no_rows world both_end)

run_returns :
    run_with_profiler pool cases run_config no_rows world both_end
    ≡ ok (record { outcomes = outcomes_of_run; total_duration_ms = 0 })
unfolding run_with_profiler run_resumable start take_readers seed settle_all filter_cases
    matches_filter settings_of methods_lookup class_methods_of push_method emit_unfinished
    not_covered build_queue by_cost insert_class add_classes add_class add_class_methods
    place_others place_chains place_rest flush synthetic_of target_of method_fp fp_classes
    fp_methods fp_lookup fp_of_classes fp_of_methods mk_plan class_of required_files_for
    required_files provider_files is_heavy row_count_for method_weight group_by_class add_cases
    add_case method_of dependency_chains collect_groups group_push find link_methods link_deps
    send_plan close write_batch close_slot len take_reader wait master_alive on_eof on_last_eof
    drain synth_slots synth_queue handle run_loop finish covers record_outcome synth_error_outcomes
    synth_classes synth_methods
run_returns = refl

abbrev resumed_log : Result Resumable → List TestOutcome
resumed_log (ok r) = r.log.outcomes
resumed_log (err e) = []

abbrev resumed_of : Resumable
resumed_of = record {
  log = record { progress = outcomes_of_run; outcomes = outcomes_of_run };
  total_duration_ms = 0;
  unfinished = [];
}

resumable_returns : run_resumable pool cases run_config no_rows world both_end ≡ ok resumed_of
unfolding run_with_profiler run_resumable start take_readers seed settle_all filter_cases
    matches_filter settings_of methods_lookup class_methods_of push_method emit_unfinished
    not_covered build_queue by_cost insert_class add_classes add_class add_class_methods
    place_others place_chains place_rest flush synthetic_of target_of method_fp fp_classes
    fp_methods fp_lookup fp_of_classes fp_of_methods mk_plan class_of required_files_for
    required_files provider_files is_heavy row_count_for method_weight group_by_class add_cases
    add_case method_of dependency_chains collect_groups group_push find link_methods link_deps
    send_plan close write_batch close_slot len take_reader wait master_alive on_eof on_last_eof
    drain synth_slots synth_queue handle run_loop finish covers record_outcome synth_error_outcomes
    synth_classes synth_methods
resumable_returns = refl

run_resumable_complete_example :
    Reported "MoneyTest" "adds" resumed_of.log ⊎ HandedBack "MoneyTest" "adds" resumed_of.unfinished
unfolding filter_cases matches_filter len
run_resumable_complete_example =
    run_resumable_complete pool cases run_config no_rows world both_end "MoneyTest" "adds"
      (omega arith) (omega arith) (omega arith) (λ s h. (tt, λ t e. (tt, λ u f. tt))) resumed_of
      resumable_returns

run_with_profiler_complete_example : any (accounts "MoneyTest" "adds") outcomes_of_run ≡ true
unfolding filter_cases matches_filter len
run_with_profiler_complete_example =
    run_with_profiler_complete pool cases run_config no_rows world both_end "MoneyTest" "adds"
      (omega arith) (omega arith) (omega arith) (λ s h. (tt, λ t e. (tt, λ u f. tt)))
      (record { outcomes = outcomes_of_run; total_duration_ms = 0 }) run_returns

-- The state of two slots of which the first holds the plan of both tests.
abbrev busy : State
busy = record (fresh_state pool 2 (money_plan ∷ [])) {
  slot_in_flight = some money_plan ∷ none ∷ [];
}

abbrev settings : Settings
settings = settings_of run_config world cases

abbrev whole_batch : List Event
whole_batch = outcome 0 (passed "adds") ∷ batch_done 0 ∷ eof 0 ∷ eof 1 ∷ []

run_loop_ends_example : EndsOrFails (run_loop settings whole_batch busy)
run_loop_ends_example = run_loop_ends settings whole_batch busy (omega arith)
