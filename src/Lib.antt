-- ===== src/Lib.antt =====
-- A model of Proust, a runner for PHPUnit suites that keeps a PHP master process and a pool of
-- forked workers and hands out batches of tests to them, and of the values and terms with which its
-- analyzer decides assertions without a run.
--
-- The parts and their files. Paths are from the repository's root.
--   Types           crates/runner/src/types.rs: the statuses, outcomes and batches on the wire.
--   Discovery       crates/discovery/src/lib.rs: a discovered test (TestCase) and group_by_class.
--   ForkPool        crates/runner/src/fork_pool.rs: PhpForkPool, the ends of its pipes.
--   Runner          crates/runner/src/runner.rs, in parts:
--     StopOn        StopOn, Report
--     Received      ReceivedOutcomes, synth_error_outcomes
--     Requeue       requeue_unrun
--     Chains        dependency_chains
--     Components    crates/runner/src/components.rs: partition_by_depends
--     Queue         build_queue, with the plans it makes in Queue/Plans
--     Chunks        chunk_by_class
--     Dispatch      the loop of run_resumable, with pick_best_for_slot in Dispatch/Pick
--     Run           run_resumable and run_with_profiler around the loop
--   Lease           crates/runner/src/resource_lease.rs: the clones of the database, their names, and the
--                   guard that drops them.
--   Cache           crates/analyzer/src/cache/gc.rs: prune, the eviction of cache entries
--   Reduce          crates/analyzer/src/reduce, in parts:
--     Floats        what value.rs and eval.rs use of f64
--     Value         value.rs: Value, ArrayKey, mark_aliased; the numeric strings in Value/Numeric, the
--                   text of a float in Value/Decimal, the coercions in Value/Convert, <=>, == and === in
--                   Value/Compare; PhpValue of concrete/value.rs and from_php in Value/FromPhp
--     Term          term.rs: Term, Op, Decision; reduce in Term/Simplify, decide_same and decide_eq in
--                   Term/Decide
--     Eval          eval.rs, on values: BailReason and Outcome; the guards of the comparisons in
--                   Eval/Guards, run_assertion in Eval/Assertions, php_add to php_concat in Eval/Arith,
--                   eval_binary and incdec_lvalue in Eval/Binary, the guards of declared types in
--                   Eval/Hints, arrays in Eval/Arrays, call_pure_builtin in Eval/Builtins; the scope and
--                   the invocation of a closure in Eval/Closures, call_closure_builtin and the call of
--                   a function by its name in Eval/Callbacks
--   Typing          crates/analyzer/src/types: type_repr.rs, env.rs and narrowing.rs
--   Int, Digits     signed integers, and decimal digits
--   Prelude         the library names and the helpers that the parts share
--   Examples        concrete runs, and each result at a concrete input
--
-- How they interact. build_queue turns the grouped tests into a queue of BatchPlan; run_resumable
-- seeds each slot of the pool with a plan and then answers the workers' messages: an outcome is
-- recorded, a finished batch fetches the next plan, a dead worker's batch goes through requeue_unrun,
-- and the end of the last pipe or the watchdog drains what is left through synth_error_outcomes. The
-- loop's variables are the record Dispatch.State, a message is an Event, and a run is the fold of
-- the handlers over a list of events, which stands for what the channel delivers and in which order.
-- run_with_profiler reports as errors what run_resumable hands back. The analyzer's parts stand beside
-- this: a decision reduces both terms and compares the normal forms, and the assertions on values go
-- through the coercions and comparisons of PHP. The evaluator calls run_assertion, the operators and
-- the builtins on values that it has computed; each first asks its guards whether to abstain.
--
-- Conventions. A usize or u32 is a natural number, except for the conversion of a row count to u32,
-- which keeps its wrap-around; a duration in milliseconds is a natural number. A hash set or map is a
-- list without repetitions, in the order of insertion, so an order that the source leaves open is
-- one of the possible ones. The attempt counts are a function of class and method. An anyhow error is
-- its first words. In Lease a text is the list of its characters' codes, since names are cut there; in
-- Reduce it is the list of its bytes. An i64 is an integer that in_i64 bounds where the code checks for
-- overflow. An f64 and what the standard library does with it, reading and writing included, is the
-- parameter Floats, and a law of floats that a result needs is its hypothesis. In Reduce/Eval a result
-- is a value, a bail or a panic, the last where Rust's arithmetic has one; names of functions are texts;
-- and what PHP does with the values that have no model, objects by identity and closures, is a parameter
-- of the reference that an assertion is held against.
--
-- Bounds and fuel. The search for a root in dependency_chains runs on fuel, one more than the number
-- of dependencies that the methods declare, since each link deepens the forest by at most one, and so
-- does the one in partition_by_depends. The digits of a number run on fuel 20, the number of digits of
-- the largest 64-bit number. A reduction of a term runs on fuel, the number of the term's
-- constructors, since a field that is found is reduced again. The other functions are structural; the
-- loop recurses on the list of events.
--
-- What is asked of the surroundings: whether a write to an open pipe goes through, whether the
-- master still lives at the last end of file, and the watchdog's text are parameters; so are the
-- answers of the PHP helper that provisions databases, and the digest that a cut name carries. A closure
-- is invoked on a record Machine: the parser of its source, the evaluators of an expression and of
-- statements, which walk over its syntax tree, and the resolver of calls.
--
-- Not modelled: the start of PHP and its pipes and signals, the reader threads, profiler spans, the
-- parsers of PHP and XML, the command lines, the reports' formats, the mutation and mock-baking parts,
-- and of the analyzer all but the eviction of its cache, the types and their environment, the values,
-- the reducer's terms and the operations of its evaluator on values: most of the rest walks over
-- syntax trees of a third-party parser.
pub mod Prelude
pub mod Types
pub mod Typing
pub mod Digits
pub mod Int
pub mod Discovery
pub mod Cache
pub mod ForkPool
pub mod Lease
pub mod Reduce
pub mod Runner
pub mod Examples
