-- ===== src/Runner/Run/Reports.antt =====
-- crates/runner/src/runner.rs: the report of a run, test by test.
use phpunit_rust.Prelude.{
  ◌≤◌, ◌<◌, String, true, false, ◌≡◌, sym, ◌∙◌, ◌⊎◌, inl, inr, List, [], ◌∷◌, any, any-append,
  arith, subst, Bool-cases, eq_iff,
}
use phpunit_rust.Discovery.{TestCase}
use phpunit_rust.Discovery.Grouped.{count_cases, is_case}
use phpunit_rust.ForkPool.Bind.{ok_injective, >>=-eq-ok}
use phpunit_rust.ForkPool.{PhpForkPool, ok, len}
use phpunit_rust.Runner.StopOn.{Report}
use phpunit_rust.Runner.Received.{covers, Log, emit, error_outcome}
use phpunit_rust.Runner.Received.Laws.{accounts}
use phpunit_rust.Runner.Requeue.{Ledger}
use phpunit_rust.Runner.Queue.Plans.{RowCounts}
use phpunit_rust.Runner.Dispatch.{State, Settings, Event, run_loop, finish, drain, crash_cause}
use phpunit_rust.Runner.Dispatch.Complete.{Reported, drain-Reported}
use phpunit_rust.Runner.Dispatch.Loop.{
  Phase, running, stuck, reported, abandoned, Honest, run_loop-Phase,
}
use phpunit_rust.Runner.Dispatch.Ends.{eofs, run_loop_ok-Ends}
use phpunit_rust.Runner.Run.{
  RunConfig, World, Resumable, start, filter_cases, settings_of, not_covered, unfinished_of,
  run_resumable, emit_unfinished, run_with_profiler,
}
use phpunit_rust.Runner.Run.Seeded.{start-IsRunning}

-- The test is among the cases handed back.
abbrev pub HandedBack : String → String → List TestCase → Type 0
HandedBack c m cases = any (is_case c m) cases ≡ true

not_covered-has :
    (c m : String) (l : Ledger) (cases : List TestCase)
    → 0 < count_cases c m cases
    → covers l.received c m ≡ false
    → HandedBack c m (not_covered l cases)
unfolding not_covered
not_covered-has c m l [] h fresh = elim h [ ]
not_covered-has c m l (x ∷ xs) h fresh =
    ground (arith, not_covered-has c m l xs, eq_iff x.class c, eq_iff x.method m)

finish_calm :
    (cfg : Settings) (t : State) → t.watchdog_fired ≡ false → (finish cfg t).ledger ≡ t.ledger
unfolding finish
finish_calm cfg t calm = rw calm

finish_died : (cfg : Settings) (t : State) → (finish cfg t).master_died ≡ t.master_died
unfolding finish drain
finish_died cfg t = elim (Bool-cases t.watchdog_fired) [ inl fired ↦ rw fired | inr calm ↦ rw calm ]

finish_stuck :
    (cfg : Settings) (c m : String) (t : State)
    → t.watchdog_fired ≡ true
    → Reported c m (drain cfg.watchdog_cause t).ledger.log
    → Reported c m (finish cfg t).ledger.log
unfolding finish
finish_stuck cfg c m t fired h = simp fired h

-- What a loop that is over leaves of a test, once the run is finished.
finished :
    (cfg : Settings) (c m : String) (cases : List TestCase) (t : State)
    → 0 < count_cases c m cases
    → (t.live_readers ≡ 0) ⊎ (t.watchdog_fired ≡ true)
    → Phase c m t
    → Reported c m (finish cfg t).ledger.log ⊎ HandedBack c m (unfinished_of (finish cfg t) cases)
finished cfg c m cases t h ends (running v live fired died) = absurd (ground arith)
finished cfg c m cases t h ends (stuck v fired died) =
    inl (finish_stuck cfg c m t fired (drain-Reported c m cfg.watchdog_cause t v))
finished cfg c m cases t h ends (reported live fired died r) =
    inl (subst (λ l. Reported c m (Ledger.log l)) (sym (finish_calm cfg t fired)) r)
finished cfg c m cases t h ends (abandoned live fired died v) =
    elim (Bool-cases (covers t.ledger.received c m)) [
      | inl old ↦ inl (
          subst (λ l. Reported c m (Ledger.log l)) (sym (finish_calm cfg t fired))
            (sym (v.balanced.reported c m) ∙ old))
      | inr fresh ↦ inr (
          simp (finish_died cfg t, died)
            (not_covered-has c m (finish cfg t).ledger cases h (
              subst (λ l. covers (Ledger.received l) c m ≡ false) (sym (finish_calm cfg t fired))
                fresh)))
    ]

emit_unfinished-grows :
    (c m : String) (xs : List TestCase) (l : Log)
    → Reported c m l
    → Reported c m (emit_unfinished xs l)
unfolding emit_unfinished
emit_unfinished-grows c m [] l h = h
emit_unfinished-grows c m (x ∷ xs) l h =
    let o = error_outcome x.class x.method crash_cause in
    emit_unfinished-grows c m xs (emit o l)
      (ground (arith, any-append (accounts c m) l.outcomes (o ∷ [])))

emit_unfinished-has :
    (c m : String) (xs : List TestCase) (l : Log)
    → HandedBack c m xs
    → Reported c m (emit_unfinished xs l)
unfolding emit_unfinished
emit_unfinished-has c m [] l h = cc
emit_unfinished-has c m (x ∷ xs) l h =
    let o = error_outcome x.class x.method crash_cause in
    elim (Bool-cases (is_case c m x)) [
      | inl own ↦
          emit_unfinished-grows c m xs (emit o l)
            (ground (arith, any-append (accounts c m) l.outcomes (o ∷ [])))
      | inr other ↦ emit_unfinished-has c m xs (emit o l) (rw other at h)
    ]

module _ (pool : PhpForkPool) (cases : List TestCase) (cfg : RunConfig) (row_counts : RowCounts)
    (w : World) (events : List Event) (c m : String) (has_slots : 1 ≤ len pool)
    (selected : 0 < count_cases c m (filter_cases cfg.filter cases))
    (closing : len pool ≤ eofs events)
    (honest : (s : State)
      → start pool cfg row_counts (filter_cases cfg.filter cases) ≡ ok s
      → Honest (settings_of cfg w (filter_cases cfg.filter cases)) c m events s) where
  -- No selected test is lost. A run over at least one slot, whose workers report the test before they
  -- are done with its batch, whose pipes all end, and in which no outcome triggers the stopping
  -- policy, reports the test or hands it back as unfinished, if it returns a result.
  pub run_resumable_complete :
      (r : Resumable)
      → run_resumable pool cases cfg row_counts w events ≡ ok r
      → Reported c m r.log ⊎ HandedBack c m r.unfinished
  unfolding run_resumable
  run_resumable_complete r h =
      let filtered = filter_cases cfg.filter cases in
      let settings = settings_of cfg w filtered in
      let (s, hs, h1) = >>=-eq-ok (start pool cfg row_counts filtered) _ h in
      let (t, ht, h2) = >>=-eq-ok (run_loop settings events s) _ h1 in
      let (v, live, fired, died) = start-IsRunning c m pool cfg row_counts filtered s selected hs in
      let phase =
        run_loop-Phase settings c m events s t (honest s hs) ht
          (running v (omega arith) fired died) in
      let ends = run_loop_ok-Ends settings events s t (omega arith) ht in
      subst (λ q. Reported c m (Resumable.log q) ⊎ HandedBack c m (Resumable.unfinished q))
        (ok_injective h2) (finished settings c m filtered t selected ends phase)

  -- Such a run that returns a report has an outcome for the test in it, the test's own or one of its
  -- whole class. The conditions: at least one slot, workers that report the test before they are
  -- done with its batch, pipes that all end, and no outcome that triggers the stopping policy.
  pub run_with_profiler_complete :
      (r : Report)
      → run_with_profiler pool cases cfg row_counts w events ≡ ok r
      → any (accounts c m) r.outcomes ≡ true
  unfolding run_with_profiler
  run_with_profiler_complete r h =
      let (q, hq, e) = >>=-eq-ok (run_resumable pool cases cfg row_counts w events) _ h in
      subst (λ (p : Report). any (accounts c m) p.outcomes ≡ true) (ok_injective e)
        (elim (run_resumable_complete q hq) [
          | inl known ↦ emit_unfinished-grows c m q.unfinished q.log known
          | inr back ↦ emit_unfinished-has c m q.unfinished q.log back
        ])
