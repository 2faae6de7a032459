-- ===== src/Runner/Queue/Held.antt =====
-- crates/runner/src/runner.rs: the rows of a test that the plans of `build_queue` run.
use phpunit_rust.Prelude.{
  ℕ, zero, suc, ◌+◌, ◌-◌, ◌%◌, leb, ◌<◌, String, Bool, true, ◌||◌, ◌&&◌, ◌≡◌, refl, Option, none,
  some, List, [], ◌∷◌, ◌++◌, ◌==◌, if◌then◌else◌, nat_eq, arith,
}
use native.Mathlib.Nat.{mod-lt}
use phpunit_rust.Types.{BatchClass, BatchPlan, RowFilter, TestOutcome}
use phpunit_rust.Discovery.{GroupedMethod, TestClass}
use phpunit_rust.Discovery.Grouped.{count_methods}
use phpunit_rust.Runner.Chains.Split.{count_chains}
use phpunit_rust.Runner.Queue.Plans.{
  QueueConfig, Fingerprints, class_of, mk_plan, chunk_plans_from, names,
}
use phpunit_rust.Runner.Queue.{
  Filling, flush, push_plans, place, isolated_plans, chain_plans, weight,
}

abbrev pub count_names : String → List String → ℕ
count_names m [] = 0
count_names m (n ∷ ns) = if n == m then suc (count_names m ns) else count_names m ns

-- Whether a worker runs the row: the filter takes every `total_chunks`-th row from `chunk_index` on.
abbrev pub runs_row : ℕ → Option RowFilter → Bool
runs_row j none = true
runs_row j (some f) = nat_eq (j % f.total_chunks) f.chunk_index

abbrev pub held_class : ℕ → String → String → BatchClass → ℕ
held_class j c m bc =
    if bc.class == c && runs_row j bc.row_filter then count_names m bc.methods else 0

abbrev pub held_classes : ℕ → String → String → List BatchClass → ℕ
held_classes j c m [] = 0
held_classes j c m (bc ∷ bcs) = held_class j c m bc + held_classes j c m bcs

-- How often the plans run a row of the test.
abbrev pub held : ℕ → String → String → List BatchPlan → ℕ
held j c m [] = 0
held j c m (p ∷ ps) = held_classes j c m p.classes + held j c m ps

abbrev pub count_outcomes : String → String → List TestOutcome → ℕ
count_outcomes c m [] = 0
count_outcomes c m (o ∷ os) =
    if o.class == c && o.method == m then suc (count_outcomes c m os) else count_outcomes c m os

-- A class's methods, where the class is the one asked for.
abbrev pub counted : String → String → String → List GroupedMethod → ℕ
counted c m class ms = if class == c then count_methods m ms else 0

-- What the loop has placed so far.
abbrev pub placed : ℕ → String → String → Filling → ℕ
placed j c m f = held j c m f.queue + held_classes j c m f.bin_buf

module _ (j : ℕ) (c m : String) where
  pub held-append : (ps qs : List BatchPlan) → held j c m (ps ++ qs) ≡ held j c m ps + held j c m qs
  held-append [] qs = omega arith
  held-append (p ∷ ps) qs = omega (arith, held-append ps qs)

  pub held_classes-append :
      (ps qs : List BatchClass)
      → held_classes j c m (ps ++ qs) ≡ held_classes j c m ps + held_classes j c m qs
  held_classes-append [] qs = omega arith
  held_classes-append (p ∷ ps) qs = omega (arith, held_classes-append ps qs)

  pub count_names-names : (ms : List GroupedMethod) → count_names m (names ms) ≡ count_methods m ms
  count_names-names [] = refl
  count_names-names (x ∷ xs) = ground (arith, count_names-names xs)

  pub placed-flush :
      (fps : Fingerprints) (f : Filling) → placed j c m (flush fps f) ≡ placed j c m f
  unfolding flush mk_plan
  placed-flush fps f =
      ground (arith, held-append f.queue (mk_plan fps f.bin_buf f.bin_stateful ∷ []))

  pub placed-push_plans :
      (ps : List BatchPlan) (f : Filling)
      → placed j c m (push_plans ps f) ≡ placed j c m f + held j c m ps
  placed-push_plans ps f = omega (arith, held-append f.queue ps)

  pub placed-place :
      (fps : Fingerprints) (target : ℕ) (force : Bool) (heavy others : List GroupedMethod)
      (bc : BatchClass) (f : Filling)
      → placed j c m (place fps target force heavy others bc f)
        ≡ placed j c m f + held_class j c m bc
  unfolding place mk_plan
  placed-place fps target force heavy others bc f =
      let cost = weight heavy + weight others - weight heavy in
      let g : Filling = record f {
        bin_buf = f.bin_buf ++ bc ∷ [];
        bin_stateful = f.bin_stateful || force;
        bin_methods = f.bin_methods + cost;
      } in
      ground (
        arith,
        placed-flush fps f,
        placed-push_plans (mk_plan fps (bc ∷ []) force ∷ []) (flush fps f),
        placed-flush fps g,
        held_classes-append f.bin_buf (bc ∷ []),
      )

  pub held-isolated_plans :
      (cfg : QueueConfig) (fps : Fingerprints) (g : TestClass) (ms : List GroupedMethod)
      → held j c m (isolated_plans cfg fps g ms) ≡ counted c m g.class ms
  unfolding mk_plan class_of
  held-isolated_plans cfg fps g [] = ground arith
  held-isolated_plans cfg fps g (x ∷ xs) = ground (arith, held-isolated_plans cfg fps g xs)

  pub held-chain_plans :
      (cfg : QueueConfig) (fps : Fingerprints) (g : TestClass) (force : Bool)
      (chs : List (List GroupedMethod))
      → held j c m (chain_plans cfg fps g force chs)
        ≡ (if g.class == c then count_chains m chs else 0)
  unfolding mk_plan class_of
  held-chain_plans cfg fps g force [] = ground arith
  held-chain_plans cfg fps g force (ch ∷ chs) =
      ground (arith, held-chain_plans cfg fps g force chs, count_names-names ch)

  -- Of the chunks from `index` on, the row is run by its own, if that is among them.
  held-chunks_from :
      (cfg : QueueConfig) (fps : Fingerprints) (g : TestClass) (force : Bool) (x : GroupedMethod)
      (total index left : ℕ)
      → left + index ≡ total
      → j % total < total
      → held j c m (chunk_plans_from cfg fps g force x total index left)
        ≡ (if leb index (j % total) then counted c m g.class (x ∷ []) else 0)
  unfolding chunk_plans_from mk_plan class_of
  held-chunks_from cfg fps g force x total index zero e h = ground arith
  held-chunks_from cfg fps g force x total index (suc left) e h =
      ground (arith, held-chunks_from cfg fps g force x total (index + 1) left (omega arith) h)

  -- The chunks of a method run each row once.
  pub held-chunks :
      (cfg : QueueConfig) (fps : Fingerprints) (g : TestClass) (force : Bool) (x : GroupedMethod)
      (total : ℕ)
      → 0 < total
      → held j c m (chunk_plans_from cfg fps g force x total 0 total) ≡ counted c m g.class (x ∷ [])
  held-chunks cfg fps g force x total h =
      let own : j % total < total = mod-lt j h in
      ground (arith, held-chunks_from cfg fps g force x total 0 total (omega arith) own)
