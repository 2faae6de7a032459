-- ===== src/Runner/Chains/Linked.antt =====
-- crates/runner/src/runner.rs: the roots of a test and of what it depends on after the loops of
-- `dependency_chains`.
use phpunit_rust.Prelude.{
  ℕ, zero, suc, ◌+◌, ◌≤◌, ◌<◌, String, Bool, true, ◌≡◌, refl, sym, ap, ◌∙◌, inl, inr, Option, none,
  some, List, [], ◌∷◌, ◌==◌, length, any, get_elem?, arith, subst, Bool-cases, Option-cases, eq_iff,
}
use phpunit_rust.Discovery.{GroupedMethod}
use phpunit_rust.Runner.Chains.{link, link_deps, link_methods, name_to_idx, edges}
use phpunit_rust.Runner.Chains.Forest.{Forest}
use phpunit_rust.Runner.Chains.Merged.{Merged, union-Merged, low-Forest}

abbrev pub lists : String → List String → Bool
lists dep deps = any (λ t. t == dep) deps

name_to_idx-lt :
    (name : String) (i : ℕ) (ms : List GroupedMethod) (j : ℕ)
    → name_to_idx name i ms ≡ some j
    → j < i + length ms
unfolding name_to_idx
name_to_idx-lt name i [] j h = cc
name_to_idx-lt name i (m ∷ ms) j h = elim (Option-cases (name_to_idx name (i + 1) ms)) [
  | inl e ↦ ground arith
  | inr (k, e) ↦
      let same : k ≡ j = ground arith in omega (arith, name_to_idx-lt name (i + 1) ms k e, same)
]

-- The edges of a list of methods are those of the first and those of the others.
edge-cons :
    (R : ℕ → ℕ → Type 0) (all : List GroupedMethod) (i : ℕ) (x : GroupedMethod)
    (xs : List GroupedMethod)
    → ((dep : String) (j : ℕ)
        → lists dep x.depends_on ≡ true
        → name_to_idx dep 0 all ≡ some j
        → R i j)
    → ((k : ℕ) (y : GroupedMethod) (dep : String) (j : ℕ)
        → get_elem? xs k ≡ some y
        → lists dep y.depends_on ≡ true
        → name_to_idx dep 0 all ≡ some j
        → R (i + 1 + k) j)
    → (k : ℕ) (y : GroupedMethod) (dep : String) (j : ℕ) → get_elem? (x ∷ xs) k ≡ some y
    → lists dep y.depends_on ≡ true
    → name_to_idx dep 0 all ≡ some j
    → R (i + k) j
edge-cons R all i x xs own rest zero y dep j e l q =
    let same : y ≡ x = cc in
    subst (λ a. R a j) (omega arith)
      (own dep j (subst (λ (z : GroupedMethod). lists dep z.depends_on ≡ true) same l) q)
edge-cons R all i x xs own rest (suc k) y dep j e l q =
    subst (λ a. R a j) (omega arith) (rest k y dep j e l q)

module _ (n fuel : ℕ) (all : List GroupedMethod) (count : length all ≡ n) where
  link-Merged :
      (i : ℕ) (o : Option ℕ) (r d : ℕ → ℕ) (b : ℕ) (ps : List ℕ)
      → Forest n ps r d b
      → i < n
      → ((j : ℕ) → o ≡ some j → j < n)
      → b < fuel
      → (m : Merged n r (link fuel i o ps) (suc b)) × ((j : ℕ) → o ≡ some j → m.roots i ≡ m.roots j)
  unfolding link
  link-Merged i none r d b ps f h bound enough = (
    record {
      roots = r;
      depth = d;
      forest = low-Forest n r d b (suc b) ps (omega arith) f;
      keeps = λ x y e. e;
    },
    λ j e. absurd (cc),
  )
  link-Merged i (some k) r d b ps f h bound enough =
      let (m, e) = union-Merged n fuel i k r d b ps f h (bound k refl) enough in
      (m, λ j q. e ∙ ap m.roots (cc))

  link_deps-Merged :
      (i : ℕ) (deps : List String) (r d : ℕ → ℕ) (b c : ℕ) (ps : List ℕ)
      → Forest n ps r d b
      → i < n
      → b + length deps ≤ c
      → c ≤ fuel
      → (m : Merged n r (link_deps fuel all i deps ps) c) × ((dep : String) (j : ℕ)
          → lists dep deps ≡ true
          → name_to_idx dep 0 all ≡ some j
          → m.roots i ≡ m.roots j)
  unfolding link_deps
  link_deps-Merged i [] r d b c ps f h low enough = (
    record {
      roots = r;
      depth = d;
      forest = low-Forest n r d b c ps (omega arith) f;
      keeps = λ x y e. e;
    },
    λ dep j e q. absurd (cc),
  )
  link_deps-Merged i (t ∷ ts) r d b c ps f h low enough =
      let o = name_to_idx t 0 all in
      let (m, own) =
        link-Merged i o r d b ps f h (λ j e. omega (arith, count, name_to_idx-lt t 0 all j e))
          (omega arith) in
      let (m', rest) =
        link_deps-Merged i ts m.roots m.depth (suc b) c (link fuel i o ps) m.forest h (omega arith)
          enough in
      (
        record {
          roots = m'.roots;
          depth = m'.depth;
          forest = m'.forest;
          keeps = λ x y e. m'.keeps x y (m.keeps x y e);
        },
        λ dep j e q. elim (Bool-cases (t == dep)) [
          | inl same ↦
              m'.keeps i j
                (own j (subst (λ s. name_to_idx s 0 all ≡ some j) (sym ((eq_iff t dep).0 same)) q))
          | inr other ↦ rest dep j (rw other at e) q
        ],
      )

  pub link_methods-Merged :
      (i : ℕ) (ms : List GroupedMethod) (r d : ℕ → ℕ) (b c : ℕ) (ps : List ℕ)
      → Forest n ps r d b
      → i + length ms ≤ n
      → b + edges ms ≤ c
      → c ≤ fuel
      → (m : Merged n r (link_methods fuel all i ms ps) c) × ((k : ℕ) (x : GroupedMethod)
            (dep : String) (j : ℕ)
          → get_elem? ms k ≡ some x
          → lists dep x.depends_on ≡ true
          → name_to_idx dep 0 all ≡ some j
          → m.roots (i + k) ≡ m.roots j)
  unfolding link_methods
  link_methods-Merged i [] r d b c ps f h low enough = (
    record {
      roots = r;
      depth = d;
      forest = low-Forest n r d b c ps (omega arith) f;
      keeps = λ x y e. e;
    },
    λ k x dep j e. absurd (cc),
  )
  link_methods-Merged i (x ∷ xs) r d b c ps f h low enough =
      let b' = b + length x.depends_on in
      let (m, own) =
        link_deps-Merged i x.depends_on r d b b' ps f (omega arith) (omega arith) (omega arith) in
      let (m', rest) =
        link_methods-Merged (i + 1) xs m.roots m.depth b' c (link_deps fuel all i x.depends_on ps)
          m.forest (omega arith) (omega arith) enough in
      (
        record {
          roots = m'.roots;
          depth = m'.depth;
          forest = m'.forest;
          keeps = λ y z e. m'.keeps y z (m.keeps y z e);
        },
        edge-cons (λ a z. m'.roots a ≡ m'.roots z) all i x xs
            (λ dep j l q. m'.keeps i j (own dep j l q)) rest,
      )
