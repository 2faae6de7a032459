-- ===== src/Reduce/Term/Meaning/Closed.antt =====
-- crates/analyzer/src/reduce/term.rs: the free symbols of a chain that is built again.
use phpunit_rust.Prelude.{
  ◌||◌, ◌≡◌, refl, inl, inr, ◌⊎◌, [], ◌∷◌, Option, none, some, Bool-cases, Option-cases,
}
use phpunit_rust.Int.{ℤ, eq_ℤ}
use phpunit_rust.Reduce.Term.{Op, Term, int, opaque}
use phpunit_rust.Reduce.Term.Simplify.{
  flatten, split_operands, sort, chain, rebuild, with_constant, reduce_commutative,
}
use phpunit_rust.Reduce.Term.Simplify.Marked.{mark-reduce_commutative}
use phpunit_rust.Reduce.Term.Decide.{contains_sym}

-- The free symbols of a chain are those of its sides.
pub contains_sym-reduce_commutative :
    (op : Op) (ra rb : Term) (unit : ℤ) (fold : ℤ → ℤ → Option ℤ)
    → (reduce_commutative op ra rb unit fold ≡ opaque)
      ⊎ (contains_sym (reduce_commutative op ra rb unit fold)
          ≡ (contains_sym ra || contains_sym rb))
contains_sym-reduce_commutative = mark-reduce_commutative contains_sym (λ op a b. refl) (λ i. refl)

folded_pair :
    (op : Op) (unit : ℤ) (fold : ℤ → ℤ → Option ℤ) (b : ℤ) (o : Option ℤ)
    → (with_constant op unit (elim o [ none ↦ none | some v ↦ split_operands fold v (int b ∷ []) ])
        ≡ opaque)
      ⊎ ((v : ℤ) × (with_constant op unit
              (elim o [ none ↦ none | some v ↦ split_operands fold v (int b ∷ []) ])
            ≡ int v))
unfolding split_operands sort rebuild chain
folded_pair op unit fold b none = inl refl
folded_pair op unit fold b (some v) = elim (Option-cases (fold v b)) [
  | inl over ↦ inl (rw over refl)
  | inr (w, e) ↦ elim (Bool-cases (eq_ℤ w unit)) [
    | inl same ↦ inr (w, rw e (rw same refl))
    | inr other ↦ inr (w, rw e (rw other refl))
  ]
]

-- A chain of two constants is a constant, or overflows.
pub reduce_commutative-constants :
    (op : Op) (a b unit : ℤ) (fold : ℤ → ℤ → Option ℤ)
    → (reduce_commutative op (int a) (int b) unit fold ≡ opaque)
      ⊎ ((v : ℤ) × (reduce_commutative op (int a) (int b) unit fold ≡ int v))
unfolding reduce_commutative flatten split_operands
reduce_commutative-constants op a b unit fold = folded_pair op unit fold b (fold unit a)
