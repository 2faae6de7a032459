-- ===== src/Reduce/Term/Meaning/Rebuilt.antt =====
-- crates/analyzer/src/reduce/term.rs: what a chain of additions or multiplications stands for while it is
-- sorted and built again.
use phpunit_rust.Prelude.{
  false, not, ◌||◌, ◌≡◌, refl, sym, ap, ap₂, ◌∙◌, inl, inr, ◌⊎◌, List, [], ◌∷◌, ◌++◌, Option, none,
  some, arith, Bool-cases, some_eq, from_false, or_none,
}
use phpunit_rust.Int.{ℤ, checked, eq_ℤ, eq_of_parts}
use phpunit_rust.Reduce.Term.{Op, Term, int, bin, opaque, term_cmp}
use phpunit_rust.Reduce.Term.Simplify.{
  flatten, split_operands, is_less, insert_term, sort, chain, is_nil, rebuild, with_constant,
  reduce_commutative,
}
use phpunit_rust.Reduce.Term.Simplify.Marked.{not_nil}
use phpunit_rust.Reduce.Term.Meaning.{Givens, number, both, op_fn, den}
use phpunit_rust.Reduce.Term.Meaning.Chains.{
  Commutative, total, both-some, number-as_num, unit_left, swap, total-append, total_one,
  total-flatten, SplitValue, checked_op, split_operands-value,
}

-- The operator applied to two numbers that there may be.
both-swap :
    (f : ℤ → ℤ → ℤ) (a b c : Option ℤ)
    → ((x y z : ℤ) → f x (f y z) ≡ f y (f x z))
    → both f a (both f b c) ≡ both f b (both f a c)
both-swap f (some x) (some y) (some z) h = ap some (h x y z)
both-swap f (some x) (some y) none h = refl
both-swap f (some x) none c h = refl
both-swap f none (some y) c h = refl
both-swap f none none c h = refl

module _ (ρ : Givens) (op : Op) (unit : ℤ) (laws : Commutative op unit) where
  total-insert_term :
      (t : Term) (us : List Term)
      → total ρ op unit (insert_term t us) ≡ both (op_fn op) (number (den ρ t)) (total ρ op unit us)
  unfolding total insert_term
  total-insert_term t [] = refl
  total-insert_term t (u ∷ us) = elim (Bool-cases (is_less (term_cmp t u))) [
    | inl less ↦ rw less refl
    | inr more ↦ rw more (
        ap (both (op_fn op) (number (den ρ u))) (total-insert_term t us)
        ∙ both-swap (op_fn op) (number (den ρ u)) (number (den ρ t)) (total ρ op unit us)
            (swap ρ op unit laws))
  ]

  total-sort : (ts : List Term) → total ρ op unit (sort ts) ≡ total ρ op unit ts
  unfolding total sort
  total-sort [] = refl
  total-sort (t ∷ ts) =
      total-insert_term t (sort ts) ∙ ap (both (op_fn op) (number (den ρ t))) (total-sort ts)

  number-chain :
      (acc : Term) (ts : List Term) (a x : ℤ)
      → number (den ρ acc) ≡ some a
      → total ρ op unit ts ≡ some x
      → number (den ρ (chain op acc ts)) ≡ some (op_fn op a x)
  unfolding total chain den
  number-chain acc [] a x ha hx =
      ha ∙ ap some (sym (laws.unit_right a) ∙ ap (op_fn op a) (some_eq hx))
  number-chain acc (t ∷ ts) a x ha hx =
      let (b, c, hb, hc, e) = both-some (op_fn op) (number (den ρ t)) (total ρ op unit ts) x hx in
      number-chain (bin op acc t) ts (op_fn op a b) c
        (number-as_num (both (op_fn op) (number (den ρ acc)) (number (den ρ t)))
          ∙ ap₂ (both (op_fn op)) ha hb)
        hc
      ∙ ap some (laws.assoc a b c ∙ ap (op_fn op a) (sym e))

  number-rebuild :
      (ts : List Term) (x : ℤ)
      → is_nil ts ≡ false
      → total ρ op unit ts ≡ some x
      → number (den ρ (rebuild op ts)) ≡ some x
  unfolding total rebuild
  number-rebuild [] x h hx = from_false (sym h)
  number-rebuild (t ∷ ts) x h hx =
      let (a, b, ha, hb, e) = both-some (op_fn op) (number (den ρ t)) (total ρ op unit ts) x hx in
      number-chain t ts a b ha hb ∙ ap some (sym e)

  with_constant-value :
      (x : ℤ) (r : ℤ × List Term)
      → SplitValue ρ op unit laws unit x r
      → number (den ρ (with_constant op unit (some r))) ≡ some x
  unfolding SplitValue total den
  with_constant-value x r (y, hy, e) =
      let sorted = sort r.1 in
      let value : total ρ op unit sorted ≡ some y = total-sort r.1 ∙ hy in
      let result : op_fn op r.0 y ≡ x = sym e ∙ unit_left ρ op unit laws x in
      elim (Bool-cases (not (eq_ℤ r.0 unit) || is_nil sorted)) [
        | inl written ↦ rw written (
            number-rebuild (sorted ++ int r.0 ∷ []) x (not_nil sorted (int r.0)) (
              total-append ρ op unit laws sorted (int r.0 ∷ []) y r.0 value
                (total_one ρ op unit laws (int r.0) r.0 refl)
              ∙ ap some (laws.comm y r.0 ∙ result)))
        | inr left_out ↦
            let (identity, more) = or_none (not (eq_ℤ r.0 unit)) (is_nil sorted) left_out in
            let same : r.0 ≡ unit = eq_of_parts r.0 unit (ground arith) in
            rw left_out (
              number-rebuild sorted x more (
                value
                ∙ ap some (
                    sym (unit_left ρ op unit laws y) ∙ ap (λ u. op_fn op u y) (sym same) ∙ result)))
      ]

  with_constant-cases :
      (x : ℤ) (o : Option (ℤ × List Term))
      → ((r : ℤ × List Term) → o ≡ some r → SplitValue ρ op unit laws unit x r)
      → (with_constant op unit o ≡ opaque) ⊎ (number (den ρ (with_constant op unit o)) ≡ some x)
  with_constant-cases x none value = inl refl
  with_constant-cases x (some r) value = inr (with_constant-value x r (value r refl))

  -- A sum or a product of terms that stand for numbers keeps its value, or overflows.
  pub reduce_commutative-value :
      (ra rb : Term) (a b : ℤ)
      → number (den ρ ra) ≡ some a
      → number (den ρ rb) ≡ some b
      → (reduce_commutative op ra rb unit (λ x y. checked (op_fn op x y)) ≡ opaque)
        ⊎ (number (den ρ (reduce_commutative op ra rb unit (λ x y. checked (op_fn op x y))))
            ≡ some (op_fn op a b))
  unfolding reduce_commutative checked_op
  reduce_commutative-value ra rb a b ha hb =
      let operands = flatten op ra ++ flatten op rb in
      let value =
        total-append ρ op unit laws (flatten op ra) (flatten op rb) a b
          (total-flatten ρ op unit laws ra a ha) (total-flatten ρ op unit laws rb b hb) in
      with_constant-cases (op_fn op a b) (split_operands (checked_op ρ op unit laws) unit operands)
        (λ r e. split_operands-value ρ op unit laws unit operands r (op_fn op a b) e value)
