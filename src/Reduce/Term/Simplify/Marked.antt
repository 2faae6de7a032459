-- ===== src/Reduce/Term/Simplify/Marked.antt =====
-- crates/analyzer/src/reduce/term.rs: the marks of a chain that is built again, a free symbol or an opaque
-- term.
use phpunit_rust.Prelude.{
  Bool, true, false, not, ◌||◌, ◌≡◌, refl, sym, ap, ap₂, ◌∙◌, inl, inr, ◌⊎◌, List, [], ◌∷◌, ◌++◌,
  Option, none, some, Bool-cases, Option-cases, from_none, from_false, or_none,
}
use phpunit_rust.Int.{ℤ, eq_ℤ}
use phpunit_rust.Reduce.Term.{
  Op, Term, int, bool, str, bin, obj, field, list, len, opaque, op_eq, term_cmp,
}
use phpunit_rust.Reduce.Term.Simplify.{
  flatten, constant_of, split_operands, is_less, insert_term, sort, chain, is_nil, rebuild,
  with_constant, reduce_commutative,
}
use phpunit_rust.Reduce.Term.Simplify.Size.{constant_of-int, keep_operand-some}

or_assoc : (a b c : Bool) → ((a || b) || c) ≡ (a || (b || c))
or_assoc true b c = refl
or_assoc false b c = refl

or_swap : (a b c : Bool) → (a || (b || c)) ≡ (b || (a || c))
or_swap true true c = refl
or_swap true false c = refl
or_swap false b c = refl

or_false : (a : Bool) → (a || false) ≡ a
or_false true = refl
or_false false = refl

pair_second : (acc : ℤ) (ts : List Term) (r : ℤ × List Term) → some (acc, ts) ≡ some r → ts ≡ r.1
pair_second acc ts r h = let e : (acc, ts) ≡ r = cc in ap (λ p. p.1) e

pub not_nil : (ts : List Term) (t : Term) → is_nil (ts ++ t ∷ []) ≡ false
not_nil [] t = refl
not_nil (u ∷ ts) t = refl

-- A mark of terms that an operation has where a side has it, and that no integer has.
module _ (p : Term → Bool) (p_bin : (op : Op) (a b : Term) → p (bin op a b) ≡ (p a || p b))
    (p_int : (i : ℤ) → p (int i) ≡ false) where
  -- Whether an operand has the mark.
  any_marked : List Term → Bool
  any_marked [] = false
  any_marked (t ∷ ts) = p t || any_marked ts

  any_marked-append : (ts us : List Term) → any_marked (ts ++ us) ≡ (any_marked ts || any_marked us)
  unfolding any_marked
  any_marked-append [] us = refl
  any_marked-append (t ∷ ts) us =
      ap (λ b. p t || b) (any_marked-append ts us)
      ∙ sym (or_assoc (p t) (any_marked ts) (any_marked us))

  any_marked-flatten : (op : Op) (t : Term) → any_marked (flatten op t) ≡ p t
  unfolding any_marked flatten
  any_marked-flatten op (bin o a b) = elim (Bool-cases (op_eq o op)) [
    | inl same ↦ rw same (
        any_marked-append (flatten op a) (flatten op b)
        ∙ ap₂ ◌||◌ (any_marked-flatten op a) (any_marked-flatten op b)
        ∙ sym (p_bin o a b))
    | inr other ↦ rw other (or_false (p (bin o a b)))
  ]
  any_marked-flatten op (Term.sym x) = or_false (p (Term.sym x))
  any_marked-flatten op (int i) = or_false (p (int i))
  any_marked-flatten op (bool b) = or_false (p (bool b))
  any_marked-flatten op (str s) = or_false (p (str s))
  any_marked-flatten op (obj c fs) = or_false (p (obj c fs))
  any_marked-flatten op (field t n) = or_false (p (field t n))
  any_marked-flatten op (list ts) = or_false (p (list ts))
  any_marked-flatten op (len t) = or_false (p (len t))
  any_marked-flatten op opaque = or_false (p opaque)

  any_marked-split_operands :
      (fold : ℤ → ℤ → Option ℤ) (acc : ℤ) (ts : List Term) (r : ℤ × List Term)
      → split_operands fold acc ts ≡ some r
      → any_marked r.1 ≡ any_marked ts
  unfolding split_operands any_marked
  any_marked-split_operands fold acc [] r h = sym (ap any_marked (pair_second acc [] r h))
  any_marked-split_operands fold acc (t ∷ ts) r h = elim (Option-cases (constant_of t)) [
    | inl symbolic ↦
        let (q, e, er) =
          keep_operand-some t (split_operands fold acc ts) r (rw (split_operands, symbolic) at h) in
        ap (λ x. any_marked x.1) er ∙ ap (λ b. p t || b) (any_marked-split_operands fold acc ts q e)
    | inr (n, concrete) ↦ elim (Option-cases (fold acc n)) [
      | inl over ↦ from_none (rw (split_operands, concrete, over) at h)
      | inr (v, e) ↦
          any_marked-split_operands fold v ts r (rw (split_operands, concrete, e) at h)
          ∙ ap (λ b. b || any_marked ts) (sym (p_int n))
          ∙ ap (λ u. p u || any_marked ts) (sym (constant_of-int t n concrete))
    ]
  ]

  any_marked-insert_term :
      (t : Term) (us : List Term) → any_marked (insert_term t us) ≡ (p t || any_marked us)
  unfolding insert_term any_marked
  any_marked-insert_term t [] = refl
  any_marked-insert_term t (u ∷ us) = elim (Bool-cases (is_less (term_cmp t u))) [
    | inl less ↦ rw less refl
    | inr more ↦
        rw more
          (ap (λ b. p u || b) (any_marked-insert_term t us) ∙ or_swap (p u) (p t) (any_marked us))
  ]

  any_marked-sort : (ts : List Term) → any_marked (sort ts) ≡ any_marked ts
  unfolding sort any_marked
  any_marked-sort [] = refl
  any_marked-sort (t ∷ ts) =
      any_marked-insert_term t (sort ts) ∙ ap (λ b. p t || b) (any_marked-sort ts)

  mark-chain :
      (op : Op) (acc : Term) (ts : List Term) → p (chain op acc ts) ≡ (p acc || any_marked ts)
  unfolding chain any_marked
  mark-chain op acc [] = sym (or_false (p acc))
  mark-chain op acc (t ∷ ts) =
      mark-chain op (bin op acc t) ts
      ∙ ap (λ b. b || any_marked ts) (p_bin op acc t)
      ∙ or_assoc (p acc) (p t) (any_marked ts)

  mark-rebuild : (op : Op) (ts : List Term) → is_nil ts ≡ false → p (rebuild op ts) ≡ any_marked ts
  unfolding rebuild any_marked
  mark-rebuild op [] h = from_false (sym h)
  mark-rebuild op (t ∷ ts) h = mark-chain op t ts

  mark-with_constant :
      (op : Op) (unit : ℤ) (r : ℤ × List Term) → p (with_constant op unit (some r)) ≡ any_marked r.1
  unfolding any_marked
  mark-with_constant op unit r =
      let sorted = sort r.1 in
      elim (Bool-cases (not (eq_ℤ r.0 unit) || is_nil sorted)) [
        | inl written ↦ rw written (
            mark-rebuild op (sorted ++ int r.0 ∷ []) (not_nil sorted (int r.0))
            ∙ any_marked-append sorted (int r.0 ∷ [])
            ∙ ap (λ b. any_marked sorted || (b || false)) (p_int r.0)
            ∙ or_false (any_marked sorted)
            ∙ any_marked-sort r.1)
        | inr left_out ↦ rw left_out (
            mark-rebuild op sorted (or_none (not (eq_ℤ r.0 unit)) (is_nil sorted) left_out).1
            ∙ any_marked-sort r.1)
      ]

  reduced_sides :
      (op : Op) (unit : ℤ) (ra rb : Term) (o : Option (ℤ × List Term))
      → ((r : ℤ × List Term) → o ≡ some r → any_marked r.1 ≡ (p ra || p rb))
      → (with_constant op unit o ≡ opaque) ⊎ (p (with_constant op unit o) ≡ (p ra || p rb))
  reduced_sides op unit ra rb none h = inl refl
  reduced_sides op unit ra rb (some r) h = inr (mark-with_constant op unit r ∙ h r refl)

  -- A chain has the mark where one of its sides has it.
  pub mark-reduce_commutative :
      (op : Op) (ra rb : Term) (unit : ℤ) (fold : ℤ → ℤ → Option ℤ)
      → (reduce_commutative op ra rb unit fold ≡ opaque)
        ⊎ (p (reduce_commutative op ra rb unit fold) ≡ (p ra || p rb))
  unfolding reduce_commutative
  mark-reduce_commutative op ra rb unit fold =
      let operands = flatten op ra ++ flatten op rb in
      reduced_sides op unit ra rb (split_operands fold unit operands) (λ r e.
        any_marked-split_operands fold unit operands r e
        ∙ any_marked-append (flatten op ra) (flatten op rb)
        ∙ ap₂ ◌||◌ (any_marked-flatten op ra) (any_marked-flatten op rb))
