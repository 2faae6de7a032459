-- ===== src/Reduce/Term/Meaning/Chains.antt =====
-- crates/analyzer/src/reduce/term.rs: what a chain of additions or multiplications stands for while it is
-- flattened and folded.
use phpunit_rust.Prelude.{
  ◌≡◌, refl, sym, ap, ap₂, ◌∙◌, inl, inr, List, [], ◌∷◌, ◌++◌, Option, none, some, Bool-cases,
  Option-cases, subst, from_none, some_eq,
}
use phpunit_rust.Int.{ℤ, pos, checked, in_i64, +ℤ_comm, +ℤ_assoc, +ℤ_zero}
use phpunit_rust.Int.Product.{*ℤ_comm, *ℤ_assoc, *ℤ_one}
use phpunit_rust.Reduce.Term.{
  Op, add, mul, Term, int, bool, str, bin, obj, field, list, len, opaque, op_eq,
}
use phpunit_rust.Reduce.Term.Equal.{op_eq-eq}
use phpunit_rust.Reduce.Term.Simplify.{flatten, constant_of, split_operands}
use phpunit_rust.Reduce.Term.Simplify.Size.{constant_of-int, keep_operand-some}
use phpunit_rust.Reduce.Term.Meaning.{Givens, number, both, as_num, op_fn, den}

-- What the simplifier needs of an operator that it takes apart.
pub record Commutative (op : Op) (unit : ℤ) : Type 0 where
  pub comm : (a b : ℤ) → op_fn op a b ≡ op_fn op b a
  pub assoc : (a b c : ℤ) → op_fn op (op_fn op a b) c ≡ op_fn op a (op_fn op b c)
  pub unit_right : (a : ℤ) → op_fn op a unit ≡ a

abbrev pub add_commutative : Commutative add (pos 0)
add_commutative = record { comm = +ℤ_comm; assoc = +ℤ_assoc; unit_right = +ℤ_zero }

abbrev pub mul_commutative : Commutative mul (pos 1)
mul_commutative = record { comm = *ℤ_comm; assoc = *ℤ_assoc; unit_right = *ℤ_one }

-- The value of a list of operands.
unfoldable pub total : Givens → Op → ℤ → List Term → Option ℤ
total ρ op unit [] = some unit
total ρ op unit (t ∷ ts) = both (op_fn op) (number (den ρ t)) (total ρ op unit ts)

-- What both operands being numbers comes to.
pub both-some :
    (f : ℤ → ℤ → ℤ) (a b : Option ℤ) (x : ℤ)
    → both f a b ≡ some x
    → (y : ℤ) × (z : ℤ) × (a ≡ some y) × (b ≡ some z) × (x ≡ f y z)
both-some f (some a) (some b) x h = (a, b, refl, refl, cc)
both-some f none b x h = cc
both-some f (some a) none x h = cc

pub number-as_num : (o : Option ℤ) → number (as_num o) ≡ o
number-as_num none = refl
number-as_num (some i) = refl

checked-some : (a v : ℤ) → checked a ≡ some v → v ≡ a
checked-some a v h = elim (Bool-cases (in_i64 a)) [
  | inl inside ↦ sym (some_eq (rw inside at h))
  | inr outside ↦ from_none (rw outside at h)
]

module _ (ρ : Givens) (op : Op) (unit : ℤ) (laws : Commutative op unit) where
  pub unit_left : (a : ℤ) → op_fn op unit a ≡ a
  unit_left a = laws.comm unit a ∙ laws.unit_right a

  pub swap : (a b c : ℤ) → op_fn op a (op_fn op b c) ≡ op_fn op b (op_fn op a c)
  swap a b c = sym (laws.assoc a b c) ∙ ap (λ x. op_fn op x c) (laws.comm a b) ∙ laws.assoc b a c

  pub total-append :
      (ts us : List Term) (x y : ℤ)
      → total ρ op unit ts ≡ some x
      → total ρ op unit us ≡ some y
      → total ρ op unit (ts ++ us) ≡ some (op_fn op x y)
  unfolding total
  total-append [] us x y hx hy = hy ∙ ap some (sym (rw (sym (some_eq hx)) (unit_left y)))
  total-append (t ∷ ts) us x y hx hy =
      let (a, b, ha, hb, e) = both-some (op_fn op) (number (den ρ t)) (total ρ op unit ts) x hx in
      ap₂ (both (op_fn op)) ha (total-append ts us b y hb hy)
      ∙ ap some (sym (laws.assoc a b y) ∙ ap (λ u. op_fn op u y) (sym e))

  pub total_one : (t : Term) (x : ℤ) → number (den ρ t) ≡ some x → total ρ op unit (t ∷ []) ≡ some x
  unfolding total
  total_one t x h = rw h (ap some (laws.unit_right x))

  pub total-flatten :
      (t : Term) (x : ℤ) → number (den ρ t) ≡ some x → total ρ op unit (flatten op t) ≡ some x
  unfolding flatten den
  total-flatten (bin o a b) x h = elim (Bool-cases (op_eq o op)) [
    | inl same ↦
        let (y, z, hy, hz, e) =
          both-some (op_fn o) (number (den ρ a)) (number (den ρ b)) x
            (sym (number-as_num (both (op_fn o) (number (den ρ a)) (number (den ρ b)))) ∙ h) in
        rw same (
          total-append (flatten op a) (flatten op b) y z (total-flatten a y hy)
            (total-flatten b z hz)
          ∙ ap some (ap (λ p. op_fn p y z) (sym (op_eq-eq o op same)) ∙ sym e))
    | inr other ↦ rw other (total_one (bin o a b) x h)
  ]
  total-flatten (Term.sym s) x h = total_one (Term.sym s) x h
  total-flatten (int i) x h = total_one (int i) x h
  total-flatten (bool b) x h = total_one (bool b) x h
  total-flatten (str s) x h = total_one (str s) x h
  total-flatten (obj c fs) x h = total_one (obj c fs) x h
  total-flatten (field t n) x h = total_one (field t n) x h
  total-flatten (list ts) x h = total_one (list ts) x h
  total-flatten (len t) x h = total_one (len t) x h
  total-flatten opaque x h = total_one opaque x h

  -- The constant and the other operands have the value of all of them.
  unfoldable pub SplitValue : ℤ → ℤ → ℤ × List Term → Type 0
  SplitValue acc x r = (y : ℤ) × (total ρ op unit r.1 ≡ some y) × (op_fn op acc x ≡ op_fn op r.0 y)

  unfoldable pub checked_op : ℤ → ℤ → Option ℤ
  checked_op a b = checked (op_fn op a b)

  pub split_operands-value :
      (acc : ℤ) (ts : List Term) (r : ℤ × List Term) (x : ℤ)
      → split_operands checked_op acc ts ≡ some r
      → total ρ op unit ts ≡ some x
      → SplitValue acc x r
  unfolding split_operands total SplitValue checked_op den
  split_operands-value acc [] r x h hx =
      let e = some_eq h in
      (unit, rw (sym e) refl, ap₂ (op_fn op) (ap (λ q. q.0) e) (sym (some_eq hx)))
  split_operands-value acc (t ∷ ts) r x h hx =
      let (a, b, ha, hb, e) = both-some (op_fn op) (number (den ρ t)) (total ρ op unit ts) x hx in
      elim (Option-cases (constant_of t)) [
        | inl symbolic ↦
            let (q, eq, er) =
              keep_operand-some t (split_operands checked_op acc ts) r
                (rw (split_operands, symbolic) at h) in
            let (y, hy, ey) = split_operands-value acc ts q b eq hb in
            subst (SplitValue acc x) (sym er) (
              op_fn op a y,
              ap₂ (both (op_fn op)) ha hy,
              ap (op_fn op acc) e ∙ swap acc a b ∙ ap (op_fn op a) ey ∙ swap a q.0 y,
            )
        | inr (n, concrete) ↦ elim (Option-cases (checked_op acc n)) [
          | inl over ↦ from_none (rw (split_operands, concrete, over) at h)
          | inr (v, ev) ↦
              let (y, hy, ey) =
                split_operands-value v ts r b (rw (split_operands, concrete, ev) at h) hb in
              let same : n ≡ a =
                some_eq (ap (λ u. number (den ρ u)) (sym (constant_of-int t n concrete)) ∙ ha) in
              let folded : op_fn op acc a ≡ v =
                ap (op_fn op acc) (sym same) ∙ sym (checked-some (op_fn op acc n) v ev) in
              (
                y,
                hy,
                ap (op_fn op acc) e ∙ sym (laws.assoc acc a b) ∙ ap (λ u. op_fn op u b) folded ∙ ey,
              )
        ]
      ]
