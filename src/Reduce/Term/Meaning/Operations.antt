-- ===== src/Reduce/Term/Meaning/Operations.antt =====
-- crates/analyzer/src/reduce/term.rs: what an operation and an object of reduced terms stand for.
use phpunit_rust.Prelude.{
  false, ◌||◌, ◌≡◌, refl, sym, ap, ap₂, ◌∙◌, inl, inr, ◌⊎◌, Option, none, some, Bool-cases,
  Option-cases, from_none, or_none,
}
use phpunit_rust.Int.{ℤ, pos, in_i64, checked, ◌-ℤ◌}
use phpunit_rust.Reduce.Term.{Op, add, mul, sub, Term, int, bin, opaque}
use phpunit_rust.Reduce.Term.Simplify.{
  int_or_opaque, constant_of, reduce_sub, reduce_commutative, reduce_op,
}
use phpunit_rust.Reduce.Term.Simplify.Size.{constant_of-int}
use phpunit_rust.Reduce.Term.Meaning.{Givens, num, op_fn, number, both, as_num, den}
use phpunit_rust.Reduce.Term.Meaning.Chains.{Commutative, add_commutative, mul_commutative}
use phpunit_rust.Reduce.Term.Meaning.Rebuilt.{reduce_commutative-value}
use phpunit_rust.Reduce.Term.Meaning.Closed.{
  contains_sym-reduce_commutative, reduce_commutative-constants,
}
use phpunit_rust.Reduce.Term.Meaning.Inverse.{number-some}
use phpunit_rust.Reduce.Term.Meaning.Accesses.{Stands, OpaqueOr}
use phpunit_rust.Reduce.Term.Decide.{contains_sym}

int_of_num : (ρ : Givens) (i j : ℤ) → den ρ (int i) ≡ some (num j) → i ≡ j
unfolding den
int_of_num ρ i j h = cc

-- A chain without free symbols is built of two constants.
closed_chain :
    (op : Op) (ra rb : Term) (a b unit : ℤ) (fold : ℤ → ℤ → Option ℤ)
    → (contains_sym ra ≡ false → ra ≡ int a)
    → (contains_sym rb ≡ false → rb ≡ int b)
    → (contains_sym ra || contains_sym rb) ≡ false
    → (reduce_commutative op ra rb unit fold ≡ opaque)
      ⊎ ((v : ℤ) × (reduce_commutative op ra rb unit fold ≡ int v))
closed_chain op ra rb a b unit fold ha hb h =
    let (ca, cb) = or_none (contains_sym ra) (contains_sym rb) h in
    rw (ha ca, hb cb) (reduce_commutative-constants op a b unit fold)

constant_value :
    (ρ : Givens) (t : Term) (x : ℤ)
    → number (den ρ t) ≡ some x
    → (t ≡ opaque) ⊎ ((v : ℤ) × (t ≡ int v))
    → t ≡ int x
unfolding den
constant_value ρ t x h (inl over) = from_none (ap (λ u. number (den ρ u)) (sym over) ∙ h)
constant_value ρ t x h (inr (v, e)) =
    let same : some v ≡ some x = ap (λ u. number (den ρ u)) (sym e) ∙ h in e ∙ cc

commutative_kept :
    (ρ : Givens) (op : Op) (unit : ℤ) (laws : Commutative op unit) (ra rb : Term) (a b : ℤ)
    → Stands ρ ra (num a)
    → Stands ρ rb (num b)
    → OpaqueOr ρ
        (reduce_commutative op ra rb unit (λ x y. checked (op_fn op x y)))
        (num (op_fn op a b))
commutative_kept ρ op unit laws ra rb a b (da, qa) (db, qb) =
    let fold : ℤ → ℤ → Option ℤ = λ x y. checked (op_fn op x y) in
    let result = reduce_commutative op ra rb unit fold in
    elim (reduce_commutative-value ρ op unit laws ra rb a b (ap number da) (ap number db)) [
      | inl over ↦ inl over
      | inr value ↦ elim (contains_sym-reduce_commutative op ra rb unit fold) [
        | inl over ↦ inl over
        | inr symbols ↦ inr (
          number-some (den ρ result) (op_fn op a b) value,
          λ h.
              constant_value ρ result (op_fn op a b) value
                (closed_chain op ra rb a b unit fold qa qb (sym symbols ∙ h)),
        )
      ]
    ]

checked_kept : (ρ : Givens) (i : ℤ) → OpaqueOr ρ (int_or_opaque (checked i)) (num i)
unfolding den
checked_kept ρ i = elim (Bool-cases (in_i64 i)) [
  | inl inside ↦ rw inside (inr (refl, λ h. refl))
  | inr outside ↦ rw outside (inl refl)
]

constant_of-none : (i : ℤ) (t : Term) → t ≡ int i → constant_of t ≡ none → ⊥
constant_of-none i t e h = from_none (sym h ∙ ap constant_of e)

-- A difference that is not of two constants has a free symbol.
stuck_sub :
    (ρ : Givens) (ra rb : Term) (a b : ℤ)
    → Stands ρ ra (num a)
    → Stands ρ rb (num b)
    → (constant_of ra ≡ none) ⊎ (constant_of rb ≡ none)
    → OpaqueOr ρ (bin sub ra rb) (num (a -ℤ b))
unfolding den
stuck_sub ρ ra rb a b (da, qa) (db, qb) symbolic = inr (
  ap₂ (λ x y. as_num (both (op_fn sub) (number x) (number y))) da db,
  λ h.
      let (ca, cb) = or_none (contains_sym ra) (contains_sym rb) h in
      elim symbolic [
        | inl none_a ↦ absurd (constant_of-none a ra (qa ca) none_a)
        | inr none_b ↦ absurd (constant_of-none b rb (qb cb) none_b)
      ],
)

constant_is :
    (ρ : Givens) (t : Term) (i a : ℤ) → constant_of t ≡ some i → den ρ t ≡ some (num a) → i ≡ a
constant_is ρ t i a h d = int_of_num ρ i a (ap (den ρ) (sym (constant_of-int t i h)) ∙ d)

sub_kept :
    (ρ : Givens) (ra rb : Term) (a b : ℤ)
    → Stands ρ ra (num a)
    → Stands ρ rb (num b)
    → OpaqueOr ρ (reduce_sub ra rb) (num (a -ℤ b))
unfolding reduce_sub
sub_kept ρ ra rb a b sa sb = elim (Option-cases (constant_of ra)) [
  | inl none_a ↦ rw none_a (stuck_sub ρ ra rb a b sa sb (inl none_a))
  | inr (i, ha) ↦ elim (Option-cases (constant_of rb)) [
    | inl none_b ↦ rw (ha, none_b) (stuck_sub ρ ra rb a b sa sb (inr none_b))
    | inr (j, hb) ↦
        let ea = constant_is ρ ra i a ha sa.0 in
        let eb = constant_is ρ rb j b hb sb.0 in rw (ha, hb, ea, eb) (checked_kept ρ (a -ℤ b))
  ]
]

pub op_kept :
    (ρ : Givens) (op : Op) (ra rb : Term) (a b : ℤ)
    → Stands ρ ra (num a)
    → Stands ρ rb (num b)
    → OpaqueOr ρ (reduce_op op ra rb) (num (op_fn op a b))
unfolding reduce_op
op_kept ρ add ra rb a b sa sb = commutative_kept ρ add (pos 0) add_commutative ra rb a b sa sb
op_kept ρ mul ra rb a b sa sb = commutative_kept ρ mul (pos 1) mul_commutative ra rb a b sa sb
op_kept ρ sub ra rb a b sa sb = sub_kept ρ ra rb a b sa sb
