-- ===== src/Reduce/Term/Decide/Sound.antt =====
-- crates/analyzer/src/reduce/term.rs: the verdicts beside the values that the terms stand for.
use phpunit_rust.Prelude.{
  ℕ, ap₂, Bool, true, false, not, ◌&&◌, ◌||◌, ◌≡◌, ◌≢◌, refl, sym, ap, ◌∙◌, inl, inr, some,
  Bool-cases, from_false, some_eq, or_none, and_left, and_right,
}
use phpunit_rust.Reduce.Term.{
  Term, int, bool, str, bin, obj, field, list, len, opaque, Terms, no_terms, term, Decision,
  decided_true, decided_false, unknown, term_eq,
}
use phpunit_rust.Reduce.Term.Equal.{term_eq-eq, term_eq_self}
use phpunit_rust.Reduce.Term.Simplify.{reduce}
use phpunit_rust.Reduce.Term.Meaning.{
  Givens, Meant, num, truth, text, den, den_terms, quoted, as_num, both, op_fn, number, slot_of,
  as_array, length_of, cons_meant,
}
use phpunit_rust.Reduce.Term.Meaning.Kept.{reduce_keeps, reduce_closed}
use phpunit_rust.Reduce.Term.Decide.{
  contains_obj, any_obj, contains_sym, contains_opaque, is_concrete_scalar, is_numeric_str, differ,
  same_reduced, decide_same, eq_reduced, decide_eq,
}

-- What a verdict on identity says of the two values.
abbrev pub Justified : Decision → Meant → Meant → Type 0
Justified decided_true v w = v ≡ w
Justified decided_false v w = v ≢ w
Justified unknown v w = Unit {0}

-- Two values of one kind that are unequal under `==`: of two texts one is not numeric.
abbrev pub Unequal : Meant → Meant → Type 0
Unequal (num i) (num j) = i ≢ j
Unequal (truth b) (truth c) = b ≢ c
Unequal (text s) (text t) = (s ≢ t) × ((is_numeric_str s && is_numeric_str t) ≡ false)
Unequal _ _ = ⊥

-- What a verdict on equality says of the two values.
abbrev pub JustifiedEq : Decision → Meant → Meant → Type 0
JustifiedEq decided_true v w = v ≡ w
JustifiedEq decided_false v w = Unequal v w
JustifiedEq unknown v w = Unit {0}

-- The objects that a term constructs are those of the handle.
abbrev pub constructing : ℕ → Givens → Givens
constructing h ρ = record ρ { own_handle = h }

mutual
  unfolding den

  den-constructing :
      (ρ : Givens) (h k : ℕ) (t : Term)
      → contains_obj t ≡ false
      → den (constructing h ρ) t ≡ den (constructing k ρ) t
  den-constructing ρ h k (bin op a b) e =
      let (ea, eb) = or_none (contains_obj a) (contains_obj b) e in
      ap₂ (λ x y. as_num (both (op_fn op) (number x) (number y))) (den-constructing ρ h k a ea)
        (den-constructing ρ h k b eb)
  den-constructing ρ h k (obj c fs) e = from_false (sym e)
  den-constructing ρ h k (field t n) e = ap (slot_of n) (den-constructing ρ h k t e)
  den-constructing ρ h k (list ts) e = ap as_array (den_terms-constructing ρ h k ts e)
  den-constructing ρ h k (len t) e = ap length_of (den-constructing ρ h k t e)
  den-constructing ρ h k (Term.sym x) e = refl
  den-constructing ρ h k (int i) e = refl
  den-constructing ρ h k (bool b) e = refl
  den-constructing ρ h k (str s) e = refl
  den-constructing ρ h k opaque e = refl

  den_terms-constructing :
      (ρ : Givens) (h k : ℕ) (ts : Terms)
      → any_obj ts ≡ false
      → den_terms (constructing h ρ) ts ≡ den_terms (constructing k ρ) ts
  den_terms-constructing ρ h k no_terms e = refl
  den_terms-constructing ρ h k (term t ts) e =
      let (et, es) = or_none (contains_obj t) (any_obj ts) e in
      ap₂ cons_meant (den-constructing ρ h k t et) (den_terms-constructing ρ h k ts es)

not_opaque : (t : Term) → contains_opaque t ≡ false → t ≡ opaque → ⊥
not_opaque t h e = from_false (sym h ∙ ap contains_opaque e)

-- A side that is no opaque term stands for its value.
kept_value :
    (ρ : Givens) (t : Term) (v : Meant)
    → den ρ t ≡ some v
    → contains_opaque (reduce t) ≡ false
    → den ρ (reduce t) ≡ some v
kept_value ρ t v h fine = elim (reduce_keeps ρ t v h) [
  | inl over ↦ absurd (not_opaque (reduce t) fine over)
  | inr d ↦ d
]

written_out :
    (ρ : Givens) (t : Term) (v : Meant)
    → den ρ t ≡ some v
    → contains_opaque (reduce t) ≡ false
    → contains_sym (reduce t) ≡ false
    → reduce t ≡ quoted v
written_out ρ t v h fine closed = elim (reduce_closed ρ t v h closed) [
  | inl over ↦ absurd (not_opaque (reduce t) fine over)
  | inr e ↦ e
]

module _ (ρ : Givens) (h k : ℕ) (a b : Term) (v w : Meant) (ha : den (constructing h ρ) a ≡ some v)
    (hb : den (constructing k ρ) b ≡ some w)
    (fine : (contains_opaque (reduce a) || contains_opaque (reduce b)) ≡ false) where
  clear : (contains_opaque (reduce a) ≡ false) × (contains_opaque (reduce b) ≡ false)
  clear = or_none (contains_opaque (reduce a)) (contains_opaque (reduce b)) fine

  equal_values :
      den (constructing h ρ) (reduce a) ≡ den (constructing k ρ) (reduce a)
      → term_eq (reduce a) (reduce b) ≡ true
      → v ≡ w
  equal_values shared e = some_eq (
      sym (kept_value (constructing h ρ) a v ha clear.0)
      ∙ shared
      ∙ ap (den (constructing k ρ)) (term_eq-eq (reduce a) (reduce b) e)
      ∙ kept_value (constructing k ρ) b w hb clear.1)

  left_written : contains_sym (reduce a) ≡ false → reduce a ≡ quoted v
  left_written = written_out (constructing h ρ) a v ha clear.0

  right_written : contains_sym (reduce b) ≡ false → reduce b ≡ quoted w
  right_written = written_out (constructing k ρ) b w hb clear.1

  other_values :
      contains_sym (reduce a) ≡ false
      → contains_sym (reduce b) ≡ false
      → term_eq (reduce a) (reduce b) ≡ false
      → v ≢ w
  other_values ca cb e same =
      let equal : reduce a ≡ reduce b = left_written ca ∙ ap quoted same ∙ sym (right_written cb) in
      from_false (sym e ∙ ap (term_eq (reduce a)) (sym equal) ∙ term_eq_self (reduce a))

differ-quoted : (v w : Meant) → v ≢ w → JustifiedEq (differ (quoted v) (quoted w)) v w
differ-quoted (num i) (num j) h = λ e. h (ap num e)
differ-quoted (truth b) (truth c) h = λ e. h (ap truth e)
differ-quoted (text s) (text t) h = elim (Bool-cases (is_numeric_str s && is_numeric_str t)) [
  | inl numeric ↦ rw numeric tt
  | inr other ↦ rw other ((λ e. h (ap text e)), other)
]
differ-quoted _ _ h = tt

differ-Justified :
    (t u : Term) (v w : Meant) → t ≡ quoted v → u ≡ quoted w → v ≢ w → JustifiedEq (differ t u) v w
differ-Justified t u v w ht hu h = rw (ht, hu) (differ-quoted v w h)

scalar_closed : (t : Term) → is_concrete_scalar t ≡ true → contains_sym t ≡ false
scalar_closed (int i) h = refl
scalar_closed (bool b) h = refl
scalar_closed (str s) h = refl
scalar_closed _ h = from_false h

negated : (b : Bool) → not b ≡ true → b ≡ false
negated true h = from_false h
negated false h = refl

-- Of two terms that stand for values, with the values of their free symbols, integers without bounds
-- and objects with handles, those that a side constructs with a handle of its own, `decide_same` says
-- `True` only where the values are identical, handles included, and `False` only where they are not.
pub decide_same-Justified :
    (ρ : Givens) (h k : ℕ) (a b : Term) (v w : Meant)
    → den (constructing h ρ) a ≡ some v
    → den (constructing k ρ) b ≡ some w
    → Justified (decide_same a b) v w
unfolding decide_same same_reduced
decide_same-Justified ρ h k a b v w ha hb =
    let ra = reduce a in
    let rb = reduce b in
    elim (Bool-cases (contains_opaque ra || contains_opaque rb)) [
      | inl poison ↦ rw poison tt
      | inr fine ↦ elim (Bool-cases (contains_obj ra || contains_obj rb)) [
        | inl object ↦ rw (fine, object) tt
        | inr plain ↦ elim (Bool-cases (term_eq ra rb)) [
          | inl equal ↦
              rw (fine, plain, equal)
                (equal_values ρ h k a b v w ha hb fine
                  (den-constructing ρ h k ra (or_none (contains_obj ra) (contains_obj rb) plain).0)
                  equal)
          | inr unequal ↦ elim (Bool-cases (not (contains_sym ra) && not (contains_sym rb))) [
            | inl closed ↦
                rw (fine, plain, unequal, closed)
                  (other_values ρ h k a b v w ha hb fine
                    (negated (contains_sym ra)
                      (and_left (not (contains_sym ra)) (not (contains_sym rb)) closed))
                    (negated (contains_sym rb)
                      (and_right (not (contains_sym ra)) (not (contains_sym rb)) closed))
                    unequal)
            | inr free ↦ rw (fine, plain, unequal, free) tt
          ]
        ]
      ]
    ]

-- Of two terms that stand for values, with the values of their free symbols, integers without bounds
-- and objects without regard to their handles, `decide_eq` says `True` only where the values are equal,
-- and `False` only where they are two different integers, two different truth values, or two different
-- texts of which `is_numeric_str` finds one not numeric.
pub decide_eq-Justified :
    (ρ : Givens) (a b : Term) (v w : Meant)
    → den ρ a ≡ some v
    → den ρ b ≡ some w
    → JustifiedEq (decide_eq a b) v w
unfolding decide_eq eq_reduced
decide_eq-Justified ρ a b v w ha hb =
    let ra = reduce a in
    let rb = reduce b in
    let h = ρ.own_handle in
    elim (Bool-cases (contains_opaque ra || contains_opaque rb)) [
      | inl poison ↦ rw poison tt
      | inr fine ↦ elim (Bool-cases (term_eq ra rb)) [
        | inl equal ↦ rw (fine, equal) (equal_values ρ h h a b v w ha hb fine refl equal)
        | inr unequal ↦ elim (Bool-cases (is_concrete_scalar ra && is_concrete_scalar rb)) [
          | inl scalars ↦
              let ca =
                scalar_closed ra
                  (and_left (is_concrete_scalar ra) (is_concrete_scalar rb) scalars) in
              let cb =
                scalar_closed rb
                  (and_right (is_concrete_scalar ra) (is_concrete_scalar rb) scalars) in
              rw (fine, unequal, scalars)
                (differ-Justified ra rb v w (left_written ρ h h a b v w ha hb fine ca)
                  (right_written ρ h h a b v w ha hb fine cb)
                  (other_values ρ h h a b v w ha hb fine ca cb unequal))
          | inr more ↦ rw (fine, unequal, more) tt
        ]
      ]
    ]
