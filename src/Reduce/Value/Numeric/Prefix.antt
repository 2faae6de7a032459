-- ===== src/Reduce/Value/Numeric/Prefix.antt =====
-- crates/analyzer/src/reduce/value.rs: the numeric strings, read by a cast and as a whole.
use phpunit_rust.Prelude.{
  ℕ, Bool, true, false, not, ◌&&◌, ◌||◌, ◌≡◌, refl, sym, ap, inl, inr, [], ◌∷◌, ◌++◌, nat_eq,
  Option, none, some, if◌then◌else◌, arith, Bool-cases, subst,
}
use phpunit_rust.Reduce.Floats.{Floats}
use phpunit_rust.Reduce.Value.{Bytes}
use phpunit_rust.Reduce.Value.Numeric.{
  NumericString, is_php_ws, is_digit, is_sign, skip_leading_ws, trim_end, trim_php_ws, span_digits,
  span_sign, span_point, has_digits, exponent_of, span_exponent, is_nil, parse_numeric_prefix,
  full_numeric, str_leading_numeric,
}

-- White space, or nothing, comes next.
abbrev starts_blank : Bytes → Bool
starts_blank [] = true
starts_blank (c ∷ cs) = is_php_ws c

span_digits-blank :
    (xs w : Bytes)
    → starts_blank w ≡ true
    → span_digits (xs ++ w) ≡ ((span_digits xs).0, (span_digits xs).1 ++ w)
unfolding span_digits
span_digits-blank [] [] h = refl
span_digits-blank [] (c ∷ w) h = ground arith
span_digits-blank (x ∷ xs) w h = elim (Bool-cases (is_digit x)) [
  | inl digit ↦ rw digit (rw (span_digits-blank xs w h) refl)
  | inr other ↦ rw other refl
]

span_sign-blank :
    (xs w : Bytes)
    → starts_blank w ≡ true
    → span_sign (xs ++ w) ≡ ((span_sign xs).0, (span_sign xs).1 ++ w)
span_sign-blank [] [] h = refl
span_sign-blank [] (c ∷ w) h = ground arith
span_sign-blank (x ∷ xs) w h = elim (Bool-cases (is_sign x)) [
  | inl sign ↦ rw sign refl
  | inr other ↦ rw other refl
]

span_point-blank :
    (xs w : Bytes)
    → starts_blank w ≡ true
    → span_point (xs ++ w) ≡ (let (p, t, ds, rest) = span_point xs in (p, t, ds, rest ++ w))
span_point-blank [] [] h = refl
span_point-blank [] (c ∷ w) h = let other : nat_eq c 46 ≡ false = ground arith in rw other refl
span_point-blank (x ∷ xs) w h = elim (Bool-cases (nat_eq x 46)) [
  | inl point ↦ rw (point, span_digits-blank xs w h) refl
  | inr other ↦ rw other refl
]

exponent_of-blank :
    (c : ℕ) (cs w sign rest : Bytes)
    → starts_blank w ≡ true
    → exponent_of c (cs ++ w) (sign, rest ++ w)
      ≡ (let (e, t, after) = exponent_of c cs (sign, rest) in (e, t, after ++ w))
exponent_of-blank c cs w sign rest h = elim (Bool-cases (has_digits (span_digits rest).0)) [
  | inl digits ↦ rw (span_digits-blank rest w h, digits) refl
  | inr empty ↦ rw (span_digits-blank rest w h, empty) refl
]

span_exponent-blank :
    (xs w : Bytes)
    → starts_blank w ≡ true
    → span_exponent (xs ++ w) ≡ (let (e, t, rest) = span_exponent xs in (e, t, rest ++ w))
span_exponent-blank [] [] h = refl
span_exponent-blank [] (c ∷ w) h =
    let other : (nat_eq c 101 || nat_eq c 69) ≡ false = ground arith in rw other refl
span_exponent-blank (x ∷ xs) w h = elim (Bool-cases (nat_eq x 101 || nat_eq x 69)) [
  | inl exp ↦
      rw (exp, span_sign-blank xs w h)
        (exponent_of-blank x xs w (span_sign xs).0 (span_sign xs).1 h)
  | inr other ↦ rw other refl
]

-- A test that is passed leaves the result.
unless {ℓ} :
    {A : Type ℓ} (d r : Bool) (x : Option A) (n : A)
    → (if d then (if true && not r then none else x) else none) ≡ some n
    → (if d then x else none) ≡ some n
unless true true x n h = h
unless true false x n h = cc
unless false r x n h = h

-- With white space behind it a text that is numeric to its end has the same numeric prefix.
parse_numeric_prefix-blank :
    (fl : Floats) (xs w : Bytes) (n : NumericString fl)
    → starts_blank w ≡ true
    → parse_numeric_prefix fl xs true ≡ some n
    → parse_numeric_prefix fl (xs ++ w) false ≡ some n
unfolding parse_numeric_prefix
parse_numeric_prefix-blank fl xs w n h e =
    let a = (span_sign xs).1 in
    let b = (span_digits a).1 in
    let c = (span_point b).3 in
    simp
      (
        span_sign-blank xs w h,
        span_digits-blank a w h,
        span_point-blank b w h,
        span_exponent-blank c w h,
      )
      (unless (has_digits (span_digits a).0 || has_digits (span_point b).2)
        (is_nil (span_exponent c).2) _ n e)

no_none {ℓ} : {A : Type ℓ} {a : A} → none ≡ some a → ⊥
no_none h = cc

trim_end-cons :
    (c : ℕ) (cs w t : Bytes)
    → cs ≡ t ++ w
    → starts_blank w ≡ true
    → trim_end cs ≡ t
    → (v : Bytes) × (c ∷ cs ≡ trim_end (c ∷ cs) ++ v) × (starts_blank v ≡ true)
unfolding trim_end
trim_end-cons c cs w [] e blank h = elim (Bool-cases (is_php_ws c)) [
  | inl ws ↦ (c ∷ cs, rw (h, trim_end) (rw ws refl), ws)
  | inr other ↦ (w, rw (h, trim_end) (rw (other) (ap (λ u. c ∷ u) e)), blank)
]
trim_end-cons c cs w (d ∷ ds) e blank h = (w, rw (h, trim_end) (ap (λ u. c ∷ u) e), blank)

-- What `trim_end` takes away is blank.
trim_end-blank : (s : Bytes) → (w : Bytes) × (s ≡ trim_end s ++ w) × (starts_blank w ≡ true)
unfolding trim_end
trim_end-blank [] = ([], refl, refl)
trim_end-blank (c ∷ cs) =
    let (w, e, blank) = trim_end-blank cs in trim_end-cons c cs w (trim_end cs) e blank refl

-- A number is read from a string by a cast just as `is_numeric` reads it: where the whole string is
-- numeric, white space around it aside, its numeric prefix is the same number.
pub full_numeric-str_leading_numeric :
    (fl : Floats) (s : Bytes) (n : NumericString fl)
    → full_numeric fl s ≡ some n
    → str_leading_numeric fl s ≡ some n
unfolding full_numeric str_leading_numeric trim_php_ws
full_numeric-str_leading_numeric fl s n h =
    let t = skip_leading_ws s in
    let (w, e, blank) = trim_end-blank t in
    elim (Bool-cases (is_nil (trim_end t))) [
      | inl empty ↦ absurd (no_none (rw empty at h))
      | inr more ↦
          subst (λ u. parse_numeric_prefix fl u false ≡ some n) (sym e)
            (parse_numeric_prefix-blank fl (trim_end t) w n blank (rw more at h))
    ]
