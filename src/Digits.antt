-- ===== src/Digits.antt =====
-- Decimal digits of a number, as the standard library writes and reads them: a digit is the code of
-- its character.
use native.Mathlib.Nat.{pow-suc}
use phpunit_rust.Prelude.{
  ℕ, zero, suc, ◌+◌, ◌-◌, ◌*◌, ◌/◌, ◌%◌, ◌^◌, ◌≤◌, ◌<◌, ◌≡◌, ap, ◌∙◌, inl, inr, List, [], ◌∷◌,
  if◌then◌else◌, length, ltb, arith, Bool-cases,
}

-- The decimal digits of a number of at most as many digits as the fuel.
unfoldable pub digits_from : ℕ → ℕ → List ℕ → List ℕ
digits_from zero n acc = acc
digits_from (suc fuel) n acc =
    let rest = digits_from fuel (n / 10) ((48 + n % 10) ∷ acc) in
    if ltb n 10 then (48 + n) ∷ acc else rest

-- `to_string()`: twenty digits are enough for 64 bits.
unfoldable pub digits : ℕ → List ℕ
digits n = digits_from 20 n []

pub length-digits_from :
    (fuel n : ℕ) (acc : List ℕ) → length (digits_from fuel n acc) ≤ fuel + length acc
unfolding digits_from
length-digits_from zero n acc = omega arith
length-digits_from (suc fuel) n acc =
    ground (arith, length-digits_from fuel (n / 10) ((48 + n % 10) ∷ acc))

-- The number that a text of digits writes, after the value of what stands before it.
unfoldable pub value_of : List ℕ → ℕ → ℕ
value_of [] v = v
value_of (d ∷ ds) v = value_of ds (v * 10 + (d - 48))

pub value_of-digits_from :
    (fuel n : ℕ) (acc : List ℕ)
    → n < 10 ^ fuel
    → value_of (digits_from fuel n acc) 0 ≡ value_of acc n
unfolding digits_from value_of
value_of-digits_from zero n acc h = ap (value_of acc) (omega arith)
value_of-digits_from (suc fuel) n acc h = elim (Bool-cases (ltb n 10)) [
  | inl small ↦ rw small (ap (value_of acc) (omega arith))
  | inr large ↦ rw large (
      value_of-digits_from fuel (n / 10) ((48 + n % 10) ∷ acc) (omega (arith, pow-suc 10 fuel))
      ∙ ap (value_of acc) (omega arith))
]
