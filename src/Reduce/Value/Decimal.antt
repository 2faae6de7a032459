-- ===== src/Reduce/Value/Decimal.antt =====
-- crates/analyzer/src/reduce/value.rs: the text that PHP writes for a float, with 14 digits.
use phpunit_rust.Prelude.{
  ℕ, ◌+◌, ◌-◌, Bool, true, false, not, ◌||◌, [], ◌∷◌, ◌++◌, nat_eq, ltb, Option, some,
  if◌then◌else◌, Ordering,
}
use phpunit_rust.Int.{ℤ, pos, negsuc, pos_part, neg_part}
use phpunit_rust.Digits.{digits}
use phpunit_rust.Reduce.Floats.{Floats}
use phpunit_rust.Reduce.Value.{Bytes}

abbrev pub precision : ℕ
precision = 14

abbrev pub is_below : Option Ordering → Bool
is_below (some Ordering.lt) = true
is_below _ = false

-- `contains('.')`.
abbrev pub has_point : Bytes → Bool
has_point [] = false
has_point (c ∷ cs) = nat_eq c 46 || has_point cs

-- `while s.ends_with('0') { s.pop(); }`.
unfoldable pub strip_zeros : Bytes → Bytes
strip_zeros [] = []
strip_zeros (c ∷ cs) = elim (strip_zeros cs) [
  | [] ↦ if nat_eq c 48 then [] else c ∷ []
  | d ∷ ds ↦ c ∷ d ∷ ds
]

-- `if s.ends_with('.') { s.pop(); }`.
unfoldable pub strip_point : Bytes → Bytes
strip_point [] = []
strip_point (c ∷ []) = if nat_eq c 46 then [] else c ∷ []
strip_point (c ∷ d ∷ ds) = c ∷ strip_point (d ∷ ds)

unfoldable pub trim_fraction : Bytes → Bytes
trim_fraction s = if has_point s then strip_point (strip_zeros s) else s

-- `.0` where there is no point.
abbrev pub with_point : Bytes → Bytes
with_point s = if has_point s then s else s ++ 46 ∷ 48 ∷ []

abbrev pub sign_of : ℤ → ℕ
sign_of (pos n) = 43
sign_of (negsuc n) = 45

-- `format!("{}E{}{}", …)`.
unfoldable pub exponent_text : Bytes × ℤ → Bytes
exponent_text (mantissa, e) =
    with_point (trim_fraction mantissa) ++ 69 ∷ sign_of e ∷ digits (pos_part e + neg_part e)

-- `(-4..PRECISION).contains(&exp)`.
abbrev pub in_fixed_range : ℤ → Bool
in_fixed_range (pos n) = ltb n precision
in_fixed_range (negsuc n) = ltb n 4

-- `(PRECISION - 1 - exp).max(0)`.
abbrev pub decimals : ℤ → ℕ
decimals (pos n) = precision - 1 - n
decimals (negsuc n) = precision + n

unfoldable pub php_float_to_string : (fl : Floats) → fl.F → Bytes
php_float_to_string fl f =
    let zero = fl.of_int (pos 0) in
    if fl.eq f zero
    then (if fl.is_sign_negative f then 45 ∷ 48 ∷ [] else 48 ∷ [])
    else if fl.is_nan f
    then 78 ∷ 65 ∷ 78 ∷ []
    else if fl.is_infinite f
    then (if is_below (fl.partial_cmp f zero) then 45 ∷ 73 ∷ 78 ∷ 70 ∷ [] else 73 ∷ 78 ∷ 70 ∷ [])
    else if not (in_fixed_range (fl.exponent f))
    then exponent_text (fl.scientific (precision - 1) f)
    else trim_fraction (fl.fixed (decimals (fl.exponent f)) f)
