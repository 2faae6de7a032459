-- ===== src/Reduce/Value/Numeric.antt =====
-- crates/analyzer/src/reduce/value.rs: the numeric strings. An index into the slice is what is left
-- of the string; the text before it is gathered as it is passed.
pub mod Canonical
pub mod Prefix
use phpunit_rust.Prelude.{
  ℕ, zero, suc, ◌+◌, ◌-◌, ◌*◌, ◌^◌, Bool, true, false, not, ◌&&◌, ◌||◌, List, [], ◌∷◌, ◌++◌, nat_eq,
  ltb, leb, Option, none, some, if◌then◌else◌,
}
use phpunit_rust.Int.{ℤ, pos, negsuc, sub_ℕ, in_i64}
use phpunit_rust.Digits.{value_of, digits}
use phpunit_rust.Reduce.Floats.{Floats}
use phpunit_rust.Reduce.Value.{Bytes, bytes_eq}

pub data NumericString (fl : Floats) : Type 0 where
  int_num : ℤ → NumericString fl
  float_num : fl.F → NumericString fl

abbrev pub is_php_ws : ℕ → Bool
is_php_ws c = nat_eq c 32 || nat_eq c 9 || nat_eq c 10 || nat_eq c 13 || nat_eq c 11 || nat_eq c 12

abbrev pub is_digit : ℕ → Bool
is_digit c = leb 48 c && leb c 57

abbrev pub is_sign : ℕ → Bool
is_sign c = nat_eq c 43 || nat_eq c 45

unfoldable pub skip_leading_ws : Bytes → Bytes
skip_leading_ws [] = []
skip_leading_ws (c ∷ cs) = if is_php_ws c then skip_leading_ws cs else c ∷ cs

-- Up to the last character that is no white space.
unfoldable pub trim_end : Bytes → Bytes
trim_end [] = []
trim_end (c ∷ cs) = elim (trim_end cs) [
  | [] ↦ if is_php_ws c then [] else c ∷ []
  | d ∷ ds ↦ c ∷ d ∷ ds
]

unfoldable pub trim_php_ws : Bytes → Bytes
trim_php_ws s = trim_end (skip_leading_ws s)

-- The digits at the start, and what follows them.
unfoldable pub span_digits : Bytes → Bytes × Bytes
span_digits [] = ([], [])
span_digits (c ∷ cs) =
    let (ds, rest) = span_digits cs in if is_digit c then (c ∷ ds, rest) else ([], c ∷ cs)

-- A sign at the start, if there is one.
abbrev pub span_sign : Bytes → Bytes × Bytes
span_sign [] = ([], [])
span_sign (c ∷ cs) = if is_sign c then (c ∷ [], cs) else ([], c ∷ cs)

-- A point and its digits: whether there is one, its text, the number of its digits, the rest.
abbrev pub span_point : Bytes → Bool × Bytes × Bytes × Bytes
span_point [] = (false, [], [], [])
span_point (c ∷ cs) =
    let (ds, rest) = span_digits cs in
    if nat_eq c 46 then (true, c ∷ ds, ds, rest) else (false, [], [], c ∷ cs)

abbrev pub has_digits : Bytes → Bool
has_digits [] = false
has_digits (d ∷ ds) = true

-- An exponent with digits, if there is one; an `e` with none is left where it stands.
abbrev pub exponent_of : ℕ → Bytes → Bytes × Bytes → Bool × Bytes × Bytes
exponent_of c cs (sign, rest) =
    let (ds, after) = span_digits rest in
    if has_digits ds then (true, c ∷ (sign ++ ds), after) else (false, [], c ∷ cs)

abbrev pub span_exponent : Bytes → Bool × Bytes × Bytes
span_exponent [] = (false, [], [])
span_exponent (c ∷ cs) =
    if nat_eq c 101 || nat_eq c 69 then exponent_of c cs (span_sign cs) else (false, [], c ∷ cs)

abbrev pub all_digits : Bytes → Bool
all_digits [] = true
all_digits (c ∷ cs) = is_digit c && all_digits cs

abbrev pub in_range : ℤ → Option ℤ
in_range i = if in_i64 i then some i else none

-- `parse::<i64>()` of a text of digits after a sign.
abbrev pub parse_digits : Bool → Bytes → Option ℤ
parse_digits neg ds =
    if has_digits ds && all_digits ds
    then in_range (if neg then sub_ℕ 0 (value_of ds 0) else pos (value_of ds 0))
    else none

unfoldable pub parse_i64 : Bytes → Option ℤ
parse_i64 [] = none
parse_i64 (c ∷ cs) =
    if is_sign c then parse_digits (nat_eq c 45) cs else parse_digits false (c ∷ cs)

abbrev pub map_float : {fl : Floats} → Option fl.F → Option (NumericString fl)
map_float none = none
map_float (some f) = some (float_num f)

-- An integer that no `i64` holds is read as a float.
abbrev pub int_or_float : (fl : Floats) → Bytes → Option ℤ → Option (NumericString fl)
int_or_float fl text (some v) = some (int_num v)
int_or_float fl text none = map_float (fl.parse text)

abbrev pub is_nil : Bytes → Bool
is_nil [] = true
is_nil (c ∷ cs) = false

unfoldable pub parse_numeric_prefix : (fl : Floats) → Bytes → Bool → Option (NumericString fl)
parse_numeric_prefix fl s require_full =
    let (sign, after_sign) = span_sign s in
    let (ints, after_ints) = span_digits after_sign in
    let (point, fraction, fraction_digits, after_point) = span_point after_ints in
    let (exponent, exp_text, rest) = span_exponent after_point in
    let text = sign ++ (ints ++ (fraction ++ exp_text)) in
    if has_digits ints || has_digits fraction_digits
    then (if require_full && not (is_nil rest)
        then none
        else if point || exponent
        then map_float (fl.parse text)
        else int_or_float fl text (parse_i64 text))
    else none

unfoldable pub full_numeric : (fl : Floats) → Bytes → Option (NumericString fl)
full_numeric fl s =
    let trimmed = trim_php_ws s in
    if is_nil trimmed then none else parse_numeric_prefix fl trimmed true

unfoldable pub str_leading_numeric : (fl : Floats) → Bytes → Option (NumericString fl)
str_leading_numeric fl s = parse_numeric_prefix fl (skip_leading_ws s) false

abbrev pub is_some {ℓ} : {A : Type ℓ} → Option A → Bool
is_some none = false
is_some (some a) = true

abbrev pub is_numeric_string : (fl : Floats) → Bytes → Bool
is_numeric_string fl s = is_some (full_numeric fl s)

-- More than one digit, the first of them a zero.
abbrev pub has_leading_zero : Bytes → Bool
has_leading_zero (c ∷ d ∷ ds) = nat_eq c 48
has_leading_zero _ = false

abbrev pub canonical_digits : Bool → Bytes → Bytes → Option ℤ
canonical_digits neg digits s =
    if not (has_digits digits && all_digits digits)
    then none
    else if has_leading_zero digits
    then none
    else if neg && bytes_eq digits (48 ∷ [])
    then none
    else parse_i64 s

-- The canonical integer strings, which are the integer keys of an array.
unfoldable pub canonical_int_string : Bytes → Option ℤ
canonical_int_string [] = none
canonical_int_string (c ∷ cs) =
    if nat_eq c 45
    then canonical_digits true cs (c ∷ cs)
    else canonical_digits false (c ∷ cs) (c ∷ cs)

-- `i64::to_string()`.
unfoldable pub print_i64 : ℤ → Bytes
print_i64 (pos n) = digits n
print_i64 (negsuc n) = 45 ∷ digits (suc n)
