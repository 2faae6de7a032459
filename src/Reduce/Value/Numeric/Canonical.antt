-- ===== src/Reduce/Value/Numeric/Canonical.antt =====
-- crates/analyzer/src/reduce/value.rs: the canonical integer strings and the texts of integers.
use native.Mathlib.Nat.{one-le-pow, pow-suc, pow-le-pow_right}
use phpunit_rust.Prelude.{
  ℕ, zero, suc, ◌+◌, ◌-◌, ◌*◌, ◌/◌, ◌%◌, ◌^◌, ◌≤◌, ◌<◌, Bool, true, false, ◌&&◌, ◌≡◌, ◌↔◌, refl,
  sym, ap, ap₂, ◌∙◌, inl, inr, [], ◌∷◌, ◌++◌, nat_eq, ltb, leb, length, some, arith, Bool-cases,
  subst, append-nil,
}
use phpunit_rust.Int.{ℤ, pos, negsuc, sub_ℕ, in_i64}
use phpunit_rust.Digits.{digits_from, digits, value_of, value_of-digits_from}
use phpunit_rust.Reduce.Value.{Bytes, bytes_eq}
use phpunit_rust.Reduce.Value.Numeric.{
  has_digits, all_digits, in_range, parse_i64, has_leading_zero, canonical_digits,
  canonical_int_string, print_i64,
}

all_digits-digits_from :
    (fuel n : ℕ) (acc : Bytes) → all_digits acc ≡ true → all_digits (digits_from fuel n acc) ≡ true
unfolding digits_from
all_digits-digits_from zero n acc h = h
all_digits-digits_from (suc fuel) n acc h =
    ground (arith, all_digits-digits_from fuel (n / 10) ((48 + n % 10) ∷ acc))

-- The first digit of a positive number is no zero.
first-digits_from :
    (fuel n : ℕ) (acc : Bytes)
    → 0 < n
    → n < 10 ^ fuel
    → (c : ℕ) × (cs : Bytes) × (digits_from fuel n acc ≡ c ∷ cs) × (48 < c)
unfolding digits_from
first-digits_from zero n acc h k = absurd (omega arith)
first-digits_from (suc fuel) n acc h k = elim (Bool-cases (ltb n 10)) [
  | inl small ↦ (48 + n, acc, rw small, omega arith)
  | inr large ↦
      let (c, cs, e, l) =
        first-digits_from fuel (n / 10) ((48 + n % 10) ∷ acc) (ground arith)
          (omega (arith, pow-suc 10 fuel)) in
      (c, cs, rw large e, l)
]

-- What the digits of a positive number look like.
digits_positive :
    (n : ℕ)
    → 0 < n
    → n < 10 ^ 20
    → (c : ℕ) × (cs : Bytes) × (digits n ≡ c ∷ cs)
      × (48 < c)
      × (all_digits (c ∷ cs) ≡ true)
      × (value_of (c ∷ cs) 0 ≡ n)
unfolding digits value_of
digits_positive n h k =
    let (c, cs, e, l) = first-digits_from 20 n [] h k in
    (
      c,
      cs,
      e,
      l,
      subst (λ t. all_digits t ≡ true) e (all_digits-digits_from 20 n [] refl),
      ap (λ t. value_of t 0) (sym e) ∙ value_of-digits_from 20 n [] k,
    )

-- A text of digits without a leading zero is read as its number.
canonical_plain :
    (c n : ℕ) (cs : Bytes)
    → 48 < c
    → all_digits (c ∷ cs) ≡ true
    → value_of (c ∷ cs) 0 ≡ n
    → in_i64 (pos n) ≡ true
    → canonical_int_string (c ∷ cs) ≡ some (pos n)
unfolding canonical_int_string parse_i64
canonical_plain c n [] l ds v h = ground arith
canonical_plain c n (d ∷ cs) l ds v h = ground arith

canonical_minus :
    (c n : ℕ) (cs : Bytes)
    → 48 < c
    → all_digits (c ∷ cs) ≡ true
    → value_of (c ∷ cs) 0 ≡ suc n
    → in_i64 (negsuc n) ≡ true
    → canonical_int_string (45 ∷ c ∷ cs) ≡ some (negsuc n)
unfolding canonical_int_string parse_i64
canonical_minus c n [] l ds v h = ground arith
canonical_minus c n (d ∷ cs) l ds v h = ground arith

-- Every integer is read back from its text.
canonical_int_string-print_i64 :
    (i : ℤ) → in_i64 i ≡ true → canonical_int_string (print_i64 i) ≡ some i
unfolding print_i64
canonical_int_string-print_i64 (pos zero) h =
    unfold canonical_int_string parse_i64 value_of digits digits_from in refl
canonical_int_string-print_i64 (pos (suc n)) h =
    let (c, cs, e, l, ds, v) = digits_positive (suc n) (omega arith) (ground arith) in
    rw e (canonical_plain c (suc n) cs l ds v h)
canonical_int_string-print_i64 (negsuc n) h =
    let (c, cs, e, l, ds, v) = digits_positive (suc n) (omega arith) (ground arith) in
    rw e (canonical_minus c n cs l ds v h)

-- The other direction: appending digits to a positive number's.
digits_from-value_of :
    (ds : Bytes) (fuel v : ℕ) (acc : Bytes)
    → 0 < v
    → all_digits ds ≡ true
    → digits_from (length ds + fuel) (value_of ds v) acc ≡ digits_from fuel v (ds ++ acc)
unfolding digits_from value_of
digits_from-value_of [] fuel v acc h k =
    subst (λ t. digits_from t v acc ≡ digits_from fuel v acc) (omega arith) refl
digits_from-value_of (d ∷ ds) fuel v acc h k =
    let v' = v * 10 + (d - 48) in
    let large : ltb v' 10 ≡ false = ground arith in
    let up : v' / 10 ≡ v = ground arith in
    let low : 48 + v' % 10 ≡ d = ground arith in
    let fuel' : length ds + suc fuel ≡ suc (length ds) + fuel = omega arith in
    subst (λ t. digits_from t (value_of ds v') acc ≡ digits_from fuel v (d ∷ ds ++ acc)) fuel'
      (digits_from-value_of ds (suc fuel) v' acc (omega arith) (ground arith) ∙ rw (large, up, low))

value_of-ge : (ds : Bytes) (v : ℕ) → v * 10 ^ length ds ≤ value_of ds v
unfolding value_of
value_of-ge [] v = omega arith
value_of-ge (d ∷ ds) v =
    let p = 10 ^ length ds in
    let ih : (v * 10 + (d - 48)) * p ≤ value_of ds (v * 10 + (d - 48)) =
      value_of-ge ds (v * 10 + (d - 48)) in
    let here : v * 10 ^ suc (length ds) ≤ (v * 10 + (d - 48)) * p = rw pow-suc (grind arith) in
    omega (arith, ih, here)

short : (ds : Bytes) (v : ℕ) → 0 < v → value_of ds v < 2 ^ 63 + 1 → length ds ≤ 19
short ds v h k = elim (Bool-cases (leb (length ds) 19)) [
  | inl few ↦ ground arith
  | inr many ↦
      let p : 10 ^ 20 ≤ 10 ^ length ds =
        pow-le-pow_right {n = 10} (omega arith) {i = 20} {j = length ds} (ground arith) in
      let here : 10 ^ length ds ≤ v * 10 ^ length ds = grind arith in
      absurd (omega (arith, p, here, value_of-ge ds v))
]

-- The digits of the number that a text without a leading zero writes are the text.
digits-value_of :
    (c : ℕ) (cs : Bytes)
    → all_digits (c ∷ cs) ≡ true
    → has_leading_zero (c ∷ cs) ≡ false
    → value_of (c ∷ cs) 0 < 2 ^ 63 + 1
    → digits (value_of (c ∷ cs) 0) ≡ c ∷ cs
unfolding digits
digits-value_of c [] ds l h = unfold value_of digits_from in ground arith
digits-value_of c (d ∷ cs) ds l h =
    let v = c - 48 in
    let n = length (d ∷ cs) in
    let first : value_of (c ∷ d ∷ cs) 0 ≡ value_of (d ∷ cs) v =
      unfold value_of in
      (let z : 0 * 10 + (c - 48) ≡ c - 48 = omega arith in ap (value_of (d ∷ cs)) z) in
    let some_fuel : 20 ≡ n + suc (19 - n) =
      omega (arith, short (d ∷ cs) v (ground arith) (omega (arith, first))) in
    let last : digits_from (suc (19 - n)) v (d ∷ cs ++ []) ≡ c ∷ d ∷ cs =
      unfold digits_from in ground (arith, append-nil cs) in
    rw first (
      subst (λ t. digits_from t (value_of (d ∷ cs) v) [] ≡ c ∷ d ∷ cs) (sym some_fuel)
        (digits_from-value_of (d ∷ cs) (suc (19 - n)) v [] (ground arith) (ground arith) ∙ last))

canonical_digits-eq :
    (neg : Bool) (ds s : Bytes) (i : ℤ)
    → canonical_digits neg ds s ≡ some i
    → (has_digits ds ≡ true)
      × (all_digits ds ≡ true)
      × (has_leading_zero ds ≡ false)
      × ((neg && bytes_eq ds (48 ∷ [])) ≡ false)
      × (parse_i64 s ≡ some i)
canonical_digits-eq neg ds s i h = ground arith

in_range-eq : (i j : ℤ) → in_range i ≡ some j → (i ≡ j) × (in_i64 j ≡ true)
in_range-eq i j h = elim (Bool-cases (in_i64 i)) [
  | inl fits ↦ let same : i ≡ j = ground arith in (same, subst (λ t. in_i64 t ≡ true) same fits)
  | inr outside ↦ ground arith
]

parse_plain :
    (c : ℕ) (cs : Bytes) (i : ℤ)
    → all_digits (c ∷ cs) ≡ true
    → parse_i64 (c ∷ cs) ≡ some i
    → in_range (pos (value_of (c ∷ cs) 0)) ≡ some i
unfolding parse_i64
parse_plain c cs i ds h = ground arith

parse_minus :
    (c d : ℕ) (ds : Bytes) (i : ℤ)
    → nat_eq c 45 ≡ true
    → all_digits (d ∷ ds) ≡ true
    → parse_i64 (c ∷ d ∷ ds) ≡ some i
    → in_range (sub_ℕ 0 (value_of (d ∷ ds) 0)) ≡ some i
unfolding parse_i64
parse_minus c d ds i minus all h = ground arith

value_of_positive :
    (d : ℕ) (ds : Bytes)
    → all_digits (d ∷ ds) ≡ true
    → has_leading_zero (d ∷ ds) ≡ false
    → bytes_eq (d ∷ ds) (48 ∷ []) ≡ false
    → 0 < value_of (d ∷ ds) 0
unfolding value_of
value_of_positive d [] all lead nonzero = ground arith
value_of_positive d (e ∷ ds) all lead nonzero =
    let v = d - 48 in
    let some_v : 0 < v = ground arith in
    let p : 1 ≤ 10 ^ length (e ∷ ds) = one-le-pow (length (e ∷ ds)) 10 (omega arith) in
    let here : 10 ^ length (e ∷ ds) ≤ v * 10 ^ length (e ∷ ds) = grind arith in
    let z : 0 * 10 + (d - 48) ≡ v = omega arith in
    subst (λ t. 0 < value_of (e ∷ ds) t) (sym z) (omega (arith, p, here, value_of-ge (e ∷ ds) v))

in_i64-bound : (n : ℕ) → in_i64 (pos n) ≡ true → n < 2 ^ 63 + 1
in_i64-bound n h = ground arith

negsuc-bound : (v : ℕ) → in_i64 (negsuc (v - 1)) ≡ true → v < 2 ^ 63 + 1
negsuc-bound v h = ground arith

-- A minus and the digits of a positive number.
negative :
    (c : ℕ) (cs : Bytes) (i : ℤ)
    → nat_eq c 45 ≡ true
    → (has_digits cs ≡ true)
      × (all_digits cs ≡ true)
      × (has_leading_zero cs ≡ false)
      × (bytes_eq cs (48 ∷ []) ≡ false)
      × (parse_i64 (c ∷ cs) ≡ some i)
    → (c ∷ cs ≡ print_i64 i) × (in_i64 i ≡ true)
unfolding print_i64
negative c [] i minus h = absurd (ground arith)
negative c (d ∷ ds) i minus h =
    let v = value_of (d ∷ ds) 0 in
    let some_v : 0 < v = value_of_positive d ds h.1 h.2 h.3 in
    let (same, fits) = in_range-eq (sub_ℕ 0 v) i (parse_minus c d ds i minus h.1 h.4) in
    let shape : sub_ℕ 0 v ≡ negsuc (v - 1) = ground arith in
    let bound : v < 2 ^ 63 + 1 =
      negsuc-bound v (subst (λ t. in_i64 t ≡ true) (sym (sym shape ∙ same)) fits) in
    let back : suc (v - 1) ≡ v = omega arith in
    let start : c ≡ 45 = ground arith in
    (
      ap₂ (λ a t. a ∷ t) start (sym (digits-value_of d ds h.1 h.2 bound) ∙ ap digits (sym back))
          ∙ ap print_i64 (sym shape ∙ same),
      fits,
    )

-- A canonical text is the text of the integer that it is read as.
canonical_int_string-eq :
    (s : Bytes) (i : ℤ) → canonical_int_string s ≡ some i → (s ≡ print_i64 i) × (in_i64 i ≡ true)
unfolding canonical_int_string print_i64
canonical_int_string-eq [] i h = cc
canonical_int_string-eq (c ∷ cs) i h = elim (Bool-cases (nat_eq c 45)) [
  | inl minus ↦ negative c cs i minus (canonical_digits-eq true cs (c ∷ cs) i (rw minus at h))
  | inr plain ↦
      let (some_d, ds, lead, nonzero, e) =
        canonical_digits-eq false (c ∷ cs) (c ∷ cs) i (rw plain at h) in
      let (same, fits) = in_range-eq (pos (value_of (c ∷ cs) 0)) i (parse_plain c cs i ds e) in
      let bound : value_of (c ∷ cs) 0 < 2 ^ 63 + 1 =
        in_i64-bound (value_of (c ∷ cs) 0) (subst (λ t. in_i64 t ≡ true) (sym same) fits) in
      (sym (digits-value_of c cs ds lead bound) ∙ ap print_i64 same, fits)
]

-- The strings that PHP takes for integer keys are exactly the texts of the 64-bit integers, each for
-- its own integer.
pub canonical_int_string_iff :
    (s : Bytes) (i : ℤ)
    → (canonical_int_string s ≡ some i) ↔ ((s ≡ print_i64 i) × (in_i64 i ≡ true))
canonical_int_string_iff s i = (
  canonical_int_string-eq s i,
  λ h.
      subst (λ t. canonical_int_string t ≡ some i) (sym h.0) (canonical_int_string-print_i64 i h.1),
)
