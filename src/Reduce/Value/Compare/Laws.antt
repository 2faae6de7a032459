-- ===== src/Reduce/Value/Compare/Laws.antt =====
-- crates/analyzer/src/reduce/value.rs: how the three comparisons agree.
use phpunit_rust.Prelude.{
  suc, ℕ, Bool, true, false, ◌&&◌, ◌≡◌, refl, sym, ap, inl, inr, [], ◌∷◌, Option, none, some,
  Ordering, nat_eq, arith, subst, Bool-cases, and_left, and_right, from_false,
}
use phpunit_rust.Int.{ℤ, eq_ℤ, eq_of_parts}
use phpunit_rust.Reduce.Floats.{Floats}
use phpunit_rust.Reduce.Value.{
  Bytes, bytes_eq, ArrayKey, int_key, str_key, key_eq, Value, null, bool, int, float, str, arr,
  Items, no_items, item, count_items, item_of,
}
use phpunit_rust.Reduce.Value.Numeric.{NumericString, int_num, float_num, full_numeric}
use phpunit_rust.Reduce.Value.Convert.{to_bool}
use phpunit_rust.Reduce.Value.Compare.{
  cmp_f64, cmp_bytes, cmp_numeric_strings, cmp_texts, php_compare, php_loose_eq, loose_items,
  php_strict_eq, strict_items, assert_same, assert_equals,
}

pub bytes_eq-eq : (a b : Bytes) → bytes_eq a b ≡ true → a ≡ b
bytes_eq-eq [] [] h = refl
bytes_eq-eq [] (b ∷ bs) h = cc
bytes_eq-eq (a ∷ xs) [] h = cc
bytes_eq-eq (a ∷ xs) (b ∷ ys) h = ground (arith, bytes_eq-eq xs ys)

pub bytes_eq_self : (a : Bytes) → bytes_eq a a ≡ true
bytes_eq_self [] = refl
bytes_eq_self (a ∷ xs) = ground (arith, bytes_eq_self xs)

pub eq_ℤ-eq : (a b : ℤ) → eq_ℤ a b ≡ true → a ≡ b
eq_ℤ-eq a b h = eq_of_parts a b (ground arith)

pub key_eq-eq : (j k : ArrayKey) → key_eq j k ≡ true → j ≡ k
key_eq-eq (int_key a) (int_key b) h = ap int_key (eq_ℤ-eq a b h)
key_eq-eq (str_key a) (str_key b) h = ap str_key (bytes_eq-eq a b h)
key_eq-eq (int_key a) (str_key b) h = cc
key_eq-eq (str_key a) (int_key b) h = cc

pub key_eq_self : (k : ArrayKey) → key_eq k k ≡ true
key_eq_self (int_key a) = ground arith
key_eq_self (str_key s) = bytes_eq_self s

cmp_bytes_self : (a : Bytes) → cmp_bytes a a ≡ Ordering.eq
unfolding cmp_bytes
cmp_bytes_self [] = refl
cmp_bytes_self (a ∷ xs) = ground (arith, cmp_bytes_self xs)

-- No key of an array occurs twice, here and in what it holds.
abbrev mutual
  pub WellKeyed : {fl : Floats} → Value fl → Type 0
  WellKeyed (arr xs) = WellKeyedItems xs
  WellKeyed _ = Unit {0}

  pub WellKeyedItems : {fl : Floats} → Items fl → Type 0
  WellKeyedItems no_items = Unit {0}
  WellKeyedItems (item k v xs) = (item_of k xs ≡ none) × WellKeyed v × WellKeyedItems xs

-- What an `f64` promises: equal floats compare equal, and a float compares equal to itself or, if it
-- is no number, with nothing.
pub record FloatLaws (fl : Floats) : Type 0 where
  pub eq-cmp : (a b : fl.F) → fl.eq a b ≡ true → cmp_f64 fl a b ≡ Ordering.eq
  pub cmp_self : (a : fl.F) → cmp_f64 fl a a ≡ Ordering.eq

pub cmp_texts_self :
    (fl : Floats) (laws : FloatLaws fl) (s : Bytes) (o : Option (NumericString fl))
    → cmp_texts s s o o ≡ Ordering.eq
unfolding cmp_numeric_strings
cmp_texts_self fl laws s none = cmp_bytes_self s
cmp_texts_self fl laws s (some (int_num i)) = ground arith
cmp_texts_self fl laws s (some (float_num f)) = laws.cmp_self f

strict_items-step :
    (fl : Floats) (j k : ArrayKey) (v w : Value fl) (xs ys : Items fl)
    → strict_items (item j v xs) (item k w ys) ≡ true
    → (j ≡ k) × (php_strict_eq v w ≡ true) × (strict_items xs ys ≡ true)
unfolding php_strict_eq
strict_items-step fl j k v w xs ys h =
    let rest = and_right (key_eq j k) (php_strict_eq v w && strict_items xs ys) h in
    (
      key_eq-eq j k (and_left (key_eq j k) (php_strict_eq v w && strict_items xs ys) h),
      and_left (php_strict_eq v w) (strict_items xs ys) rest,
      and_right (php_strict_eq v w) (strict_items xs ys) rest,
    )

-- Behind an entry with a key of its own, the other keys are found as before.
pub item_of-later :
    (fl : Floats) (i l : ArrayKey) (w u : Value fl) (ys : Items fl)
    → item_of i ys ≡ none
    → item_of l ys ≡ some u
    → item_of l (item i w ys) ≡ some u
item_of-later fl i l w u ys own e = elim (Bool-cases (key_eq i l)) [
  | inl same ↦
      let clash : item_of l ys ≡ none = subst (λ t. item_of t ys ≡ none) (key_eq-eq i l same) own in
      cc
  | inr other ↦ rw other e
]

loose_items-step :
    (fl : Floats) (j : ArrayKey) (v w : Value fl) (xs y : Items fl)
    → item_of j y ≡ some w
    → php_loose_eq v w ≡ true
    → loose_items xs y ≡ true
    → loose_items (item j v xs) y ≡ true
unfolding php_loose_eq
loose_items-step fl j v w xs y found same rest =
    subst
      (λ o.
        elim o as (λ o. Bool) [ none ↦ false | some u ↦ php_loose_eq v u && loose_items xs y ]
        ≡ true)
      (sym found) (rw (same, rest) refl)

suc-zero : (a : ℕ) → nat_eq (suc a) 0 ≡ true → ⊥
suc-zero a h = ground arith

nat_eq-suc : (a b : ℕ) → nat_eq (suc a) (suc b) ≡ true → nat_eq a b ≡ true
nat_eq-suc a b h = ground arith

mutual
  unfolding php_strict_eq php_loose_eq php_compare to_bool

  strict-loose :
      (fl : Floats) (laws : FloatLaws fl) (v w : Value fl)
      → WellKeyed w
      → php_strict_eq v w ≡ true
      → php_loose_eq v w ≡ true
  strict-loose fl laws null null k h = refl
  strict-loose fl laws (bool a) (bool b) k h = ground arith
  strict-loose fl laws (int a) (int b) k h = ground arith
  strict-loose fl laws (float a) (float b) k h = rw (laws.eq-cmp a b h) refl
  strict-loose fl laws (str a) (str b) k h =
      subst (λ t. php_loose_eq {fl = fl} (str a) (str t) ≡ true) (bytes_eq-eq a b h)
        (rw (cmp_texts_self fl laws a (full_numeric fl a)) refl)
  strict-loose fl laws (arr x) (arr y) k h =
      let n = and_left (nat_eq (count_items x) (count_items y)) (strict_items x y) h in
      rw n (
        strict-loose_items fl laws x y y k (λ j u e. e) n
          (and_right (nat_eq (count_items x) (count_items y)) (strict_items x y) h))
  strict-loose fl laws _ _ k h = from_false h

  strict-loose_items :
      (fl : Floats) (laws : FloatLaws fl) (xs ys y : Items fl)
      → WellKeyedItems ys
      → ((j : ArrayKey) (u : Value fl) → item_of j ys ≡ some u → item_of j y ≡ some u)
      → nat_eq (count_items xs) (count_items ys) ≡ true
      → strict_items xs ys ≡ true
      → loose_items xs y ≡ true
  strict-loose_items fl laws no_items ys y k part n h = refl
  strict-loose_items fl laws (item j v xs) no_items y k part n h =
      absurd (suc-zero (count_items xs) n)
  strict-loose_items fl laws (item j v xs) (item i w ys) y k part n h =
      let (same, vs, rest) = strict_items-step fl j i v w xs ys h in
      let found : item_of j y ≡ some w =
        part j w (subst (λ t. item_of j (item t w ys) ≡ some w) same (rw (key_eq_self j) refl)) in
      loose_items-step fl j v w xs y found (strict-loose fl laws v w k.1 vs) (
        strict-loose_items fl laws xs ys y k.2
          (λ l u e. part l u (item_of-later fl i l w u ys k.0 e))
          (nat_eq-suc (count_items xs) (count_items ys) n) rest)

-- What `assertSame` accepts `assertEquals` accepts too, where no array has a key twice and the floats
-- compare as IEEE 754 says.
pub assert_same-assert_equals :
    (fl : Floats) (laws : FloatLaws fl) (v w : Value fl)
    → WellKeyed w
    → assert_same v w ≡ true
    → assert_equals v w ≡ true
unfolding assert_same assert_equals
assert_same-assert_equals fl laws v w = strict-loose fl laws v w
