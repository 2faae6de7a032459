-- ===== src/Reduce/Eval/Arith/Division.antt =====
-- crates/analyzer/src/reduce/eval.rs: `/` and `%` on whole numbers.
use native.Mathlib.Nat.{div-add-mod, mod-one, mod-le, mul-mod_left, eq_of_mul-eq-mul_right}
use phpunit_rust.Prelude.{ℕ, suc, ◌+◌, ◌*◌, ◌%◌, ◌≡◌, ◌<◌, ◌≤◌, arith, ap, ◌∙◌, true, false}
use phpunit_rust.Int.{ℤ, pos, negsuc, pos_part, neg_part, sub_ℕ, ◌+ℤ◌, ◌*ℤ◌, eq_ℤ, eq_of_parts}
use phpunit_rust.Reduce.Eval.Arith.Quotient.{quot, rem, abs}

pub quot-rem : (x y : ℤ) → quot x y *ℤ y +ℤ rem x y ≡ x
unfolding quot rem ◌*ℤ◌ ◌+ℤ◌
quot-rem (pos a) (pos b) = let e = div-add-mod a b in ground arith
quot-rem (pos a) (negsuc b) = let e = div-add-mod a (suc b) in ground arith
quot-rem (negsuc a) (pos b) = let e = div-add-mod (suc a) b in ground arith
quot-rem (negsuc a) (negsuc b) = let e = div-add-mod (suc a) (suc b) in ground arith

pub abs-rem : (x y : ℤ) → abs (rem x y) ≡ abs x % abs y
unfolding rem
abs-rem (pos a) y = ground arith
abs-rem (negsuc a) y = ground arith

-- The remainder is of the dividend's sign, and no larger.
pub rem_towards_zero :
    (x y : ℤ) → (pos_part (rem x y) ≤ pos_part x) × (neg_part (rem x y) ≤ neg_part x)
unfolding rem
rem_towards_zero (pos a) y = let e = mod-le a (abs y) in (e, omega arith)
rem_towards_zero (negsuc a) y = let e = mod-le (suc a) (abs y) in (ground arith, ground arith)

pub abs_positive : (y : ℤ) → eq_ℤ y (pos 0) ≡ false → 0 < abs y
abs_positive y h = ground arith

pub eq_ℤ_sound : (x y : ℤ) → eq_ℤ x y ≡ true → x ≡ y
eq_ℤ_sound x y h = ground arith

-- The least whole number leaves nothing when it is divided by -1.
pub rem_minus_one : (x : ℤ) → rem x (negsuc 0) ≡ pos 0
unfolding rem
rem_minus_one (pos a) = let e = mod-one a in ground arith
rem_minus_one (negsuc a) = let e = mod-one (suc a) in ground arith

sub_ℕ-cross : (a b c d : ℕ) → sub_ℕ a b ≡ sub_ℕ c d → a + d ≡ c + b
sub_ℕ-cross a b c d h = let p = ap pos_part h in let n = ap neg_part h in ground arith

-- A factor that is not 0 is cancelled.
pub times_cancel : (n q y : ℤ) → eq_ℤ y (pos 0) ≡ false → n *ℤ y ≡ q *ℤ y → n ≡ q
unfolding ◌*ℤ◌
times_cancel n q (pos b) nonzero h =
    let cross =
      sub_ℕ-cross (pos_part n * b + neg_part n * 0) (pos_part n * 0 + neg_part n * b)
        (pos_part q * b + neg_part q * 0) (pos_part q * 0 + neg_part q * b) h in
    eq_of_parts n q (
      eq_of_mul-eq-mul_right b (ground arith) (pos_part n + neg_part q) (pos_part q + neg_part n)
        (omega arith))
times_cancel n q (negsuc b) nonzero h =
    let cross =
      sub_ℕ-cross (pos_part n * 0 + neg_part n * suc b) (pos_part n * suc b + neg_part n * 0)
        (pos_part q * 0 + neg_part q * suc b) (pos_part q * suc b + neg_part q * 0) h in
    eq_of_parts n q (
      eq_of_mul-eq-mul_right (suc b) (omega arith) (pos_part n + neg_part q)
        (pos_part q + neg_part n) (omega arith))

abs-times : (n y : ℤ) → abs (n *ℤ y) ≡ abs n * abs y
unfolding ◌*ℤ◌
abs-times (pos n) (pos y) = ground arith
abs-times (pos n) (negsuc y) = ground arith
abs-times (negsuc n) (pos y) = ground arith
abs-times (negsuc n) (negsuc y) = ground arith

abs_zero : (x : ℤ) → abs x ≡ 0 → x ≡ pos 0
abs_zero x h = ground arith

-- A multiple leaves nothing.
pub rem-times : (n y : ℤ) → rem (n *ℤ y) y ≡ pos 0
rem-times n y =
    abs_zero (rem (n *ℤ y) y)
      (abs-rem (n *ℤ y) y ∙ ap (λ k. k % abs y) (abs-times n y) ∙ mul-mod_left (abs n) (abs y))
