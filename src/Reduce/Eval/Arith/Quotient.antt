-- ===== src/Reduce/Eval/Arith/Quotient.antt =====
-- The division of `i64`, which truncates, and its remainder, which has the sign of the dividend.
use phpunit_rust.Prelude.{ℕ, suc, ◌+◌, ◌/◌, ◌%◌}
use phpunit_rust.Int.{ℤ, pos, negsuc, pos_part, neg_part, sub_ℕ}

abbrev pub abs : ℤ → ℕ
abs a = pos_part a + neg_part a

unfoldable pub quot : ℤ → ℤ → ℤ
quot (pos a) (pos b) = pos (a / b)
quot (pos a) (negsuc b) = sub_ℕ 0 (a / suc b)
quot (negsuc a) (pos b) = sub_ℕ 0 (suc a / b)
quot (negsuc a) (negsuc b) = pos (suc a / suc b)

unfoldable pub rem : ℤ → ℤ → ℤ
rem (pos a) b = pos (a % abs b)
rem (negsuc a) b = sub_ℕ 0 (suc a % abs b)
