-- ===== src/Int/Product.antt =====
-- The laws of the product of integers.
use phpunit_rust.Prelude.{ℕ, ◌+◌, ◌*◌, ◌≡◌, sym, ap, ap₂, ◌∙◌, arith}
use phpunit_rust.Int.{ℤ, pos, negsuc, pos_part, neg_part, sub_ℕ, ◌*ℤ◌}

sub_ℕ-eq : (a b c d : ℕ) → a + d ≡ c + b → sub_ℕ a b ≡ sub_ℕ c d
sub_ℕ-eq a b c d h = ground arith

sub_ℕ-parts : (a b : ℕ) → pos_part (sub_ℕ a b) + b ≡ a + neg_part (sub_ℕ a b)
sub_ℕ-parts a b = ground arith

-- Equal differences have equal multiples.
scale :
    (p n a b c d : ℕ)
    → p + b ≡ a + n
    → p * c + n * d + (a * d + b * c) ≡ a * c + b * d + (p * d + n * c)
scale p n a b c d h =
    let up : (p + b) * c ≡ (a + n) * c = ap (λ x. x * c) h in
    let down : (p + b) * d ≡ (a + n) * d = ap (λ x. x * d) h in omega arith

pub *ℤ_comm : (a b : ℤ) → a *ℤ b ≡ b *ℤ a
unfolding ◌*ℤ◌
*ℤ_comm a b = ap₂ sub_ℕ (omega arith) (omega arith)

pub *ℤ_one : (a : ℤ) → a *ℤ pos 1 ≡ a
unfolding ◌*ℤ◌
*ℤ_one (pos n) = ground arith
*ℤ_one (negsuc n) = ground arith

-- A product of three, its factors multiplied out.
sub_ℕ-*ℤ :
    (a b : ℕ) (c : ℤ)
    → sub_ℕ a b *ℤ c ≡ sub_ℕ (a * pos_part c + b * neg_part c) (a * neg_part c + b * pos_part c)
unfolding ◌*ℤ◌
sub_ℕ-*ℤ a b c =
    let p = pos_part (sub_ℕ a b) in
    let n = neg_part (sub_ℕ a b) in
    sub_ℕ-eq (p * pos_part c + n * neg_part c) (p * neg_part c + n * pos_part c)
      (a * pos_part c + b * neg_part c) (a * neg_part c + b * pos_part c)
      (scale p n a b (pos_part c) (neg_part c) (sub_ℕ-parts a b))

pub *ℤ_assoc : (a b c : ℤ) → a *ℤ b *ℤ c ≡ a *ℤ (b *ℤ c)
unfolding ◌*ℤ◌
*ℤ_assoc a b c =
    let ap = pos_part a in
    let an = neg_part a in
    let bp = pos_part b in
    let bn = neg_part b in
    let cp = pos_part c in
    let cn = neg_part c in
    sub_ℕ-*ℤ (ap * bp + an * bn) (ap * bn + an * bp) c
    ∙ ap₂ sub_ℕ (omega arith) (omega arith)
    ∙ sym (sub_ℕ-*ℤ (bp * cp + bn * cn) (bp * cn + bn * cp) a)
    ∙ *ℤ_comm (b *ℤ c) a
