-- ===== src/Examples/Terms.antt =====
-- `(a + 1) + (new C(b))->f`, and the decisions on it.
use phpunit_rust.Prelude.{ℕ, false, ◌≡◌, ◌⊎◌, refl, [], ◌∷◌, some, if◌then◌else◌, arith}
use phpunit_rust.Int.{pos, negsuc, ◌+ℤ◌, ◌*ℤ◌}
use phpunit_rust.Reduce.Value.{bytes_eq}
use phpunit_rust.Reduce.Term.{
  add, mul, Term, int, str, bin, obj, field, opaque, no_fields, entry, decided_true, decided_false,
  unknown, term_cmp, term_eq, size,
}
use phpunit_rust.Reduce.Term.Simplify.{
  reduce, reduce_within, round, last_of, reduce_field, reduce_op, reduce_commutative, flatten,
  split_operands, insert_term, sort, chain, rebuild,
}
use phpunit_rust.Reduce.Term.Simplify.Rounds.{reduce_ends}
use phpunit_rust.Reduce.Term.Meaning.{Givens, num, den, quoted}
use phpunit_rust.Reduce.Term.Meaning.Kept.{reduce_keeps, reduce_closed}
use phpunit_rust.Reduce.Term.Decide.{
  contains_sym, same_reduced, eq_reduced, trim_start, trim_end, scan_digits, is_numeric_str,
  decide_same, decide_eq,
}
use phpunit_rust.Reduce.Value.Compare.{cmp_bytes}
use phpunit_rust.Reduce.Term.Decide.Sound.{
  Justified, JustifiedEq, constructing, decide_same-Justified, decide_eq-Justified,
}

abbrev a : Term
a = Term.sym (97 ∷ [])

abbrev b : Term
b = Term.sym (98 ∷ [])

abbrev through_object : Term
through_object = field (obj (67 ∷ []) (entry (102 ∷ []) b no_fields)) (102 ∷ [])

abbrev left_term : Term
left_term = bin add (bin add a (int (pos 1))) through_object

abbrev right_term : Term
right_term = bin add b (bin add (int (pos 1)) a)

-- `a` is 3 and all else is 4.
abbrev given : Givens
given = record {
  value_of = λ x. if bytes_eq x (97 ∷ []) then some (num (pos 3)) else some (num (pos 4));
  own_handle = 0;
}

left_8 : (h : ℕ) → den (constructing h given) left_term ≡ some (num (pos 8))
unfolding den ◌+ℤ◌
left_8 h = refl

right_8 : (h : ℕ) → den (constructing h given) right_term ≡ some (num (pos 8))
unfolding den ◌+ℤ◌
right_8 h = refl

-- `2 * 3`.
abbrev product : Term
product = bin mul (int (pos 2)) (int (pos 3))

product_6 : den given product ≡ some (num (pos 6))
unfolding den ◌*ℤ◌
product_6 = refl

product_closed : contains_sym (reduce product) ≡ false
unfolding reduce reduce_within size round reduce_op reduce_commutative flatten split_operands sort
    insert_term rebuild chain ◌*ℤ◌
product_closed = refl

reduce_ends_example :
    (reduce_within 20 left_term ≡ reduce left_term) × (reduce left_term ≡ round reduce left_term)
reduce_ends_example = reduce_ends left_term 20 (unfold size in ground arith)

reduce_keeps_example :
    (reduce left_term ≡ opaque) ⊎ (den given (reduce left_term) ≡ some (num (pos 8)))
reduce_keeps_example = reduce_keeps given left_term (num (pos 8)) (left_8 0)

reduce_closed_example : (reduce product ≡ opaque) ⊎ (reduce product ≡ quoted (num (pos 6)))
reduce_closed_example = reduce_closed given product (num (pos 6)) product_6 product_closed

decide_same-Justified_example :
    Justified (decide_same left_term right_term) (num (pos 8)) (num (pos 8))
decide_same-Justified_example =
    decide_same-Justified given 0 1 left_term right_term (num (pos 8)) (num (pos 8)) (left_8 0)
      (right_8 1)

decide_eq-Justified_example :
    JustifiedEq (decide_eq left_term right_term) (num (pos 8)) (num (pos 8))
decide_eq-Justified_example =
    decide_eq-Justified given left_term right_term (num (pos 8)) (num (pos 8)) (left_8 0)
      (right_8 0)

-- Both sides are `(a + b) + 1`.
decided_same : decide_same left_term right_term ≡ decided_true
unfolding decide_same same_reduced term_eq term_cmp cmp_bytes last_of reduce_field reduce
    reduce_within size round reduce_op reduce_commutative flatten split_operands sort insert_term
    rebuild chain ◌+ℤ◌
decided_same = refl

-- `"1e3"` and `"1000"`.
decided_exponent :
    decide_eq (str (49 ∷ 101 ∷ 51 ∷ [])) (str (49 ∷ 48 ∷ 48 ∷ 48 ∷ [])) ≡ decided_false
unfolding decide_eq eq_reduced term_eq is_numeric_str trim_start trim_end scan_digits reduce
    reduce_within size round
decided_exponent = refl

-- `(a + 1) + (-1)` and `a`.
decided_regrouped :
    decide_same (bin add (bin add a (int (pos 1))) (int (negsuc 0))) a ≡ decided_true
unfolding decide_same same_reduced term_eq term_cmp cmp_bytes reduce reduce_within size round
    reduce_op reduce_commutative flatten split_operands sort insert_term rebuild chain ◌+ℤ◌
decided_regrouped = refl

-- `new C` on both sides.
abbrev new_c : Term
new_c = obj (67 ∷ []) no_fields

undecided_new : decide_same new_c new_c ≡ unknown
unfolding decide_same same_reduced reduce reduce_within size round
undecided_new = refl
