-- ===== src/Reduce/Eval/Assertions/Verdict.antt =====
-- crates/analyzer/src/reduce/eval.rs: a verdict on the arguments of an assertion, without guards.
use phpunit_rust.Prelude.{
  Bool, true, false, not, ◌≡◌, refl, sym, ap, ◌∙◌, List, [], ◌∷◌, if◌then◌else◌, String,
}
use phpunit_rust.Int.{pos, eq_ℤ}
use phpunit_rust.Reduce.Floats.{Floats}
use phpunit_rust.Reduce.Value.{Value, null, bool, int, str, arr, count_items}
use phpunit_rust.Reduce.Eval.{ok, ok_eq}
use phpunit_rust.Reduce.Eval.Guards.Reference.{Oracle, php_identical, phpunit_equal}
use phpunit_rust.Reduce.Eval.Assertions.{
  Assertion, same, not_same, equals, not_equals, is_true, is_false, is_null, is_not_null, counted,
  not_counted, is_array, two_args, one_arg, count_matches,
}

abbrev pub is_count : {fl : Floats} → Value fl → Value fl → Bool
is_count (int n) (arr xs) = eq_ℤ (pos (count_items xs)) n
is_count _ _ = false

-- The verdict of PHPUnit on the expected and the actual value.
unfoldable pub judge_two : {fl : Floats} → Oracle fl → Assertion → Value fl → Value fl → Bool
judge_two ask same e a = php_identical ask e a
judge_two ask not_same e a = not (php_identical ask e a)
judge_two ask equals e a = phpunit_equal ask e a
judge_two ask not_equals e a = not (phpunit_equal ask e a)
judge_two ask counted e a = is_count e a
judge_two ask not_counted e a = not (is_count e a)
judge_two ask _ e a = false

-- The verdict of PHPUnit on one value.
unfoldable pub judge_one : {fl : Floats} → Assertion → Value fl → Bool
judge_one is_true (bool true) = true
judge_one is_false (bool false) = true
judge_one is_null null = true
judge_one is_not_null null = false
judge_one is_not_null a = true
judge_one is_array (arr xs) = true
judge_one _ a = false

-- What an assertion takes: two values, or one.
abbrev pub is_pair : Assertion → Bool
is_pair same = true
is_pair not_same = true
is_pair equals = true
is_pair not_equals = true
is_pair counted = true
is_pair not_counted = true
is_pair _ = false

-- The verdict on the arguments. The message that follows the values has no say.
unfoldable pub judge : {fl : Floats} → Oracle fl → Assertion → List (Value fl) → Bool
unfolding judge_two judge_one
judge ask x [] = false
judge ask x (e ∷ []) = judge_one x e
judge ask x (e ∷ a ∷ rest) = if is_pair x then judge_two ask x e a else judge_one x e

abbrev pub label : Assertion → String
label same = "assertSame"
label not_same = "assertNotSame"
label equals = "assertEquals"
label not_equals = "assertNotEquals"
label is_true = "assertTrue"
label is_false = "assertFalse"
label is_null = "assertNull"
label is_not_null = "assertNotNull"
label counted = "assertCount"
label not_counted = "assertNotCount"
label is_array = "assertIsArray"

two_args-shape :
    {fl : Floats} (args : List (Value fl)) (p : Value fl × Value fl)
    → two_args args ≡ ok p
    → (rest : List (Value fl)) × (args ≡ p.0 ∷ p.1 ∷ rest)
unfolding two_args
two_args-shape (e ∷ a ∷ []) p h = let e : (e, a) ≡ p = ok_eq h in ([], cc)
two_args-shape (e ∷ a ∷ str m ∷ []) p h = let e : (e, a) ≡ p = ok_eq h in (str m ∷ [], cc)
two_args-shape _ p h = cc

one_arg-shape :
    {fl : Floats} (args : List (Value fl)) (a : Value fl)
    → one_arg args ≡ ok a
    → (rest : List (Value fl)) × (args ≡ a ∷ rest)
unfolding one_arg
one_arg-shape (a ∷ []) b h = ([], cc)
one_arg-shape (a ∷ str m ∷ []) b h = (str m ∷ [], cc)
one_arg-shape _ b h = cc

pub count_matches-is_count :
    {fl : Floats} (e h : Value fl) (b : Bool) → count_matches e h ≡ ok b → b ≡ is_count e h
unfolding count_matches
count_matches-is_count (int n) (arr xs) b e = sym (ok_eq e)
count_matches-is_count _ (arr xs) b e = cc
count_matches-is_count _ _ b e = cc

module _ {fl : Floats} (ask : Oracle fl) where
  pub judge-two :
      (x : Assertion) (args : List (Value fl)) (p : Value fl × Value fl)
      → is_pair x ≡ true
      → two_args args ≡ ok p
      → judge ask x args ≡ judge_two ask x p.0 p.1
  unfolding judge
  judge-two x args p pair h =
      let (rest, e) = two_args-shape args p h in ap (judge ask x) e ∙ rw pair refl

  judge-first :
      (x : Assertion) (a : Value fl) (rest : List (Value fl))
      → is_pair x ≡ false
      → judge ask x (a ∷ rest) ≡ judge_one x a
  unfolding judge
  judge-first x a [] single = refl
  judge-first x a (b ∷ rest) single = rw single refl

  pub judge-one :
      (x : Assertion) (args : List (Value fl)) (a : Value fl)
      → is_pair x ≡ false
      → one_arg args ≡ ok a
      → judge ask x args ≡ judge_one x a
  judge-one x args a single h =
      let (rest, e) = one_arg-shape args a h in ap (judge ask x) e ∙ judge-first x a rest single
