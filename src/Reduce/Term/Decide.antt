-- ===== src/Reduce/Term/Decide.antt =====
-- crates/analyzer/src/reduce/term.rs: the two decisions, on the normal forms. A text is its UTF-8
-- bytes, so that a white space of two or three bytes is trimmed as such.
pub mod Poison
pub mod Sound
use phpunit_rust.Prelude.{
  ℕ, Bool, true, false, not, ◌&&◌, ◌||◌, List, [], ◌∷◌, nat_eq, leb, if◌then◌else◌,
}
use phpunit_rust.Int.{ℤ}
use phpunit_rust.Reduce.Value.{Bytes}
use phpunit_rust.Reduce.Term.{
  Op, Term, sym, int, bool, str, bin, obj, field, list, len, opaque, Fields, no_fields, entry,
  Terms, no_terms, term, Decision, decided_true, decided_false, unknown, term_eq,
}
use phpunit_rust.Reduce.Term.Simplify.{reduce}

abbrev mutual
  pub contains_obj : Term → Bool
  contains_obj (obj c fs) = true
  contains_obj (bin o a b) = contains_obj a || contains_obj b
  contains_obj (field t n) = contains_obj t
  contains_obj (list ts) = any_obj ts
  contains_obj (len t) = contains_obj t
  contains_obj _ = false

  pub any_obj : Terms → Bool
  any_obj no_terms = false
  any_obj (term t ts) = contains_obj t || any_obj ts

abbrev mutual
  pub contains_sym : Term → Bool
  contains_sym (sym x) = true
  contains_sym (bin o a b) = contains_sym a || contains_sym b
  contains_sym (field t n) = contains_sym t
  contains_sym (obj c fs) = any_sym_field fs
  contains_sym (list ts) = any_sym ts
  contains_sym (len t) = contains_sym t
  contains_sym _ = false

  pub any_sym_field : Fields → Bool
  any_sym_field no_fields = false
  any_sym_field (entry n t fs) = contains_sym t || any_sym_field fs

  pub any_sym : Terms → Bool
  any_sym no_terms = false
  any_sym (term t ts) = contains_sym t || any_sym ts

abbrev mutual
  pub contains_opaque : Term → Bool
  contains_opaque opaque = true
  contains_opaque (bin o a b) = contains_opaque a || contains_opaque b
  contains_opaque (field t n) = contains_opaque t
  contains_opaque (obj c fs) = opaque_in_field fs
  contains_opaque (list ts) = opaque_in ts
  contains_opaque (len t) = contains_opaque t
  contains_opaque _ = false

  pub opaque_in_field : Fields → Bool
  opaque_in_field no_fields = false
  opaque_in_field (entry n t fs) = contains_opaque t || opaque_in_field fs

  pub opaque_in : Terms → Bool
  opaque_in no_terms = false
  opaque_in (term t ts) = contains_opaque t || opaque_in ts

abbrev is_concrete_scalar : Term → Bool
is_concrete_scalar (int i) = true
is_concrete_scalar (bool b) = true
is_concrete_scalar (str s) = true
is_concrete_scalar _ = false

-- The white space of `char::is_whitespace`, by the bytes of its UTF-8 encoding.
abbrev space_1 : ℕ → Bool
space_1 a = (leb 9 a && leb a 13) || nat_eq a 32

abbrev space_2 : ℕ → ℕ → Bool
space_2 a b = nat_eq a 194 && (nat_eq b 133 || nat_eq b 160)

abbrev space_3 : ℕ → ℕ → ℕ → Bool
space_3 a b c =
    nat_eq a 225 && (nat_eq b 154 && nat_eq c 128)
    || nat_eq a 226
      && (nat_eq b 128 && (leb 128 c && leb c 138 || nat_eq c 168 || nat_eq c 169 || nat_eq c 175)
          || nat_eq b 129 && nat_eq c 159)
    || nat_eq a 227 && (nat_eq b 128 && nat_eq c 128)

unfoldable pub trim_start : Bytes → Bytes
trim_start [] = []
trim_start (a ∷ []) = if space_1 a then [] else a ∷ []
trim_start (a ∷ b ∷ []) =
    let one = trim_start (b ∷ []) in
    if space_1 a then one else if space_2 a b then [] else a ∷ b ∷ []
trim_start (a ∷ b ∷ c ∷ s) =
    let one = trim_start (b ∷ c ∷ s) in
    let two = trim_start (c ∷ s) in
    let three = trim_start s in
    if space_1 a
    then one
    else if space_2 a b
    then two
    else if space_3 a b c
    then three
    else a ∷ b ∷ c ∷ s

abbrev is_blank : Bytes → Bool
is_blank [] = true
is_blank (c ∷ cs) = false

-- The text up to its last character that is no white space.
unfoldable pub trim_end : Bytes → Bytes
trim_end [] = []
trim_end (a ∷ s) = let rest = trim_end s in if is_blank (trim_start (a ∷ s)) then [] else a ∷ rest

abbrev is_sign : ℕ → Bool
is_sign c = nat_eq c 43 || nat_eq c 45

abbrev strip_sign : Bytes → Bytes
strip_sign [] = []
strip_sign (c ∷ cs) = if is_sign c then cs else c ∷ cs

-- The loop over the characters, with `seen_dot` and `seen_digit`.
unfoldable pub scan_digits : Bool → Bool → Bytes → Bool
scan_digits dot digit [] = digit
scan_digits dot digit (c ∷ cs) =
    let after_digit = scan_digits dot true cs in
    let after_dot = scan_digits true digit cs in
    if leb 48 c && leb c 57
    then after_digit
    else if nat_eq c 46 && not dot
    then after_dot
    else false

unfoldable pub is_numeric_str : Bytes → Bool
is_numeric_str s = scan_digits false false (strip_sign (trim_end (trim_start s)))

-- `decide_same`, once both sides are reduced.
unfoldable pub same_reduced : Term → Term → Decision
same_reduced ra rb =
    if contains_opaque ra || contains_opaque rb
    then unknown
    else if contains_obj ra || contains_obj rb
    then unknown
    else if term_eq ra rb
    then decided_true
    else if not (contains_sym ra) && not (contains_sym rb)
    then decided_false
    else unknown

unfoldable pub decide_same : Term → Term → Decision
decide_same a b = same_reduced (reduce a) (reduce b)

-- The verdict on two concrete scalars that differ.
abbrev differ : Term → Term → Decision
differ (int i) (int j) = decided_false
differ (bool b) (bool c) = decided_false
differ (str s) (str t) = if is_numeric_str s && is_numeric_str t then unknown else decided_false
differ _ _ = unknown

-- `decide_eq`, once both sides are reduced.
unfoldable pub eq_reduced : Term → Term → Decision
eq_reduced ra rb =
    if contains_opaque ra || contains_opaque rb
    then unknown
    else if term_eq ra rb
    then decided_true
    else if is_concrete_scalar ra && is_concrete_scalar rb
    then differ ra rb
    else unknown

unfoldable pub decide_eq : Term → Term → Decision
decide_eq a b = eq_reduced (reduce a) (reduce b)
