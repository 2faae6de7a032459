-- ===== src/Reduce/Term.antt =====
-- crates/analyzer/src/reduce/term.rs: the symbolic terms, their order and their equality. A text is
-- the list of its bytes; fields and items are lists of their own.
pub mod Simplify
pub mod Meaning
pub mod Decide
pub mod Equal
use phpunit_rust.Prelude.{
  ℕ, zero, suc, ◌+◌, Bool, true, false, not, ◌&&◌, ◌||◌, List, [], ◌∷◌, nat_eq, Option, none, some,
  if◌then◌else◌, Ordering, compare,
}
use phpunit_rust.Int.{ℤ, eq_ℤ, compare_ℤ}
use phpunit_rust.Reduce.Value.{Bytes, bytes_eq, bool_eq}
use phpunit_rust.Reduce.Value.Compare.{cmp_bytes, then_compare, is_equal}

pub data Op : Type 0 where
  add mul sub : Op

mutual
  pub data Term : Type 0 where
    sym : Bytes → Term
    int : ℤ → Term
    bool : Bool → Term
    str : Bytes → Term
    bin : Op → Term → Term → Term
    obj : Bytes → Fields → Term
    field : Term → Bytes → Term
    list : Terms → Term
    len : Term → Term
    opaque : Term

  pub data Fields : Type 0 where
    no_fields : Fields
    entry : Bytes → Term → Fields → Fields

  pub data Terms : Type 0 where
    no_terms : Terms
    term : Term → Terms → Terms

pub data Decision : Type 0 where
  decided_true decided_false unknown : Decision

abbrev pub op_rank : Op → ℕ
op_rank add = 0
op_rank mul = 1
op_rank sub = 2

abbrev pub op_eq : Op → Op → Bool
op_eq p q = nat_eq (op_rank p) (op_rank q)

-- The place of a variant in the enumeration.
abbrev pub rank : Term → ℕ
rank (sym x) = 0
rank (int i) = 1
rank (bool b) = 2
rank (str s) = 3
rank (bin o a b) = 4
rank (obj c fs) = 5
rank (field t n) = 6
rank (list ts) = 7
rank (len t) = 8
rank opaque = 9

abbrev pub bool_rank : Bool → ℕ
bool_rank false = 0
bool_rank true = 1

-- `#[derive(Ord)]`: by variant, then by the contents from left to right.
unfoldable mutual
  pub term_cmp : Term → Term → Ordering
  term_cmp (sym x) (sym y) = cmp_bytes x y
  term_cmp (int i) (int j) = compare_ℤ i j
  term_cmp (bool b) (bool c) = compare (bool_rank b) (bool_rank c)
  term_cmp (str s) (str t) = cmp_bytes s t
  term_cmp (bin o a b) (bin p c d) =
      then_compare (compare (op_rank o) (op_rank p)) (then_compare (term_cmp a c) (term_cmp b d))
  term_cmp (obj c fs) (obj d gs) = then_compare (cmp_bytes c d) (fields_cmp fs gs)
  term_cmp (field t n) (field u m) = then_compare (term_cmp t u) (cmp_bytes n m)
  term_cmp (list ts) (list us) = terms_cmp ts us
  term_cmp (len t) (len u) = term_cmp t u
  term_cmp t u = compare (rank t) (rank u)

  pub fields_cmp : Fields → Fields → Ordering
  fields_cmp no_fields no_fields = Ordering.eq
  fields_cmp no_fields (entry m u gs) = Ordering.lt
  fields_cmp (entry n t fs) no_fields = Ordering.gt
  fields_cmp (entry n t fs) (entry m u gs) =
      then_compare (then_compare (cmp_bytes n m) (term_cmp t u)) (fields_cmp fs gs)

  pub terms_cmp : Terms → Terms → Ordering
  terms_cmp no_terms no_terms = Ordering.eq
  terms_cmp no_terms (term u us) = Ordering.lt
  terms_cmp (term t ts) no_terms = Ordering.gt
  terms_cmp (term t ts) (term u us) = then_compare (term_cmp t u) (terms_cmp ts us)

-- `#[derive(PartialEq)]`.
unfoldable mutual
  pub term_eq : Term → Term → Bool
  term_eq (sym x) (sym y) = bytes_eq x y
  term_eq (int i) (int j) = eq_ℤ i j
  term_eq (bool b) (bool c) = bool_eq b c
  term_eq (str s) (str t) = bytes_eq s t
  term_eq (bin o a b) (bin p c d) = op_eq o p && (term_eq a c && term_eq b d)
  term_eq (obj c fs) (obj d gs) = bytes_eq c d && fields_eq fs gs
  term_eq (field t n) (field u m) = term_eq t u && bytes_eq n m
  term_eq (list ts) (list us) = terms_eq ts us
  term_eq (len t) (len u) = term_eq t u
  term_eq opaque opaque = true
  term_eq _ _ = false

  pub fields_eq : Fields → Fields → Bool
  fields_eq no_fields no_fields = true
  fields_eq (entry n t fs) (entry m u gs) = bytes_eq n m && (term_eq t u && fields_eq fs gs)
  fields_eq _ _ = false

  pub terms_eq : Terms → Terms → Bool
  terms_eq no_terms no_terms = true
  terms_eq (term t ts) (term u us) = term_eq t u && terms_eq ts us
  terms_eq _ _ = false

-- The number of constructors, which bounds the rounds of the simplifier.
unfoldable mutual
  pub size : Term → ℕ
  size (sym x) = 1
  size (int i) = 1
  size (bool b) = 1
  size (str s) = 1
  size (bin o a b) = suc (size a + size b)
  size (obj c fs) = suc (size_fields fs)
  size (field t n) = suc (size t)
  size (list ts) = suc (size_terms ts)
  size (len t) = suc (size t)
  size opaque = 1

  pub size_fields : Fields → ℕ
  size_fields no_fields = 0
  size_fields (entry n t fs) = size t + size_fields fs

  pub size_terms : Terms → ℕ
  size_terms no_terms = 0
  size_terms (term t ts) = size t + size_terms ts
