-- ===== src/Reduce/Term/Equal.antt =====
-- crates/analyzer/src/reduce/term.rs: the derived equality of terms.
use phpunit_rust.Prelude.{
  Bool, true, ◌&&◌, ◌≡◌, refl, ap, ap₂, ◌∙◌, arith, from_false, and_left, and_right,
}
use phpunit_rust.Reduce.Value.{bytes_eq, bool_eq}
use phpunit_rust.Reduce.Value.Compare.Laws.{bytes_eq-eq, bytes_eq_self, eq_ℤ-eq}
use phpunit_rust.Reduce.Term.{
  Op, Term, int, bool, str, bin, obj, field, list, len, opaque, Fields, no_fields, entry, Terms,
  no_terms, term, op_eq, term_eq, fields_eq, terms_eq,
}

pub op_eq-eq : (o p : Op) → op_eq o p ≡ true → o ≡ p
op_eq-eq o p h = ground arith

bool_eq-eq : (b c : Bool) → bool_eq b c ≡ true → b ≡ c
bool_eq-eq b c h = ground arith

mutual
  unfolding term_eq

  pub term_eq-eq : (t u : Term) → term_eq t u ≡ true → t ≡ u
  term_eq-eq (Term.sym x) (Term.sym y) h = ap Term.sym (bytes_eq-eq x y h)
  term_eq-eq (int i) (int j) h = ap int (eq_ℤ-eq i j h)
  term_eq-eq (bool b) (bool c) h = ap bool (bool_eq-eq b c h)
  term_eq-eq (str s) (str t) h = ap str (bytes_eq-eq s t h)
  term_eq-eq (bin o a b) (bin p c d) h =
      let rest = and_right (op_eq o p) (term_eq a c && term_eq b d) h in
      let same_op = op_eq-eq o p (and_left (op_eq o p) (term_eq a c && term_eq b d) h) in
      let left = term_eq-eq a c (and_left (term_eq a c) (term_eq b d) rest) in
      let right = term_eq-eq b d (and_right (term_eq a c) (term_eq b d) rest) in
      ap (λ q. bin q a b) same_op ∙ ap₂ (bin p) left right
  term_eq-eq (obj c fs) (obj d gs) h =
      ap₂ obj (bytes_eq-eq c d (and_left (bytes_eq c d) (fields_eq fs gs) h))
        (fields_eq-eq fs gs (and_right (bytes_eq c d) (fields_eq fs gs) h))
  term_eq-eq (field t n) (field u m) h =
      ap₂ field (term_eq-eq t u (and_left (term_eq t u) (bytes_eq n m) h))
        (bytes_eq-eq n m (and_right (term_eq t u) (bytes_eq n m) h))
  term_eq-eq (list ts) (list us) h = ap list (terms_eq-eq ts us h)
  term_eq-eq (len t) (len u) h = ap len (term_eq-eq t u h)
  term_eq-eq opaque opaque h = refl
  term_eq-eq _ _ h = from_false h

  fields_eq-eq : (fs gs : Fields) → fields_eq fs gs ≡ true → fs ≡ gs
  fields_eq-eq no_fields no_fields h = refl
  fields_eq-eq (entry n t fs) (entry m u gs) h =
      let rest = and_right (bytes_eq n m) (term_eq t u && fields_eq fs gs) h in
      let name = bytes_eq-eq n m (and_left (bytes_eq n m) (term_eq t u && fields_eq fs gs) h) in
      let value = term_eq-eq t u (and_left (term_eq t u) (fields_eq fs gs) rest) in
      let more = fields_eq-eq fs gs (and_right (term_eq t u) (fields_eq fs gs) rest) in
      ap (λ k. entry k t fs) name ∙ ap₂ (entry m) value more
  fields_eq-eq _ _ h = from_false h

  terms_eq-eq : (ts us : Terms) → terms_eq ts us ≡ true → ts ≡ us
  terms_eq-eq no_terms no_terms h = refl
  terms_eq-eq (term t ts) (term u us) h =
      ap₂ term (term_eq-eq t u (and_left (term_eq t u) (terms_eq ts us) h))
        (terms_eq-eq ts us (and_right (term_eq t u) (terms_eq ts us) h))
  terms_eq-eq _ _ h = from_false h

true_and : {a b : Bool} → a ≡ true → b ≡ true → (a && b) ≡ true
true_and ha hb = rw (ha, hb) refl

mutual
  unfolding term_eq

  pub term_eq_self : (t : Term) → term_eq t t ≡ true
  term_eq_self (Term.sym x) = bytes_eq_self x
  term_eq_self (int i) = ground arith
  term_eq_self (bool b) = ground arith
  term_eq_self (str s) = bytes_eq_self s
  term_eq_self (bin o a b) = true_and (ground arith) (true_and (term_eq_self a) (term_eq_self b))
  term_eq_self (obj c fs) = true_and (bytes_eq_self c) (fields_eq_self fs)
  term_eq_self (field t n) = true_and (term_eq_self t) (bytes_eq_self n)
  term_eq_self (list ts) = terms_eq_self ts
  term_eq_self (len t) = term_eq_self t
  term_eq_self opaque = refl

  fields_eq_self : (fs : Fields) → fields_eq fs fs ≡ true
  fields_eq_self no_fields = refl
  fields_eq_self (entry n t fs) =
      true_and (bytes_eq_self n) (true_and (term_eq_self t) (fields_eq_self fs))

  terms_eq_self : (ts : Terms) → terms_eq ts ts ≡ true
  terms_eq_self no_terms = refl
  terms_eq_self (term t ts) = true_and (term_eq_self t) (terms_eq_self ts)
