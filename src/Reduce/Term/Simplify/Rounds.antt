-- ===== src/Reduce/Term/Simplify/Rounds.antt =====
-- crates/analyzer/src/reduce/term.rs: the fuel that the recursion of `reduce` takes.
use phpunit_rust.Prelude.{
  ℕ, zero, suc, ◌≤◌, ◌||◌, ◌≡◌, refl, ap, ap₂, ◌∙◌, Option, none, some, if◌then◌else◌, arith,
}
use phpunit_rust.Reduce.Value.{Bytes}
use phpunit_rust.Reduce.Term.{
  Term, int, bool, str, bin, obj, field, list, len, opaque, Fields, no_fields, entry, Terms,
  no_terms, term, size, size_fields, size_terms,
}
use phpunit_rust.Reduce.Term.Simplify.{
  is_opaque, last_of, map_fields, map_terms, any_opaque_field, any_opaque, found_or, reduce_field,
  reduce_len, reduce_op, round, reduce_within, reduce,
}
use phpunit_rust.Reduce.Term.Simplify.Size.{size_pos}
use phpunit_rust.Reduce.Term.Simplify.Shrinks.{Shrinks, size-last_of, reduce_within-Shrinks}

-- Two simplifiers that do the same with every term up to a size.
abbrev Agree : ℕ → (Term → Term) → (Term → Term) → Type 0
Agree n p q = (t : Term) → size t ≤ n → p t ≡ q t

map_fields-Agree :
    (n : ℕ) (p q : Term → Term) (fs : Fields)
    → Agree n p q
    → size_fields fs ≤ n
    → map_fields p fs ≡ map_fields q fs
unfolding size
map_fields-Agree n p q no_fields agree h = refl
map_fields-Agree n p q (entry m t fs) agree h =
    ap₂ (entry m) (agree t (omega arith)) (map_fields-Agree n p q fs agree (omega arith))

map_terms-Agree :
    (n : ℕ) (p q : Term → Term) (ts : Terms)
    → Agree n p q
    → size_terms ts ≤ n
    → map_terms p ts ≡ map_terms q ts
unfolding size
map_terms-Agree n p q no_terms agree h = refl
map_terms-Agree n p q (term t ts) agree h =
    ap₂ term (agree t (omega arith)) (map_terms-Agree n p q ts agree (omega arith))

found_or-Agree :
    (n : ℕ) (p q : Term → Term) (stuck : Term) (o : Option Term)
    → Agree n p q
    → ((t : Term) → o ≡ some t → size t ≤ n)
    → found_or p stuck o ≡ found_or q stuck o
found_or-Agree n p q stuck none agree h = refl
found_or-Agree n p q stuck (some t) agree h = agree t (h t refl)

reduce_field-Agree :
    (n : ℕ) (p q : Term → Term) (r : Term) (m : Bytes)
    → Agree n p q
    → size r ≤ n
    → reduce_field p r m ≡ reduce_field q r m
unfolding reduce_field size
reduce_field-Agree n p q (obj c fs) m agree h =
    found_or-Agree n p q (field (obj c fs) m) (last_of m fs) agree
      (λ t e. let inside = size-last_of m fs t e in omega arith)
reduce_field-Agree n p q (Term.sym x) m agree h = refl
reduce_field-Agree n p q (int i) m agree h = refl
reduce_field-Agree n p q (bool b) m agree h = refl
reduce_field-Agree n p q (str s) m agree h = refl
reduce_field-Agree n p q (bin o a b) m agree h = refl
reduce_field-Agree n p q (field t k) m agree h = refl
reduce_field-Agree n p q (list ts) m agree h = refl
reduce_field-Agree n p q (len t) m agree h = refl
reduce_field-Agree n p q opaque m agree h = refl

-- A round reads its simplifier on smaller terms only.
round-Agree :
    (n : ℕ) (p q : Term → Term) (t : Term)
    → Agree n p q
    → Shrinks p
    → size t ≤ suc n
    → round p t ≡ round q t
unfolding round size
round-Agree n p q (field t m) agree shrinks h =
    let small : size t ≤ n = omega arith in
    let smaller = shrinks t in
    reduce_field-Agree n p q (p t) m agree (omega arith)
    ∙ ap (λ u. reduce_field q u m) (agree t small)
round-Agree n p q (obj c fs) agree shrinks h =
    ap (λ gs. if any_opaque_field gs then opaque else obj c gs)
      (map_fields-Agree n p q fs agree (omega arith))
round-Agree n p q (list ts) agree shrinks h =
    ap (λ us. if any_opaque us then opaque else list us)
      (map_terms-Agree n p q ts agree (omega arith))
round-Agree n p q (len t) agree shrinks h = ap reduce_len (agree t (omega arith))
round-Agree n p q (bin op a b) agree shrinks h =
    ap₂ (λ u v. if is_opaque u || is_opaque v then opaque else reduce_op op u v)
      (agree a (omega arith)) (agree b (omega arith))
round-Agree n p q (Term.sym x) agree shrinks h = refl
round-Agree n p q (int i) agree shrinks h = refl
round-Agree n p q (bool b) agree shrinks h = refl
round-Agree n p q (str s) agree shrinks h = refl
round-Agree n p q opaque agree shrinks h = refl

reduce_within-Agree : (n f g : ℕ) → n ≤ f → n ≤ g → Agree n (reduce_within f) (reduce_within g)
unfolding reduce_within
reduce_within-Agree zero f g hf hg t h = let one = size_pos t in absurd (omega arith)
reduce_within-Agree (suc n) zero g hf hg t h = absurd (omega arith)
reduce_within-Agree (suc n) (suc f) zero hf hg t h = absurd (omega arith)
reduce_within-Agree (suc n) (suc f) (suc g) hf hg t h =
    round-Agree n (reduce_within f) (reduce_within g) t
      (reduce_within-Agree n f g (omega arith) (omega arith)) (reduce_within-Shrinks f) h

-- The recursion of `reduce` ends: fuel for as many levels as the term has constructors gives the
-- normal form, whatever more there is, and the normal form is one round over the normal forms.
pub reduce_ends :
    (t : Term) (fuel : ℕ)
    → size t ≤ fuel
    → (reduce_within fuel t ≡ reduce t) × (reduce t ≡ round reduce t)
unfolding reduce reduce_within
reduce_ends t fuel h = (
  reduce_within-Agree (size t) fuel (size t) h (omega arith) t (omega arith),
  reduce_within-Agree (size t) (size t) (suc (size t)) (omega arith) (omega arith) t (omega arith)
      ∙ round-Agree (size t) (reduce_within (size t)) reduce t
          (λ u k. reduce_within-Agree (size u) (size t) (size u) k (omega arith) u (omega arith))
          (reduce_within-Shrinks (size t)) (omega arith),
)
