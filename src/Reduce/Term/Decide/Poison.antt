-- ===== src/Reduce/Term/Decide/Poison.antt =====
-- crates/analyzer/src/reduce/term.rs: where the opaque term is left in a normal form.
use phpunit_rust.Prelude.{
  ℕ, zero, suc, Bool, true, false, ◌||◌, ◌≡◌, refl, sym, ap, ◌∙◌, inl, inr, ◌⊎◌, Option, none, some,
  if◌then◌else◌, or_none, from_false,
}
use phpunit_rust.Int.{ℤ, pos, checked, ◌-ℤ◌}
use phpunit_rust.Reduce.Value.{Bytes}
use phpunit_rust.Reduce.Term.{
  Op, add, mul, sub, Term, int, bool, str, bin, obj, field, list, len, opaque, Fields, no_fields,
  entry, Terms, no_terms, term, size,
}
use phpunit_rust.Reduce.Term.Simplify.{
  is_opaque, last_of, found_or, map_fields, map_terms, any_opaque_field, any_opaque, int_or_opaque,
  constant_of, difference, reduce_field, reduce_len, reduce_sub, reduce_commutative, reduce_op,
  round, reduce_within, reduce, checked_add, checked_mul,
}
use phpunit_rust.Reduce.Term.Simplify.Marked.{mark-reduce_commutative}
use phpunit_rust.Reduce.Term.Decide.{contains_opaque, opaque_in_field, opaque_in}

-- The opaque term, or one with no opaque term in it.
abbrev Clean : Term → Type 0
Clean t = (t ≡ opaque) ⊎ (contains_opaque t ≡ false)

abbrev Cleans : (Term → Term) → Type 0
Cleans go = (t : Term) → Clean (go t)

or_clean : (a b : Bool) → a ≡ false → b ≡ false → (a || b) ≡ false
or_clean a b ha hb = rw (ha, hb) refl

no_root : (t : Term) → Clean t → is_opaque t ≡ false → contains_opaque t ≡ false
no_root t (inl over) h = from_false (sym h ∙ ap is_opaque over)
no_root t (inr fine) h = fine

found-Clean :
    (go : Term → Term) (stuck : Term) (o : Option Term)
    → Cleans go
    → contains_opaque stuck ≡ false
    → Clean (found_or go stuck o)
found-Clean go stuck none cleans h = inr h
found-Clean go stuck (some t) cleans h = cleans t

reduce_field-Clean :
    (go : Term → Term) (r : Term) (n : Bytes)
    → Cleans go
    → contains_opaque r ≡ false
    → Clean (reduce_field go r n)
unfolding reduce_field
reduce_field-Clean go (obj c fs) n cleans h =
    found-Clean go (field (obj c fs) n) (last_of n fs) cleans h
reduce_field-Clean go opaque n cleans h = inl refl
reduce_field-Clean go _ n cleans h = inr h

reduce_len-Clean : (r : Term) → contains_opaque r ≡ false → Clean (reduce_len r)
unfolding reduce_len
reduce_len-Clean (list ts) h = inr refl
reduce_len-Clean opaque h = inl refl
reduce_len-Clean _ h = inr h

map_fields-Clean :
    (go : Term → Term) (fs : Fields)
    → Cleans go
    → any_opaque_field (map_fields go fs) ≡ false
    → opaque_in_field (map_fields go fs) ≡ false
map_fields-Clean go no_fields cleans h = refl
map_fields-Clean go (entry n t fs) cleans h =
    let (one, more) = or_none (is_opaque (go t)) (any_opaque_field (map_fields go fs)) h in
    or_clean (contains_opaque (go t)) (opaque_in_field (map_fields go fs))
      (no_root (go t) (cleans t) one) (map_fields-Clean go fs cleans more)

map_terms-Clean :
    (go : Term → Term) (ts : Terms)
    → Cleans go
    → any_opaque (map_terms go ts) ≡ false
    → opaque_in (map_terms go ts) ≡ false
map_terms-Clean go no_terms cleans h = refl
map_terms-Clean go (term t ts) cleans h =
    let (one, more) = or_none (is_opaque (go t)) (any_opaque (map_terms go ts)) h in
    or_clean (contains_opaque (go t)) (opaque_in (map_terms go ts)) (no_root (go t) (cleans t) one)
      (map_terms-Clean go ts cleans more)

checked-Clean : (o : Option ℤ) → Clean (int_or_opaque o)
checked-Clean none = inl refl
checked-Clean (some i) = inr refl

difference-Clean :
    (x y : Option ℤ) (stuck : Term) → contains_opaque stuck ≡ false → Clean (difference x y stuck)
difference-Clean (some x) (some y) stuck h = checked-Clean (checked (x -ℤ y))
difference-Clean none y stuck h = inr h
difference-Clean (some x) none stuck h = inr h

commutative-Clean :
    (op : Op) (ra rb : Term) (unit : ℤ) (fold : ℤ → ℤ → Option ℤ)
    → (contains_opaque ra || contains_opaque rb) ≡ false
    → Clean (reduce_commutative op ra rb unit fold)
commutative-Clean op ra rb unit fold h =
    elim (mark-reduce_commutative contains_opaque (λ o a b. refl) (λ i. refl) op ra rb unit fold) [
      | inl over ↦ inl over
      | inr same ↦ inr (same ∙ h)
    ]

reduce_op-Clean :
    (op : Op) (ra rb : Term)
    → (contains_opaque ra || contains_opaque rb) ≡ false
    → Clean (reduce_op op ra rb)
unfolding reduce_op reduce_sub
reduce_op-Clean add ra rb h = commutative-Clean add ra rb (pos 0) checked_add h
reduce_op-Clean mul ra rb h = commutative-Clean mul ra rb (pos 1) checked_mul h
reduce_op-Clean sub ra rb h = difference-Clean (constant_of ra) (constant_of rb) (bin sub ra rb) h

guarded-Clean : (b : Bool) (t : Term) → (b ≡ false → Clean t) → Clean (if b then opaque else t)
guarded-Clean true t h = inl refl
guarded-Clean false t h = h refl

round-Cleans : (go : Term → Term) → Cleans go → Cleans (round go)
unfolding round reduce_field reduce_len
round-Cleans go cleans (field t n) = elim (cleans t) [
  | inl over ↦ rw over (inl refl)
  | inr fine ↦ reduce_field-Clean go (go t) n cleans fine
]
round-Cleans go cleans (obj c fs) =
    guarded-Clean (any_opaque_field (map_fields go fs)) (obj c (map_fields go fs))
      (λ h. inr (map_fields-Clean go fs cleans h))
round-Cleans go cleans (list ts) =
    guarded-Clean (any_opaque (map_terms go ts)) (list (map_terms go ts))
      (λ h. inr (map_terms-Clean go ts cleans h))
round-Cleans go cleans (len t) = elim (cleans t) [
  | inl over ↦ rw over (inl refl)
  | inr fine ↦ reduce_len-Clean (go t) fine
]
round-Cleans go cleans (bin op a b) =
    guarded-Clean (is_opaque (go a) || is_opaque (go b)) (reduce_op op (go a) (go b)) (λ h.
      let (one, two) = or_none (is_opaque (go a)) (is_opaque (go b)) h in
      reduce_op-Clean op (go a) (go b) (
        or_clean (contains_opaque (go a)) (contains_opaque (go b)) (no_root (go a) (cleans a) one)
          (no_root (go b) (cleans b) two)))
round-Cleans go cleans (Term.sym x) = inr refl
round-Cleans go cleans (int i) = inr refl
round-Cleans go cleans (bool b) = inr refl
round-Cleans go cleans (str s) = inr refl
round-Cleans go cleans opaque = inl refl

reduce_within-Cleans : (fuel : ℕ) → Cleans (reduce_within fuel)
unfolding reduce_within
reduce_within-Cleans zero t = inl refl
reduce_within-Cleans (suc fuel) t = round-Cleans (reduce_within fuel) (reduce_within-Cleans fuel) t

-- A normal form is the opaque term or has no opaque term in it.
contains_opaque-reduce : (t : Term) → (reduce t ≡ opaque) ⊎ (contains_opaque (reduce t) ≡ false)
unfolding reduce
contains_opaque-reduce t = reduce_within-Cleans (size t) t
