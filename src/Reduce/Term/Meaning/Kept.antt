-- ===== src/Reduce/Term/Meaning/Kept.antt =====
-- crates/analyzer/src/reduce/term.rs: what a normal form stands for.
use phpunit_rust.Prelude.{
  ℕ, zero, suc, true, false, ◌||◌, ◌≡◌, refl, sym, ap, ap₂, inl, inr, ◌⊎◌, some, if◌then◌else◌,
  Bool-cases, subst, from_false, or_none, or_right,
}
use phpunit_rust.Int.{ℤ}
use phpunit_rust.Reduce.Value.{Bytes}
use phpunit_rust.Reduce.Term.{
  Op, Term, int, bool, str, bin, obj, field, list, len, opaque, Fields, no_fields, entry, Terms,
  no_terms, term, size,
}
use phpunit_rust.Reduce.Term.Simplify.{
  is_opaque, map_fields, map_terms, any_opaque_field, any_opaque, reduce_field, reduce_len,
  reduce_op, round, reduce_within, reduce,
}
use phpunit_rust.Reduce.Term.Meaning.{
  Givens, Meant, num, truth, text, inst, array, Slots, no_slots, slot, Meants, no_meants, meant,
  op_fn, number, both, cons_slot, cons_meant, as_inst, as_array, den, den_fields, den_terms, quoted,
  quoted_slots, quoted_all,
}
use phpunit_rust.Reduce.Term.Meaning.Chains.{both-some}
use phpunit_rust.Reduce.Term.Meaning.Inverse.{
  number-some, as_num-some, slot_of-some, length_of-some, as_inst-some, as_array-some,
  cons_slot-some, cons_meant-some,
}
use phpunit_rust.Reduce.Term.Meaning.Accesses.{OpaqueOr, Sound, field_kept, len_kept}
use phpunit_rust.Reduce.Term.Meaning.Operations.{op_kept}
use phpunit_rust.Reduce.Term.Decide.{contains_sym, any_sym_field, any_sym}

FieldsKept : Givens → Fields → Slots → Type 0
FieldsKept ρ gs ss =
    (any_opaque_field gs ≡ true)
    ⊎ ((den_fields ρ gs ≡ some ss) × (any_sym_field gs ≡ false → gs ≡ quoted_slots ss))

TermsKept : Givens → Terms → Meants → Type 0
TermsKept ρ us vs =
    (any_opaque us ≡ true)
    ⊎ ((den_terms ρ us ≡ some vs) × (any_sym us ≡ false → us ≡ quoted_all vs))

entry_kept :
    (ρ : Givens) (n : Bytes) (t : Term) (gs : Fields) (v : Meant) (ss : Slots)
    → OpaqueOr ρ t v
    → FieldsKept ρ gs ss
    → FieldsKept ρ (entry n t gs) (slot n v ss)
unfolding FieldsKept den
entry_kept ρ n t gs v ss (inl over) k = inl (rw over refl)
entry_kept ρ n t gs v ss (inr s) (inl over) = inl (or_right (is_opaque t) over)
entry_kept ρ n t gs v ss (inr (d, q)) (inr (ds, qs)) = inr (
  ap₂ (cons_slot n) d ds,
  λ h.
      let (one, more) = or_none (contains_sym t) (any_sym_field gs) h in
      ap₂ (entry n) (q one) (qs more),
)

term_kept :
    (ρ : Givens) (t : Term) (us : Terms) (v : Meant) (vs : Meants)
    → OpaqueOr ρ t v
    → TermsKept ρ us vs
    → TermsKept ρ (term t us) (meant v vs)
unfolding TermsKept den
term_kept ρ t us v vs (inl over) k = inl (rw over refl)
term_kept ρ t us v vs (inr s) (inl over) = inl (or_right (is_opaque t) over)
term_kept ρ t us v vs (inr (d, q)) (inr (ds, qs)) = inr (
  ap₂ cons_meant d ds,
  λ h. let (one, more) = or_none (contains_sym t) (any_sym us) h in ap₂ term (q one) (qs more),
)

map_fields-kept :
    (ρ : Givens) (go : Term → Term) (fs : Fields) (ss : Slots)
    → Sound ρ go
    → den_fields ρ fs ≡ some ss
    → FieldsKept ρ (map_fields go fs) ss
unfolding den FieldsKept
map_fields-kept ρ go no_fields ss sound h =
    let e : no_slots ≡ ss = cc in inr (h, λ closed. ap quoted_slots e)
map_fields-kept ρ go (entry n t fs) ss sound h =
    let (v, rest, hv, hr, e) = cons_slot-some n (den ρ t) (den_fields ρ fs) ss h in
    subst (FieldsKept ρ (entry n (go t) (map_fields go fs))) (sym e) (
      entry_kept ρ n (go t) (map_fields go fs) v rest (sound t v hv)
        (map_fields-kept ρ go fs rest sound hr))

map_terms-kept :
    (ρ : Givens) (go : Term → Term) (ts : Terms) (vs : Meants)
    → Sound ρ go
    → den_terms ρ ts ≡ some vs
    → TermsKept ρ (map_terms go ts) vs
unfolding den TermsKept
map_terms-kept ρ go no_terms vs sound h =
    let e : no_meants ≡ vs = cc in inr (h, λ closed. ap quoted_all e)
map_terms-kept ρ go (term t ts) vs sound h =
    let (v, rest, hv, hr, e) = cons_meant-some (den ρ t) (den_terms ρ ts) vs h in
    subst (TermsKept ρ (term (go t) (map_terms go ts))) (sym e) (
      term_kept ρ (go t) (map_terms go ts) v rest (sound t v hv)
        (map_terms-kept ρ go ts rest sound hr))

obj_kept :
    (ρ : Givens) (c : Bytes) (gs : Fields) (ss : Slots)
    → FieldsKept ρ gs ss
    → OpaqueOr ρ (if any_opaque_field gs then opaque else obj c gs) (inst ρ.own_handle c ss)
unfolding FieldsKept den
obj_kept ρ c gs ss (inl over) = rw over (inl refl)
obj_kept ρ c gs ss (inr (d, q)) = elim (Bool-cases (any_opaque_field gs)) [
  | inl over ↦ rw over (inl refl)
  | inr fine ↦ rw fine (inr (ap (as_inst ρ.own_handle c) d, λ h. ap (obj c) (q h)))
]

list_kept :
    (ρ : Givens) (us : Terms) (vs : Meants)
    → TermsKept ρ us vs
    → OpaqueOr ρ (if any_opaque us then opaque else list us) (array vs)
unfolding TermsKept den
list_kept ρ us vs (inl over) = rw over (inl refl)
list_kept ρ us vs (inr (d, q)) = elim (Bool-cases (any_opaque us)) [
  | inl over ↦ rw over (inl refl)
  | inr fine ↦ rw fine (inr (ap as_array d, λ h. ap list (q h)))
]

bin_kept :
    (ρ : Givens) (op : Op) (ra rb : Term) (a b : ℤ)
    → OpaqueOr ρ ra (num a)
    → OpaqueOr ρ rb (num b)
    → OpaqueOr ρ
        (if is_opaque ra || is_opaque rb then opaque else reduce_op op ra rb)
        (num (op_fn op a b))
bin_kept ρ op ra rb a b (inl over) kb = inl (rw over refl)
bin_kept ρ op ra rb a b (inr sa) (inl over) =
    inl (rw (or_right (is_opaque ra) (ap is_opaque over)) refl)
bin_kept ρ op ra rb a b (inr sa) (inr sb) = elim (Bool-cases (is_opaque ra || is_opaque rb)) [
  | inl over ↦ rw over (inl refl)
  | inr fine ↦ rw fine (op_kept ρ op ra rb a b sa sb)
]

round-Sound : (ρ : Givens) (go : Term → Term) → Sound ρ go → Sound ρ (round go)
unfolding round den reduce_field reduce_len
round-Sound ρ go sound (field t n) v h =
    let (i, c, ss, ho, hs) = slot_of-some n (den ρ t) v h in
    elim (sound t (inst i c ss) ho) [
      | inl over ↦ rw over (inl refl)
      | inr s ↦ field_kept ρ go (go t) i n c ss v sound s hs
    ]
round-Sound ρ go sound (obj c fs) v h =
    let (ss, hs, e) = as_inst-some ρ.own_handle c (den_fields ρ fs) v h in
    rw e (obj_kept ρ c (map_fields go fs) ss (map_fields-kept ρ go fs ss sound hs))
round-Sound ρ go sound (list ts) v h =
    let (vs, hs, e) = as_array-some (den_terms ρ ts) v h in
    rw e (list_kept ρ (map_terms go ts) vs (map_terms-kept ρ go ts vs sound hs))
round-Sound ρ go sound (len t) v h =
    let (vs, ho, e) = length_of-some (den ρ t) v h in
    rw e (elim (sound t (array vs) ho) [
      | inl over ↦ rw over (inl refl)
      | inr s ↦ len_kept ρ (go t) vs s
    ])
round-Sound ρ go sound (bin op a b) v h =
    let (i, hi, e) = as_num-some (both (op_fn op) (number (den ρ a)) (number (den ρ b))) v h in
    let (x, y, hx, hy, ei) = both-some (op_fn op) (number (den ρ a)) (number (den ρ b)) i hi in
    rw (e, ei)
      (bin_kept ρ op (go a) (go b) x y (sound a (num x) (number-some (den ρ a) x hx))
        (sound b (num y) (number-some (den ρ b) y hy)))
round-Sound ρ go sound (Term.sym x) v h = inr (h, λ closed. from_false (sym closed))
round-Sound ρ go sound (int i) v h = let e : num i ≡ v = cc in inr (h, λ closed. ap quoted e)
round-Sound ρ go sound (bool b) v h = let e : truth b ≡ v = cc in inr (h, λ closed. ap quoted e)
round-Sound ρ go sound (str s) v h = let e : text s ≡ v = cc in inr (h, λ closed. ap quoted e)
round-Sound ρ go sound opaque v h = inl refl

reduce_within-Sound : (ρ : Givens) (fuel : ℕ) → Sound ρ (reduce_within fuel)
unfolding reduce_within
reduce_within-Sound ρ zero t v h = inl refl
reduce_within-Sound ρ (suc fuel) t v h =
    round-Sound ρ (reduce_within fuel) (reduce_within-Sound ρ fuel) t v h

-- A term that stands for a value, with the values of its free symbols and integers without bounds,
-- is reduced to the opaque term or to one that stands for the same value.
pub reduce_keeps :
    (ρ : Givens) (t : Term) (v : Meant)
    → den ρ t ≡ some v
    → (reduce t ≡ opaque) ⊎ (den ρ (reduce t) ≡ some v)
unfolding reduce
reduce_keeps ρ t v h = elim (reduce_within-Sound ρ (size t) t v h) [
  | inl over ↦ inl over
  | inr s ↦ inr s.0
]

-- A term that stands for a value and has a normal form without free symbols is reduced to the opaque
-- term or to the value written out.
pub reduce_closed :
    (ρ : Givens) (t : Term) (v : Meant)
    → den ρ t ≡ some v
    → contains_sym (reduce t) ≡ false
    → (reduce t ≡ opaque) ⊎ (reduce t ≡ quoted v)
unfolding reduce
reduce_closed ρ t v h closed = elim (reduce_within-Sound ρ (size t) t v h) [
  | inl over ↦ inl over
  | inr s ↦ inr (s.1 closed)
]
