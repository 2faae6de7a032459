-- ===== src/Reduce/Term/Meaning/Accesses.antt =====
-- crates/analyzer/src/reduce/term.rs: what a field and a count of a reduced term stand for.
use phpunit_rust.Prelude.{
  ℕ, suc, Bool, true, false, ◌≡◌, refl, sym, ap, ◌∙◌, inl, inr, ◌⊎◌, Option, none, some, Bool-cases,
  subst, from_false,
}
use phpunit_rust.Int.{pos}
use phpunit_rust.Reduce.Value.{Bytes, bytes_eq}
use phpunit_rust.Reduce.Term.{
  Term, int, bool, str, bin, obj, field, list, len, opaque, Fields, no_fields, entry, Terms,
  no_terms, term,
}
use phpunit_rust.Reduce.Term.Simplify.{last_of, count_terms, reduce_field, reduce_len}
use phpunit_rust.Reduce.Term.Meaning.{
  Givens, Meant, num, inst, array, Slots, no_slots, slot, Meants, no_meants, last_slot,
  count_meants, slot_of, length_of, den, den_fields, den_terms, quoted,
}
use phpunit_rust.Reduce.Term.Meaning.Inverse.{
  as_inst-some, as_array-some, cons_slot-some, cons_meant-some,
}
use phpunit_rust.Reduce.Term.Decide.{contains_sym}

-- A term stands for a value, and is written as that value where it has no free symbol.
abbrev pub Stands : Givens → Term → Meant → Type 0
Stands ρ t v = (den ρ t ≡ some v) × (contains_sym t ≡ false → t ≡ quoted v)

abbrev pub OpaqueOr : Givens → Term → Meant → Type 0
OpaqueOr ρ t v = (t ≡ opaque) ⊎ Stands ρ t v

abbrev pub Sound : Givens → (Term → Term) → Type 0
Sound ρ go = (t : Term) (v : Meant) → den ρ t ≡ some v → OpaqueOr ρ (go t) v

none_opaque : (ρ : Givens) (v : Meant) → den ρ opaque ≡ some v → ⊥
unfolding den
none_opaque ρ v h = cc

-- A field that is found stands for the value that is found.
Found : Givens → Option Term → Option Meant → Type 0
Found ρ o none = o ≡ none
Found ρ o (some v) = (t : Term) × (o ≡ some t) × (den ρ t ≡ some v)

entry_step :
    (ρ : Givens) (m n : Bytes) (t : Term) (w : Meant) (fs : Fields) (rest : Slots) (o : Option Term)
    (p : Option Meant)
    → last_of n fs ≡ o
    → last_slot n rest ≡ p
    → den ρ t ≡ some w
    → Found ρ o p
    → Found ρ (last_of n (entry m t fs)) (last_slot n (slot m w rest))
unfolding last_of Found
entry_step ρ m n t w fs rest o none ho hp hw found =
    rw (ho, hp, found)
      (elim (Bool-cases (bytes_eq m n)) [
        | inl same ↦ rw same (t, refl, hw)
        | inr other ↦ rw other refl
      ])
entry_step ρ m n t w fs rest o (some v) ho hp hw (u, e, hu) = rw (ho, hp, e) (u, refl, hu)

last_of-Found :
    (ρ : Givens) (n : Bytes) (fs : Fields) (ss : Slots)
    → den_fields ρ fs ≡ some ss
    → Found ρ (last_of n fs) (last_slot n ss)
unfolding last_of den Found
last_of-Found ρ n no_fields ss h = let e : no_slots ≡ ss = cc in rw (sym e) refl
last_of-Found ρ n (entry m t fs) ss h =
    let (w, rest, hw, hr, e) = cons_slot-some m (den ρ t) (den_fields ρ fs) ss h in
    subst (λ x. Found ρ (last_of n (entry m t fs)) (last_slot n x)) (sym e)
      (entry_step ρ m n t w fs rest (last_of n fs) (last_slot n rest) refl refl hw
        (last_of-Found ρ n fs rest hr))

count_terms-den :
    (ρ : Givens) (ts : Terms) (vs : Meants)
    → den_terms ρ ts ≡ some vs
    → count_terms ts ≡ count_meants vs
unfolding den
count_terms-den ρ no_terms vs h = let e : no_meants ≡ vs = cc in ap count_meants e
count_terms-den ρ (term t ts) vs h =
    let (w, rest, hw, hr, e) = cons_meant-some (den ρ t) (den_terms ρ ts) vs h in
    ap suc (count_terms-den ρ ts rest hr) ∙ ap count_meants (sym e)

is_obj : Term → Bool
is_obj (obj c fs) = true
is_obj _ = false

is_list : Term → Bool
is_list (list ts) = true
is_list _ = false

clash : (b : Bool) → b ≡ true → b ≡ false → ⊥
clash b t f = from_false (sym f ∙ t)

stuck_field :
    (ρ : Givens) (r : Term) (i : ℕ) (n c : Bytes) (ss : Slots) (v : Meant)
    → is_obj r ≡ false
    → Stands ρ r (inst i c ss)
    → last_slot n ss ≡ some v
    → OpaqueOr ρ (field r n) v
unfolding den is_obj
stuck_field ρ r i n c ss v other (d, closed) e =
    inr (ap (slot_of n) d ∙ e, λ h. absurd (clash (is_obj r) (ap is_obj (closed h)) other))

pub field_kept :
    (ρ : Givens) (go : Term → Term) (r : Term) (i : ℕ) (n c : Bytes) (ss : Slots) (v : Meant)
    → Sound ρ go
    → Stands ρ r (inst i c ss)
    → last_slot n ss ≡ some v
    → OpaqueOr ρ (reduce_field go r n) v
unfolding reduce_field is_obj Found den
field_kept ρ go (obj k fs) j n c ss v sound (d, closed) e =
    let (rest, hr, er) = as_inst-some ρ.own_handle k (den_fields ρ fs) (inst j c ss) d in
    let same : ss ≡ rest = cc in
    let (t, ht, dt) =
      subst (Found ρ (last_of n fs)) (ap (last_slot n) (sym same) ∙ e)
        (last_of-Found ρ n fs rest hr) in
    rw ht (sound t v dt)
field_kept ρ go (Term.sym x) j n c ss v sound s e = stuck_field ρ (Term.sym x) j n c ss v refl s e
field_kept ρ go (int i) j n c ss v sound s e = stuck_field ρ (int i) j n c ss v refl s e
field_kept ρ go (bool b) j n c ss v sound s e = stuck_field ρ (bool b) j n c ss v refl s e
field_kept ρ go (str x) j n c ss v sound s e = stuck_field ρ (str x) j n c ss v refl s e
field_kept ρ go (bin o a b) j n c ss v sound s e = stuck_field ρ (bin o a b) j n c ss v refl s e
field_kept ρ go (field t m) j n c ss v sound s e = stuck_field ρ (field t m) j n c ss v refl s e
field_kept ρ go (list ts) j n c ss v sound s e = stuck_field ρ (list ts) j n c ss v refl s e
field_kept ρ go (len t) j n c ss v sound s e = stuck_field ρ (len t) j n c ss v refl s e
field_kept ρ go opaque j n c ss v sound s e = inl refl

stuck_len :
    (ρ : Givens) (r : Term) (vs : Meants)
    → is_list r ≡ false
    → Stands ρ r (array vs)
    → OpaqueOr ρ (len r) (num (pos (count_meants vs)))
unfolding den is_list
stuck_len ρ r vs other (d, closed) =
    inr (ap length_of d, λ h. absurd (clash (is_list r) (ap is_list (closed h)) other))

pub len_kept :
    (ρ : Givens) (r : Term) (vs : Meants)
    → Stands ρ r (array vs)
    → OpaqueOr ρ (reduce_len r) (num (pos (count_meants vs)))
unfolding reduce_len is_list den
len_kept ρ (list ts) vs (d, closed) =
    let (rest, hr, er) = as_array-some (den_terms ρ ts) (array vs) d in
    let same : vs ≡ rest = cc in
    let counted : count_terms ts ≡ count_meants vs =
      count_terms-den ρ ts rest hr ∙ ap count_meants (sym same) in
    inr (ap (λ k. some (num (pos k))) counted, λ h. ap (λ k. int (pos k)) counted)
len_kept ρ (Term.sym x) vs s = stuck_len ρ (Term.sym x) vs refl s
len_kept ρ (int i) vs s = stuck_len ρ (int i) vs refl s
len_kept ρ (bool b) vs s = stuck_len ρ (bool b) vs refl s
len_kept ρ (str x) vs s = stuck_len ρ (str x) vs refl s
len_kept ρ (bin o a b) vs s = stuck_len ρ (bin o a b) vs refl s
len_kept ρ (obj c fs) vs s = stuck_len ρ (obj c fs) vs refl s
len_kept ρ (field t n) vs s = stuck_len ρ (field t n) vs refl s
len_kept ρ (len t) vs s = stuck_len ρ (len t) vs refl s
len_kept ρ opaque vs s = inl refl
