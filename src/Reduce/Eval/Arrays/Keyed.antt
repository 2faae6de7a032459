-- ===== src/Reduce/Eval/Arrays/Keyed.antt =====
-- crates/analyzer/src/reduce/eval.rs: the keys of an array that is written or built, and the reads of it.
use phpunit_rust.Prelude.{
  Bool, true, false, ◌≡◌, refl, sym, ◌∙◌, subst, List, [], ◌∷◌, some, if◌then◌else◌, Bool-cases,
  from_false, inl, inr,
}
use phpunit_rust.Int.{ℤ, pos}
use phpunit_rust.Reduce.Floats.{Floats}
use phpunit_rust.Reduce.Value.{
  ArrayKey, int_key, key_eq, Value, arr, object, Items, no_items, item, item_of, mark_aliased,
}
use phpunit_rust.Reduce.Value.Convert.{to_array_key}
use phpunit_rust.Reduce.Value.Compare.Laws.{key_eq-eq, key_eq_self, WellKeyed, WellKeyedItems}
use phpunit_rust.Reduce.Eval.{ok, bind_ok, ok_eq}
use phpunit_rust.Reduce.Eval.Arrays.{
  insert_key, stored, ArrayElement, key_value, plain, variadic, missing, or_type_error,
  checked_succ, next_after, build_from, build_array, array_access_lookup, eval_array_access,
}

collapse {ℓ} :
    {A : Type ℓ} (b : Bool) (x y z : A)
    → (if b then x else y) ≡ (if b then x else (if b then z else y))
collapse true x y z = refl
collapse false x y z = refl

apart {ℓ} :
    {A : Type ℓ} (b c : Bool) (x y z : A)
    → (b ≡ true → c ≡ false)
    → (if c then z else (if b then x else y)) ≡ (if b then x else (if c then z else y))
apart true true x y z h = from_false (sym (h refl))
apart true false x y z h = refl
apart false c x y z h = refl

-- The keys of an array after a write: the one that was written, and those that were there.
item_of-insert_key :
    {fl : Floats} (xs : Items fl) (key k : ArrayKey) (val : Value fl)
    → item_of k (insert_key xs key val) ≡ (if key_eq key k then some val else item_of k xs)
unfolding insert_key
item_of-insert_key no_items key k val = refl
item_of-insert_key (item j v xs) key k val = elim (Bool-cases (key_eq j key)) [
  | inl same ↦ rw same (
      subst
        (λ t.
          (if key_eq j k then some val else item_of k xs)
          ≡ (if key_eq t k then some val else (if key_eq j k then some v else item_of k xs)))
        (key_eq-eq j key same) (collapse (key_eq j k) (some val) (item_of k xs) (some v)))
  | inr other ↦
      rw (other, item_of-insert_key xs key k val)
        (apart (key_eq key k) (key_eq j k) (some val) (item_of k xs) (some v)
          (λ e. subst (λ t. key_eq j t ≡ false) (key_eq-eq key k e) other))
]

key_apart : (j k : ArrayKey) → key_eq j k ≡ false → key_eq k j ≡ false
key_apart j k h = elim (Bool-cases (key_eq k j)) [
  | inl same ↦
      let clash = subst (λ t. key_eq j t ≡ false) (key_eq-eq k j same) h in
      from_false (sym clash ∙ key_eq_self j)
  | inr other ↦ other
]

pub insert_key-WellKeyed :
    {fl : Floats} (xs : Items fl) (key : ArrayKey) (val : Value fl)
    → WellKeyedItems xs
    → WellKeyed val
    → WellKeyedItems (insert_key xs key val)
unfolding insert_key
insert_key-WellKeyed no_items key val h w = (refl, w, tt)
insert_key-WellKeyed (item j v xs) key val (own, keyed, rest) w = elim (Bool-cases (key_eq j key)) [
  | inl same ↦ rw same (own, w, rest)
  | inr other ↦ rw other (
    item_of-insert_key xs key j val ∙ rw (key_apart j key other) own,
    keyed,
    insert_key-WellKeyed xs key val rest w,
  )
]

stored-WellKeyed : {fl : Floats} (v : Value fl) → WellKeyed v → WellKeyed (stored v)
unfolding stored mark_aliased
stored-WellKeyed (object c ps a) h = tt
stored-WellKeyed (arr xs) h = h
stored-WellKeyed _ h = tt

-- The values of the elements have no key twice.
abbrev pub WellKeyedElement : {fl : Floats} → ArrayElement fl → Type 0
WellKeyedElement (key_value k v) = WellKeyed v
WellKeyedElement (plain v) = WellKeyed v
WellKeyedElement _ = Unit {0}

abbrev pub WellKeyedElements : {fl : Floats} → List (ArrayElement fl) → Type 0
WellKeyedElements [] = Unit {0}
WellKeyedElements (e ∷ es) = WellKeyedElement e × WellKeyedElements es

build_from-WellKeyed :
    {fl : Floats} (es : List (ArrayElement fl)) (xs : Items fl) (next : ℤ) (ys : Items fl)
    → WellKeyedElements es
    → WellKeyedItems xs
    → build_from xs next es ≡ ok ys
    → WellKeyedItems ys
unfolding build_from
build_from-WellKeyed [] xs next ys k h e = subst WellKeyedItems (ok_eq e) h
build_from-WellKeyed (key_value key v ∷ es) xs next ys (own, k) h e =
    let (i, _, rest) = bind_ok (or_type_error "array used as array key" (to_array_key key)) _ e in
    build_from-WellKeyed es (insert_key xs i (stored v)) (next_after i next) ys k
      (insert_key-WellKeyed xs i (stored v) h (stored-WellKeyed v own)) rest
build_from-WellKeyed (plain v ∷ es) xs next ys (own, k) h e =
    let (after, _, rest) = bind_ok (checked_succ next) _ e in
    build_from-WellKeyed es (insert_key xs (int_key next) (stored v)) after ys k
      (insert_key-WellKeyed xs (int_key next) (stored v) h (stored-WellKeyed v own)) rest
build_from-WellKeyed (variadic ∷ es) xs next ys k h e = cc
build_from-WellKeyed (missing ∷ es) xs next ys (own, k) h e =
    build_from-WellKeyed es xs next ys k h e

-- No key of an array literal's value occurs twice, where none does in the values of its elements.
build_array-WellKeyed :
    {fl : Floats} (es : List (ArrayElement fl)) (v : Value fl)
    → WellKeyedElements es
    → build_array es ≡ ok v
    → WellKeyed v
unfolding build_array
build_array-WellKeyed es v k h =
    let (ys, e, made) = bind_ok (build_from no_items (pos 0) es) _ h in
    subst WellKeyed (ok_eq made) (build_from-WellKeyed es no_items (pos 0) ys k tt e)

-- A read after a write: the element that was written, an object marked as shared, under its key, and
-- what was there before under the others.
pub eval_array_access-insert_key :
    {fl : Floats} (xs : Items fl) (key k : ArrayKey) (val index : Value fl)
    → to_array_key index ≡ some k
    → eval_array_access (arr (insert_key xs key val)) index
      ≡ (if key_eq key k then ok (stored val) else eval_array_access (arr xs) index)
unfolding eval_array_access array_access_lookup
eval_array_access-insert_key xs key k val index h = elim (Bool-cases (key_eq key k)) [
  | inl same ↦ rw (h, item_of-insert_key xs key k val, same) refl
  | inr other ↦ rw (h, item_of-insert_key xs key k val, other) refl
]
