-- ===== src/Reduce/Eval/Callbacks/Searched.antt =====
-- crates/analyzer/src/reduce/eval.rs: the searches `array_any`, `array_find` and `array_find_key`.
use phpunit_rust.Prelude.{
  Bool, true, false, not, ◌≡◌, refl, sym, ◌∙◌, ap, List, [], ◌∷◌, Option, none, some, if◌then◌else◌,
  Bool-cases, inl, inr, from_none, String,
}
use phpunit_rust.Reduce.Floats.{Floats}
use phpunit_rust.Reduce.Value.{
  Bytes, ArrayKey, int_key, str_key, key_eq, Value, null, bool, int, str, arr, closure, Items,
  no_items, item, item_of, Props,
}
use phpunit_rust.Reduce.Value.Convert.{to_bool}
use phpunit_rust.Reduce.Value.Compare.Laws.{key_eq-eq, key_eq_self, WellKeyedItems}
use phpunit_rust.Reduce.Eval.{Result, ok, bail, panic, ◌>>=◌, bind_assoc, bind_congr}
use phpunit_rust.Reduce.Eval.Kinds.{is_null_value}
use phpunit_rust.Reduce.Eval.Arrays.{array_key_to_value}
use phpunit_rust.Reduce.Eval.Closures.{
  Machine, MachineScope, find_closure_node, with_node, with_parsed_closure, snippet_of, Kind,
  invoke_parsed_closure,
}
use phpunit_rust.Reduce.Eval.Callbacks.{
  any_item, find_item, find_key, callback_of, call_callback, call_closure_builtin, Called, found,
}

abbrev or_null : {fl : Floats} → Option (Value fl) → Value fl
or_null (some v) = v
or_null none = null

-- The element under a key that is given as a value.
abbrev pub read_at : {fl : Floats} → Items fl → Value fl → Value fl
read_at xs (int i) = or_null (item_of (int_key i) xs)
read_at xs (str s) = or_null (item_of (str_key s) xs)
read_at xs _ = null

abbrev changed :
    {fl : Floats} {S : Type 0} → (Value fl → Value fl) → Value fl × S → Result (Value fl × S)
changed f (v, sc) = ok (f v, sc)

abbrev pub in_answer : {fl : Floats} → (Value fl → Value fl) → Option (Value fl) → Option (Value fl)
in_answer f none = none
in_answer f (some v) = some (f v)

-- A call whose answer is worked on after it.
abbrev pub with_answer :
    {fl : Floats} {S : Type 0}
    → (Value fl → Value fl)
    → Result (Option (Value fl) × S)
    → Result (Option (Value fl) × S)
with_answer f r = r >>= λ (a, sc). ok (in_answer f a, sc)

abbrev pub non_null : {fl : Floats} → Value fl → Value fl
non_null v = bool (not (is_null_value v))

non_null-key : {fl : Floats} (k : ArrayKey) → non_null {fl = fl} (array_key_to_value k) ≡ bool true
unfolding array_key_to_value
non_null-key (int_key i) = refl
non_null-key (str_key s) = refl

read_at-key :
    {fl : Floats} (xs : Items fl) (k : ArrayKey) (v : Value fl)
    → item_of k xs ≡ some v
    → read_at xs (array_key_to_value k) ≡ v
unfolding array_key_to_value
read_at-key xs (int_key i) v there = ap or_null there
read_at-key xs (str_key s) v there = ap or_null there

if_bind {ℓ ℓ'} :
    {A : Type ℓ} {B : Type ℓ'} (b : Bool) (r s : Result A) {t u : Result B} (next : A → Result B)
    → t ≡ (r >>= next)
    → u ≡ (s >>= next)
    → (if b then t else u) ≡ ((if b then r else s) >>= next)
if_bind true r s next p q = p
if_bind false r s next p q = q

-- What is held under another key is held when an item comes in front.
still_there :
    {fl : Floats} (k : ArrayKey) (v : Value fl) (xs : Items fl)
    → item_of k xs ≡ none
    → (j : ArrayKey) (u : Value fl) → item_of j xs ≡ some u
    → item_of j (item k v xs) ≡ some u
still_there k v xs own j u there = elim (Bool-cases (key_eq k j)) [
  | inl same ↦ from_none (sym own ∙ ap (λ t. item_of t xs) (key_eq-eq k j same) ∙ there)
  | inr other ↦ rw other there
]

module _ {fl : Floats} {S : Type 0} (invoke : List (Value fl) → S → Result (Value fl × S)) where
  any_item-find_key :
      (xs : Items fl) (sc : S)
      → any_item invoke xs sc ≡ (find_key invoke xs sc >>= changed non_null)
  unfolding any_item find_key
  any_item-find_key no_items sc = refl
  any_item-find_key (item k v xs) sc =
      bind_congr (invoke (v ∷ array_key_to_value k ∷ []) sc) (λ (hit, after).
        if_bind (to_bool hit) _ _ (changed non_null) (λ i. ok (sym (non_null-key k) i, after))
          (any_item-find_key xs after))
      ∙ sym (bind_assoc (invoke (v ∷ array_key_to_value k ∷ []) sc) _ (changed non_null))

  -- The items that are left hold what the array holds under their keys.
  find_item-find_key :
      (all xs : Items fl) (sc : S)
      → WellKeyedItems xs
      → ((j : ArrayKey) (u : Value fl) → item_of j xs ≡ some u → item_of j all ≡ some u)
      → find_item invoke xs sc ≡ (find_key invoke xs sc >>= changed (read_at all))
  unfolding find_item find_key
  find_item-find_key all no_items sc keyed within = refl
  find_item-find_key all (item k v xs) sc (own, _, keyed) within =
      bind_congr (invoke (v ∷ array_key_to_value k ∷ []) sc) (λ (hit, after).
        if_bind (to_bool hit) _ _ (changed (read_at all))
          (λ i. ok (sym (read_at-key all k v (within k v (rw (key_eq_self k) refl))) i, after))
          (find_item-find_key all xs after keyed
            (λ j u there. within j u (still_there k v xs own j u there))))
      ∙ sym (bind_assoc (invoke (v ∷ array_key_to_value k ∷ []) sc) _ (changed (read_at all)))

answered :
    {fl : Floats} {S : Type 0} (h : Value fl → Value fl) (r : Result (Value fl × S))
    → (r >>= changed h >>= found) ≡ with_answer h (r >>= found)
answered h (ok (v, sc)) = refl
answered h (bail why) = refl
answered h panic = refl

loops_agree :
    {fl : Floats} {K S : Type 0} (kind : Option K) (full : Bytes) (h : Value fl → Value fl)
    (f g : K → Bytes → Result (Value fl × S))
    → ((k : K) → f k full ≡ (g k full >>= changed h))
    → (with_node kind full f >>= found) ≡ with_answer h (with_node kind full g >>= found)
loops_agree none full h f g same = refl
loops_agree (some k) full h f g same = rw (same k) (answered h (g k full))

module _ {fl : Floats} (m : Machine fl) where
  abbrev pub search_with : String → Items fl → Bytes → Props fl → MachineScope m → Called m
  search_with name xs src captured sc =
      call_closure_builtin m name (arr xs ∷ closure src captured ∷ []) sc

  -- Of an array no key of which occurs twice, whatever the closure does, `array_any` says whether
  -- `array_find_key` finds a key, and `array_find` answers with the element under that key, with the same
  -- scope after it, and they bail or panic alike.
  pub array_find-array_find_key :
      (xs : Items fl) (src : Bytes) (captured : Props fl) (sc : MachineScope m)
      → WellKeyedItems xs
      → (search_with "array_any" xs src captured sc
          ≡ with_answer non_null (search_with "array_find_key" xs src captured sc))
        × (search_with "array_find" xs src captured sc
            ≡ with_answer (read_at xs) (search_with "array_find_key" xs src captured sc))
  unfolding call_closure_builtin callback_of call_callback with_parsed_closure
  array_find-array_find_key xs src captured sc keyed =
      let kind = find_closure_node (m.parse_file (snippet_of src)) in
      let invoke = λ (k : Kind m). invoke_parsed_closure m k (snippet_of src) captured in
      (
        loops_agree kind (snippet_of src) non_null _ _ (λ k. any_item-find_key (invoke k) xs sc),
        loops_agree kind (snippet_of src) (read_at xs) _ _
            (λ k. find_item-find_key (invoke k) xs xs sc keyed (λ j u there. there)),
      )
