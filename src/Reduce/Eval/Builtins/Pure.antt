-- ===== src/Reduce/Eval/Builtins/Pure.antt =====
-- crates/analyzer/src/reduce/eval.rs: the strict searches `array_search` and `in_array`.
use phpunit_rust.Prelude.{
  Bool, true, false, ◌≡◌, refl, List, [], ◌∷◌, Option, none, some, Bool-cases, inl, inr, ◌⊎◌,
}
use phpunit_rust.Reduce.Floats.{Floats}
use phpunit_rust.Reduce.Value.{ArrayKey, Value, bool, arr, Items, no_items, item, item_of}
use phpunit_rust.Reduce.Value.Compare.{php_strict_eq}
use phpunit_rust.Reduce.Value.Compare.Laws.{key_eq_self, item_of-later, WellKeyedItems}
use phpunit_rust.Reduce.Eval.{ok}
use phpunit_rust.Reduce.Eval.Guards.{bail_if_identity_in_strict_search}
use phpunit_rust.Reduce.Eval.Arrays.{array_key_to_value}
use phpunit_rust.Reduce.Eval.Builtins.{
  any_identical, key_of_identical, key_or_false, call_builtin, builtin_of, is_cursor,
  call_pure_builtin,
}

-- The first key whose value is identical to the needle, or none and then no value is.
search_cases :
    {fl : Floats} (needle : Value fl) (xs : Items fl)
    → WellKeyedItems xs
    → ((key_of_identical needle xs ≡ none) × (any_identical needle xs ≡ false))
      ⊎ ((k : ArrayKey) × (v : Value fl) × (key_of_identical needle xs ≡ some k)
          × (item_of k xs ≡ some v)
          × (php_strict_eq v needle ≡ true)
          × (any_identical needle xs ≡ true))
search_cases needle no_items h = inl (refl, refl)
search_cases needle (item k v xs) (own, keyed, rest) = elim (Bool-cases (php_strict_eq v needle)) [
  | inl same ↦ inr (k, v, rw same refl, rw (key_eq_self k) refl, same, rw same refl)
  | inr other ↦ elim (search_cases needle xs rest) [
    | inl (a, b) ↦ inl (rw (other, a) refl, rw (other, b) refl)
    | inr (j, w, found, there, same, any) ↦ inr (
      j,
      w,
      rw (other, found) refl,
      item_of-later _ k j v w xs own there,
      same,
      rw (other, any) refl,
    )
  ]
]

abbrev pub strict_search : {fl : Floats} → Value fl → Items fl → List (Value fl)
strict_search needle hay = needle ∷ arr hay ∷ bool true ∷ []

called_in_array :
    {fl : Floats} (needle : Value fl) (hay : Items fl) (b : Bool)
    → bail_if_identity_in_strict_search needle hay ≡ ok tt
    → any_identical needle hay ≡ b
    → call_pure_builtin "in_array" (strict_search needle hay) ≡ ok (some (bool b))
unfolding call_pure_builtin is_cursor builtin_of call_builtin
called_in_array needle hay b clear e = rw (clear, e) refl

called_array_search :
    {fl : Floats} (needle : Value fl) (hay : Items fl) (o : Option ArrayKey)
    → bail_if_identity_in_strict_search needle hay ≡ ok tt
    → key_of_identical needle hay ≡ o
    → call_pure_builtin "array_search" (strict_search needle hay) ≡ ok (some (key_or_false o))
unfolding call_pure_builtin is_cursor builtin_of call_builtin
called_array_search needle hay o clear e = rw (clear, e) refl

-- A strict search of an array without identities, no key of which occurs twice, answers with `false`,
-- and then `in_array` does too, or with a key that holds a value identical to the needle, and then
-- `in_array` is true.
pub array_search-in_array :
    {fl : Floats} (needle : Value fl) (hay : Items fl)
    → WellKeyedItems hay
    → bail_if_identity_in_strict_search needle hay ≡ ok tt
    → ((call_pure_builtin "array_search" (strict_search needle hay) ≡ ok (some (bool false)))
        × (call_pure_builtin "in_array" (strict_search needle hay) ≡ ok (some (bool false))))
      ⊎ ((k : ArrayKey) × (v : Value fl) × (call_pure_builtin "array_search"
              (strict_search needle hay)
            ≡ ok (some (array_key_to_value k)))
          × (item_of k hay ≡ some v)
          × (php_strict_eq v needle ≡ true)
          × (call_pure_builtin "in_array" (strict_search needle hay) ≡ ok (some (bool true))))
array_search-in_array needle hay keyed clear = elim (search_cases needle hay keyed) [
  | inl (a, b) ↦
      inl (called_array_search needle hay none clear a, called_in_array needle hay false clear b)
  | inr (k, v, found, there, same, any) ↦ inr (
    k,
    v,
    called_array_search needle hay (some k) clear found,
    there,
    same,
    called_in_array needle hay true clear any,
  )
]
