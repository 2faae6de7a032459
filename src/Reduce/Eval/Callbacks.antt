-- ===== src/Reduce/Eval/Callbacks.antt =====
-- crates/analyzer/src/reduce/eval.rs: `call_closure_builtin`, the builtins that take a closure. Each loop
-- is given what invokes the closure. A result that is not there means that the name is of no such
-- builtin for these arguments.
pub mod Searched
use phpunit_rust.Prelude.{
  Bool, true, false, nat_eq, List, [], ◌∷◌, Option, none, some, if◌then◌else◌, String, ◌==◌, ◌||◌,
}
use phpunit_rust.Reduce.Floats.{Floats}
use phpunit_rust.Reduce.Value.{
  ArrayKey, Value, null, bool, arr, object, closure, Items, no_items, item, mark_aliased, Bytes,
  Props,
}
use phpunit_rust.Reduce.Value.Convert.{to_bool}
use phpunit_rust.Reduce.Eval.{
  unsupported_construct, unknown_call, Result, ok, bail, panic, ◌>>=◌, ◌>>◌,
}
use phpunit_rust.Reduce.Eval.Arrays.{array_key_to_value}
use phpunit_rust.Reduce.Eval.Builtins.{call_pure_builtin}
use phpunit_rust.Reduce.Eval.Closures.{
  Machine, MachineScope, Ran, with_parsed_closure, invoke_parsed_closure,
}

-- What `array_map` stores of a value that the closure made.
unfoldable pub marked : {fl : Floats} → Value fl → Value fl
unfolding mark_aliased
marked (object c ps a) = mark_aliased (object c ps a)
marked (arr xs) = mark_aliased (arr xs)
marked v = v

abbrev pub prepend :
    {fl : Floats} {S : Type 0} → Bool → ArrayKey → Value fl → Items fl × S → Items fl × S
prepend true k v (out, sc) = (item k v out, sc)
prepend false k v out = out

module _ {fl : Floats} {S : Type 0} (invoke : List (Value fl) → S → Result (Value fl × S)) where
  unfoldable pub map_items : Items fl → S → Result (Items fl × S)
  unfolding marked
  map_items no_items sc = ok (no_items, sc)
  map_items (item k v xs) sc = do
    (mapped, after) ← invoke (v ∷ []) sc
    rest ← map_items xs after
    ok (prepend true k (marked mapped) rest)

  unfoldable pub filter_items : Items fl → S → Result (Items fl × S)
  filter_items no_items sc = ok (no_items, sc)
  filter_items (item k v xs) sc = do
    (keep, after) ← invoke (v ∷ []) sc
    rest ← filter_items xs after
    ok (prepend (to_bool keep) k v rest)

  unfoldable pub reduce_items : Value fl → Items fl → S → Result (Value fl × S)
  reduce_items acc no_items sc = ok (acc, sc)
  reduce_items acc (item k v xs) sc = do
    (next, after) ← invoke (acc ∷ v ∷ []) sc
    reduce_items next xs after

  unfoldable pub any_item : Items fl → S → Result (Value fl × S)
  any_item no_items sc = ok (bool false, sc)
  any_item (item k v xs) sc = do
    (hit, after) ← invoke (v ∷ array_key_to_value k ∷ []) sc
    let rest = any_item xs after
    if to_bool hit then ok (bool true, after) else rest

  unfoldable pub all_items : Items fl → S → Result (Value fl × S)
  all_items no_items sc = ok (bool true, sc)
  all_items (item k v xs) sc = do
    (hit, after) ← invoke (v ∷ array_key_to_value k ∷ []) sc
    let rest = all_items xs after
    if to_bool hit then rest else ok (bool false, after)

  unfoldable pub find_item : Items fl → S → Result (Value fl × S)
  find_item no_items sc = ok (null, sc)
  find_item (item k v xs) sc = do
    (hit, after) ← invoke (v ∷ array_key_to_value k ∷ []) sc
    let rest = find_item xs after
    if to_bool hit then ok (v, after) else rest

  unfoldable pub find_key : Items fl → S → Result (Value fl × S)
  find_key no_items sc = ok (null, sc)
  find_key (item k v xs) sc = do
    (hit, after) ← invoke (v ∷ array_key_to_value k ∷ []) sc
    let rest = find_key xs after
    if to_bool hit then ok (array_key_to_value k, after) else rest

pub data CallbackBuiltin : Type 0 where
  array_map array_filter array_reduce array_any array_all array_find array_find_key user_sort :
      CallbackBuiltin

unfoldable pub callback_of : String → Option CallbackBuiltin
callback_of s =
    if s == "array_map"
    then some array_map
    else if s == "array_filter"
    then some array_filter
    else if s == "array_reduce"
    then some array_reduce
    else if s == "array_any"
    then some array_any
    else if s == "array_all"
    then some array_all
    else if s == "array_find"
    then some array_find
    else if s == "array_find_key"
    then some array_find_key
    else if s == "usort" || s == "uasort" || s == "uksort"
    then some user_sort
    else none

-- The result of a call, and the scope after it.
abbrev pub Called : {fl : Floats} → Machine fl → Type 0
Called {fl} m = Result (Option (Value fl) × MachineScope m)

abbrev pub found : {fl : Floats} {S : Type 0} → Value fl × S → Result (Option (Value fl) × S)
found (v, sc) = ok (some v, sc)

abbrev pub as_array : {fl : Floats} {S : Type 0} → Items fl × S → Result (Option (Value fl) × S)
as_array (xs, sc) = ok (some (arr xs), sc)

module _ {fl : Floats} (m : Machine fl) where
  -- A loop over a closure that has been parsed once.
  abbrev pub looped :
      {A : Type 0}
      → Bytes
      → Props fl
      → MachineScope m
      → ((List (Value fl) → MachineScope m → Ran m) → MachineScope m → Result A)
      → Result A
  looped src captured sc loop =
      with_parsed_closure m src
        λ kind snippet. loop (invoke_parsed_closure m kind snippet captured) sc

  unfoldable pub call_callback : CallbackBuiltin → List (Value fl) → MachineScope m → Called m
  unfolding with_parsed_closure invoke_parsed_closure map_items filter_items reduce_items any_item
      all_items find_item find_key
  call_callback array_map (closure src cap ∷ arr xs ∷ []) sc =
      looped src cap sc (λ invoke. map_items invoke xs) >>= as_array
  call_callback array_map (closure src cap ∷ a ∷ b ∷ args) sc =
      bail (unsupported_construct "array_map with multiple arrays (key reindexing not modelled)")
  call_callback array_filter (arr xs ∷ closure src cap ∷ []) sc =
      looped src cap sc (λ invoke. filter_items invoke xs) >>= as_array
  call_callback array_filter (arr xs ∷ closure src cap ∷ mode ∷ args) sc =
      bail (unsupported_construct "array_filter with ARRAY_FILTER_USE_KEY/BOTH mode")
  call_callback array_reduce (arr xs ∷ closure src cap ∷ []) sc =
      looped src cap sc (λ invoke. reduce_items invoke null xs) >>= found
  call_callback array_reduce (arr xs ∷ closure src cap ∷ initial ∷ []) sc =
      looped src cap sc (λ invoke. reduce_items invoke initial xs) >>= found
  call_callback array_any (arr xs ∷ closure src cap ∷ []) sc =
      looped src cap sc (λ invoke. any_item invoke xs) >>= found
  call_callback array_all (arr xs ∷ closure src cap ∷ []) sc =
      looped src cap sc (λ invoke. all_items invoke xs) >>= found
  call_callback array_find (arr xs ∷ closure src cap ∷ []) sc =
      looped src cap sc (λ invoke. find_item invoke xs) >>= found
  call_callback array_find_key (arr xs ∷ closure src cap ∷ []) sc =
      looped src cap sc (λ invoke. find_key invoke xs) >>= found
  call_callback user_sort args sc =
      bail (unsupported_construct "usort/uasort/uksort (sorts an array by reference; not modelled)")
  call_callback _ args sc = ok (none, sc)

  unfoldable pub call_closure_builtin : String → List (Value fl) → MachineScope m → Called m
  unfolding callback_of call_callback
  call_closure_builtin name args sc = elim (callback_of name) [
    | none ↦ ok (none, sc)
    | some b ↦ call_callback b args sc
  ]

  -- The call of a function by its name, on the values of its arguments.
  abbrev pub or_unknown : String → Option (Value fl) → Result (Value fl)
  or_unknown name (some v) = ok v
  or_unknown name none = bail (unknown_call name)

  abbrev pub or_resolved :
      String → List (Value fl) → m.Resolver → Option (Value fl) → Result (Value fl)
  or_resolved name args r (some v) = ok v
  or_resolved name args r none = m.resolve_function r name args >>= or_unknown name

  abbrev pub or_pure :
      String
      → List (Value fl)
      → Option (Value fl) × MachineScope m
      → Result (Value fl × MachineScope m)
  or_pure name args (some v, sc) = ok (v, sc)
  or_pure name args (none, sc) = do
    pure ← call_pure_builtin name args
    v ← or_resolved name args sc.resolver pure
    ok (v, sc)

  unfoldable pub call_function : String → List (Value fl) → MachineScope m → Ran m
  unfolding call_closure_builtin call_pure_builtin
  call_function name args sc = call_closure_builtin name args sc >>= or_pure name args
