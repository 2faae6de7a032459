-- ===== src/Reduce/Value.antt =====
-- crates/analyzer/src/reduce/value.rs: `Value`, the byte-backed values of the reducer. A string is
-- the list of its bytes. An array's entries and an object's properties are lists of their own.
pub mod Numeric
pub mod Decimal
pub mod Convert
pub mod Compare
pub mod FromPhp
pub mod Alias
use phpunit_rust.Prelude.{
  ℕ, zero, suc, ◌+◌, Bool, true, false, not, ◌&&◌, ◌||◌, List, [], ◌∷◌, nat_eq, Option, none, some,
  if◌then◌else◌,
}
use phpunit_rust.Int.{ℤ, eq_ℤ}
use phpunit_rust.Reduce.Floats.{Floats}

abbrev pub Bytes : Type 0
Bytes = List ℕ

abbrev pub bytes_eq : Bytes → Bytes → Bool
bytes_eq [] [] = true
bytes_eq [] (b ∷ bs) = false
bytes_eq (a ∷ xs) [] = false
bytes_eq (a ∷ xs) (b ∷ ys) = nat_eq a b && bytes_eq xs ys

abbrev pub bool_eq : Bool → Bool → Bool
bool_eq true b = b
bool_eq false b = not b

pub data ArrayKey : Type 0 where
  int_key : ℤ → ArrayKey
  str_key : Bytes → ArrayKey

abbrev pub key_eq : ArrayKey → ArrayKey → Bool
key_eq (int_key a) (int_key b) = eq_ℤ a b
key_eq (str_key a) (str_key b) = bytes_eq a b
key_eq (int_key a) (str_key b) = false
key_eq (str_key a) (int_key b) = false

mutual
  pub data Value (fl : Floats) : Type 0 where
    null : Value fl
    bool : Bool → Value fl
    int : ℤ → Value fl
    float : fl.F → Value fl
    str : Bytes → Value fl
    arr : Items fl → Value fl
    -- The class, the properties, and whether a second reference may exist.
    object : Bytes → Props fl → Bool → Value fl
    -- The source of a closure, and the variables that it captured.
    closure : Bytes → Props fl → Value fl

  pub data Items (fl : Floats) : Type 0 where
    no_items : Items fl
    item : ArrayKey → Value fl → Items fl → Items fl

  pub data Props (fl : Floats) : Type 0 where
    no_props : Props fl
    prop : Bytes → Value fl → Props fl → Props fl

abbrev pub count_items : {fl : Floats} → Items fl → ℕ
count_items no_items = 0
count_items (item k v xs) = suc (count_items xs)

abbrev pub count_props : {fl : Floats} → Props fl → ℕ
count_props no_props = 0
count_props (prop k v xs) = suc (count_props xs)

-- `iter().find(|(yk, _)| yk == k)`.
abbrev pub item_of : {fl : Floats} → ArrayKey → Items fl → Option (Value fl)
item_of k no_items = none
item_of k (item j v xs) = if key_eq j k then some v else item_of k xs

abbrev pub prop_of : {fl : Floats} → Bytes → Props fl → Option (Value fl)
prop_of k no_props = none
prop_of k (prop j v xs) = if bytes_eq j k then some v else prop_of k xs

-- `PartialEq`: structural, but for the mark of an alias.
unfoldable mutual
  pub value_eq : (fl : Floats) → Value fl → Value fl → Bool
  value_eq fl null null = true
  value_eq fl (bool a) (bool b) = bool_eq a b
  value_eq fl (int a) (int b) = eq_ℤ a b
  value_eq fl (float a) (float b) = fl.eq a b
  value_eq fl (str a) (str b) = bytes_eq a b
  value_eq fl (arr a) (arr b) = items_eq fl a b
  value_eq fl (object c a u) (object d b w) = bytes_eq c d && props_eq fl a b
  value_eq fl (closure s a) (closure t b) = bytes_eq s t && props_eq fl a b
  value_eq fl _ _ = false

  pub items_eq : (fl : Floats) → Items fl → Items fl → Bool
  items_eq fl no_items no_items = true
  items_eq fl (item j v xs) (item k w ys) = key_eq j k && (value_eq fl v w && items_eq fl xs ys)
  items_eq fl _ _ = false

  pub props_eq : (fl : Floats) → Props fl → Props fl → Bool
  props_eq fl no_props no_props = true
  props_eq fl (prop j v xs) (prop k w ys) = bytes_eq j k && (value_eq fl v w && props_eq fl xs ys)
  props_eq fl _ _ = false

abbrev pub is_aliased : {fl : Floats} → Value fl → Bool
is_aliased (object c ps a) = a
is_aliased _ = false

unfoldable mutual
  pub mark_aliased : {fl : Floats} → Value fl → Value fl
  mark_aliased (object c ps a) = object c (mark_props ps) true
  mark_aliased (arr xs) = arr (mark_items xs)
  mark_aliased null = null
  mark_aliased (bool b) = bool b
  mark_aliased (int i) = int i
  mark_aliased (float f) = float f
  mark_aliased (str s) = str s
  mark_aliased (closure s ps) = closure s ps

  pub mark_items : {fl : Floats} → Items fl → Items fl
  mark_items no_items = no_items
  mark_items (item k v xs) = item k (mark_aliased v) (mark_items xs)

  pub mark_props : {fl : Floats} → Props fl → Props fl
  mark_props no_props = no_props
  mark_props (prop k v xs) = prop k (mark_aliased v) (mark_props xs)
