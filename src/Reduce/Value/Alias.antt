-- ===== src/Reduce/Value/Alias.antt =====
-- crates/analyzer/src/reduce/value.rs: the comparisons of a value that is marked as aliased.
use phpunit_rust.Prelude.{suc, nat_eq, ◌&&◌, ◌≡◌, refl, ap, ap₂}
use phpunit_rust.Reduce.Floats.{Floats}
use phpunit_rust.Reduce.Value.{
  bytes_eq, key_eq, Value, null, bool, int, float, str, arr, object, closure, Items, no_items, item,
  Props, no_props, prop, count_items, value_eq, items_eq, props_eq, mark_aliased, mark_items,
  mark_props,
}
use phpunit_rust.Reduce.Value.Compare.{php_strict_eq, strict_items}

mutual
  unfolding mark_aliased value_eq

  value_eq-mark_aliased :
      (fl : Floats) (v w : Value fl) → value_eq fl (mark_aliased v) w ≡ value_eq fl v w
  value_eq-mark_aliased fl (arr a) (arr b) = items_eq-mark_items fl a b
  value_eq-mark_aliased fl (object c a u) (object d b m) =
      ap (λ e. bytes_eq c d && e) (props_eq-mark_props fl a b)
  value_eq-mark_aliased fl (arr a) _ = refl
  value_eq-mark_aliased fl (object c a u) _ = refl
  value_eq-mark_aliased fl null w = refl
  value_eq-mark_aliased fl (bool b) w = refl
  value_eq-mark_aliased fl (int i) w = refl
  value_eq-mark_aliased fl (float f) w = refl
  value_eq-mark_aliased fl (str s) w = refl
  value_eq-mark_aliased fl (closure s ps) w = refl

  items_eq-mark_items :
      (fl : Floats) (xs ys : Items fl) → items_eq fl (mark_items xs) ys ≡ items_eq fl xs ys
  items_eq-mark_items fl (item j v xs) (item k w ys) =
      ap₂ (λ e f. key_eq j k && (e && f)) (value_eq-mark_aliased fl v w)
        (items_eq-mark_items fl xs ys)
  items_eq-mark_items fl (item j v xs) no_items = refl
  items_eq-mark_items fl no_items ys = refl

  props_eq-mark_props :
      (fl : Floats) (xs ys : Props fl) → props_eq fl (mark_props xs) ys ≡ props_eq fl xs ys
  props_eq-mark_props fl (prop j v xs) (prop k w ys) =
      ap₂ (λ e f. bytes_eq j k && (e && f)) (value_eq-mark_aliased fl v w)
        (props_eq-mark_props fl xs ys)
  props_eq-mark_props fl (prop j v xs) no_props = refl
  props_eq-mark_props fl no_props ys = refl

count_items-mark_items :
    {fl : Floats} (xs : Items fl) → count_items (mark_items xs) ≡ count_items xs
unfolding mark_aliased
count_items-mark_items no_items = refl
count_items-mark_items (item k v xs) = ap suc (count_items-mark_items xs)

mutual
  unfolding mark_aliased php_strict_eq

  strict-mark_aliased :
      {fl : Floats} (v w : Value fl) → php_strict_eq (mark_aliased v) w ≡ php_strict_eq v w
  strict-mark_aliased (arr a) (arr b) =
      ap₂ (λ n e. nat_eq n (count_items b) && e) (count_items-mark_items a)
        (strict_items-mark_items a b)
  strict-mark_aliased (arr a) _ = refl
  strict-mark_aliased (object c a u) w = refl
  strict-mark_aliased null w = refl
  strict-mark_aliased (bool b) w = refl
  strict-mark_aliased (int i) w = refl
  strict-mark_aliased (float f) w = refl
  strict-mark_aliased (str s) w = refl
  strict-mark_aliased (closure s ps) w = refl

  strict_items-mark_items :
      {fl : Floats} (xs ys : Items fl) → strict_items (mark_items xs) ys ≡ strict_items xs ys
  strict_items-mark_items (item j v xs) (item k w ys) =
      ap₂ (λ e f. key_eq j k && (e && f)) (strict-mark_aliased v w) (strict_items-mark_items xs ys)
  strict_items-mark_items (item j v xs) no_items = refl
  strict_items-mark_items no_items ys = refl

-- Marking a value as aliased leaves what it is equal to, as a value and by `===`.
mark_aliased_invisible :
    (fl : Floats) (v w : Value fl)
    → (value_eq fl (mark_aliased v) w ≡ value_eq fl v w)
      × (php_strict_eq (mark_aliased v) w ≡ php_strict_eq v w)
mark_aliased_invisible fl v w = (value_eq-mark_aliased fl v w, strict-mark_aliased v w)
