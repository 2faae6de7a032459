-- ===== src/Reduce/Term/Simplify.antt =====
-- crates/analyzer/src/reduce/term.rs: `reduce`. Its recursion is on fuel, since a field's value is
-- reduced a second time; the calls of one round are a parameter of the round.
pub mod Size
pub mod Marked
pub mod Shrinks
pub mod Rounds
use phpunit_rust.Prelude.{
  ℕ, zero, suc, ◌+◌, Bool, true, false, not, ◌&&◌, ◌||◌, List, [], ◌∷◌, ◌++◌, nat_eq, Option, none,
  some, if◌then◌else◌, Ordering,
}
use phpunit_rust.Int.{ℤ, pos, eq_ℤ, checked, ◌+ℤ◌, ◌-ℤ◌, ◌*ℤ◌}
use phpunit_rust.Reduce.Value.{Bytes, bytes_eq}
use phpunit_rust.Reduce.Term.{
  Op, add, mul, sub, Term, sym, int, bool, str, bin, obj, field, list, len, opaque, Fields,
  no_fields, entry, Terms, no_terms, term, op_eq, term_cmp, size,
}

abbrev pub is_opaque : Term → Bool
is_opaque opaque = true
is_opaque _ = false

-- `fields.iter().rev().find(…)`: the last write of a field.
unfoldable pub last_of : Bytes → Fields → Option Term
last_of n no_fields = none
last_of n (entry m t fs) = elim (last_of n fs) [
  | none ↦ if bytes_eq m n then some t else none
  | some u ↦ some u
]

abbrev pub map_fields : (Term → Term) → Fields → Fields
map_fields go no_fields = no_fields
map_fields go (entry n t fs) = entry n (go t) (map_fields go fs)

abbrev pub map_terms : (Term → Term) → Terms → Terms
map_terms go no_terms = no_terms
map_terms go (term t ts) = term (go t) (map_terms go ts)

abbrev pub any_opaque_field : Fields → Bool
any_opaque_field no_fields = false
any_opaque_field (entry n t fs) = is_opaque t || any_opaque_field fs

abbrev pub any_opaque : Terms → Bool
any_opaque no_terms = false
any_opaque (term t ts) = is_opaque t || any_opaque ts

abbrev pub count_terms : Terms → ℕ
count_terms no_terms = 0
count_terms (term t ts) = suc (count_terms ts)

-- A field of a reduced receiver.
abbrev pub found_or : (Term → Term) → Term → Option Term → Term
found_or go stuck none = stuck
found_or go stuck (some t) = go t

unfoldable pub reduce_field : (Term → Term) → Term → Bytes → Term
reduce_field go opaque n = opaque
reduce_field go (obj c fs) n = found_or go (field (obj c fs) n) (last_of n fs)
reduce_field go t n = field t n

unfoldable pub reduce_len : Term → Term
reduce_len opaque = opaque
reduce_len (list ts) = int (pos (count_terms ts))
reduce_len t = len t

-- Flattens a chain of one operator into its operands.
unfoldable pub flatten : Op → Term → List Term
flatten op (bin o a b) = if op_eq o op then flatten op a ++ flatten op b else bin o a b ∷ []
flatten op t = t ∷ []

abbrev pub constant_of : Term → Option ℤ
constant_of (int n) = some n
constant_of _ = none

abbrev pub keep_operand : Term → Option (ℤ × List Term) → Option (ℤ × List Term)
keep_operand t none = none
keep_operand t (some r) = some (r.0, t ∷ r.1)

-- The concrete operands folded into one, and the others; nothing on overflow.
unfoldable pub split_operands : (ℤ → ℤ → Option ℤ) → ℤ → List Term → Option (ℤ × List Term)
split_operands fold acc [] = some (acc, [])
split_operands fold acc (t ∷ ts) = elim (constant_of t) [
  | none ↦ keep_operand t (split_operands fold acc ts)
  | some n ↦ elim (fold acc n) [ none ↦ none | some v ↦ split_operands fold v ts ]
]

abbrev pub is_less : Ordering → Bool
is_less Ordering.gt = false
is_less _ = true

-- `sort()`.
unfoldable pub insert_term : Term → List Term → List Term
insert_term t [] = t ∷ []
insert_term t (u ∷ us) = if is_less (term_cmp t u) then t ∷ u ∷ us else u ∷ insert_term t us

unfoldable pub sort : List Term → List Term
sort [] = []
sort (t ∷ ts) = insert_term t (sort ts)

-- `into_iter().reduce(…)`, to the left.
unfoldable pub chain : Op → Term → List Term → Term
chain op acc [] = acc
chain op acc (t ∷ ts) = chain op (bin op acc t) ts

abbrev pub is_nil : List Term → Bool
is_nil [] = true
is_nil (t ∷ ts) = false

-- The chain of the operands; there is at least one.
unfoldable pub rebuild : Op → List Term → Term
rebuild op [] = opaque
rebuild op (t ∷ ts) = chain op t ts

abbrev pub with_constant : Op → ℤ → Option (ℤ × List Term) → Term
with_constant op identity none = opaque
with_constant op identity (some r) =
    let symbolic = sort r.1 in
    if not (eq_ℤ r.0 identity) || is_nil symbolic
    then rebuild op (symbolic ++ int r.0 ∷ [])
    else rebuild op symbolic

unfoldable pub reduce_commutative : Op → Term → Term → ℤ → (ℤ → ℤ → Option ℤ) → Term
reduce_commutative op ra rb identity fold =
    with_constant op identity (split_operands fold identity (flatten op ra ++ flatten op rb))

abbrev pub int_or_opaque : Option ℤ → Term
int_or_opaque none = opaque
int_or_opaque (some v) = int v

-- The difference of two constants, or the term as it stands.
abbrev pub difference : Option ℤ → Option ℤ → Term → Term
difference (some x) (some y) stuck = int_or_opaque (checked (x -ℤ y))
difference _ _ stuck = stuck

unfoldable pub reduce_sub : Term → Term → Term
reduce_sub ra rb = difference (constant_of ra) (constant_of rb) (bin sub ra rb)

abbrev pub checked_add : ℤ → ℤ → Option ℤ
checked_add a b = checked (a +ℤ b)

abbrev pub checked_mul : ℤ → ℤ → Option ℤ
checked_mul a b = checked (a *ℤ b)

unfoldable pub reduce_op : Op → Term → Term → Term
reduce_op add ra rb = reduce_commutative add ra rb (pos 0) checked_add
reduce_op mul ra rb = reduce_commutative mul ra rb (pos 1) checked_mul
reduce_op sub ra rb = reduce_sub ra rb

-- One round of `reduce`, with its recursive calls given.
unfoldable pub round : (Term → Term) → Term → Term
round go (field t n) = reduce_field go (go t) n
round go (obj c fs) = let gs = map_fields go fs in if any_opaque_field gs then opaque else obj c gs
round go (list ts) = let us = map_terms go ts in if any_opaque us then opaque else list us
round go (len t) = reduce_len (go t)
round go (bin op a b) =
    if is_opaque (go a) || is_opaque (go b) then opaque else reduce_op op (go a) (go b)
round go t = t

unfoldable pub reduce_within : ℕ → Term → Term
reduce_within zero t = opaque
reduce_within (suc fuel) t = round (reduce_within fuel) t

unfoldable pub reduce : Term → Term
reduce t = reduce_within (size t) t
