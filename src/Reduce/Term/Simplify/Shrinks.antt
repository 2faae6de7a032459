-- ===== src/Reduce/Term/Simplify/Shrinks.antt =====
-- crates/analyzer/src/reduce/term.rs: the size of a term after a round of the simplifier.
use phpunit_rust.Prelude.{
  ℕ, zero, suc, ◌+◌, ◌≤◌, Bool, true, false, ◌||◌, ◌≡◌, refl, sym, inl, inr, Option, none, some,
  if◌then◌else◌, arith, Bool-cases, Option-cases, from_none,
}
use phpunit_rust.Int.{ℤ, pos, checked, ◌-ℤ◌}
use phpunit_rust.Reduce.Value.{Bytes, bytes_eq}
use phpunit_rust.Reduce.Term.{
  Op, add, mul, sub, Term, int, bool, str, bin, obj, field, list, len, opaque, Fields, no_fields,
  entry, Terms, no_terms, term, size, size_fields, size_terms,
}
use phpunit_rust.Reduce.Term.Simplify.{
  is_opaque, last_of, map_fields, map_terms, any_opaque_field, any_opaque, found_or, reduce_field,
  reduce_len, int_or_opaque, constant_of, difference, reduce_sub, reduce_op, round, reduce_within,
  checked_add, checked_mul,
}
use phpunit_rust.Reduce.Term.Simplify.Size.{size_pos, size-reduce_commutative}

-- A simplifier that makes no term larger.
abbrev pub Shrinks : (Term → Term) → Type 0
Shrinks go = (t : Term) → size (go t) ≤ size t

size_fields-map_fields :
    (go : Term → Term) (fs : Fields) → Shrinks go → size_fields (map_fields go fs) ≤ size_fields fs
unfolding size
size_fields-map_fields go no_fields h = ground arith
size_fields-map_fields go (entry n t fs) h =
    let first = h t in let rest = size_fields-map_fields go fs h in omega arith

size_terms-map_terms :
    (go : Term → Term) (ts : Terms) → Shrinks go → size_terms (map_terms go ts) ≤ size_terms ts
unfolding size
size_terms-map_terms go no_terms h = ground arith
size_terms-map_terms go (term t ts) h =
    let first = h t in let rest = size_terms-map_terms go ts h in omega arith

pub size-last_of :
    (n : Bytes) (fs : Fields) (t : Term) → last_of n fs ≡ some t → size t ≤ size_fields fs
unfolding last_of size
size-last_of n no_fields t h = cc
size-last_of n (entry m u fs) t h = elim (Option-cases (last_of n fs)) [
  | inl absent ↦ elim (Bool-cases (bytes_eq m n)) [
    | inl same ↦
        let e : u ≡ t = (let w : some u ≡ some t = rw (absent, same) at h in cc) in
        rw (sym e) (omega arith)
    | inr other ↦ from_none (rw (absent, other) at h)
  ]
  | inr (v, found) ↦
      let e : v ≡ t = (let w : some v ≡ some t = rw found at h in cc) in
      let ih = size-last_of n fs v found in rw (sym e) (omega arith)
]

field_no_larger :
    (go : Term → Term) (c n : Bytes) (fs : Fields) (o : Option Term)
    → Shrinks go
    → ((t : Term) → o ≡ some t → size t ≤ size_fields fs)
    → size (found_or go (field (obj c fs) n) o) ≤ suc (size (obj c fs))
unfolding size
field_no_larger go c n fs none h inside = omega arith
field_no_larger go c n fs (some t) h inside =
    let first = h t in let second = inside t refl in omega arith

size-reduce_field :
    (go : Term → Term) (r : Term) (n : Bytes)
    → Shrinks go
    → size (reduce_field go r n) ≤ suc (size r)
unfolding reduce_field size
size-reduce_field go (obj c fs) n h = field_no_larger go c n fs (last_of n fs) h (size-last_of n fs)
size-reduce_field go (Term.sym x) n h = omega arith
size-reduce_field go (int i) n h = omega arith
size-reduce_field go (bool b) n h = omega arith
size-reduce_field go (str s) n h = omega arith
size-reduce_field go (bin o a b) n h = omega arith
size-reduce_field go (field t m) n h = omega arith
size-reduce_field go (list ts) n h = omega arith
size-reduce_field go (len t) n h = omega arith
size-reduce_field go opaque n h = omega arith

size-reduce_len : (r : Term) → size (reduce_len r) ≤ suc (size r)
unfolding reduce_len size
size-reduce_len (obj c fs) = omega arith
size-reduce_len (Term.sym x) = omega arith
size-reduce_len (int i) = omega arith
size-reduce_len (bool b) = omega arith
size-reduce_len (str s) = omega arith
size-reduce_len (bin o a b) = omega arith
size-reduce_len (field t m) = omega arith
size-reduce_len (list ts) = omega arith
size-reduce_len (len t) = omega arith
size-reduce_len opaque = omega arith

size-int_or_opaque : (o : Option ℤ) → size (int_or_opaque o) ≡ 1
unfolding size
size-int_or_opaque none = refl
size-int_or_opaque (some i) = refl

size-difference : (x y : Option ℤ) (t : Term) → size (difference x y t) ≤ size t
size-difference (some x) (some y) t = rw (size-int_or_opaque (checked (x -ℤ y))) (size_pos t)
size-difference none y t = ground arith
size-difference (some x) none t = ground arith

size-reduce_op : (op : Op) (ra rb : Term) → size (reduce_op op ra rb) ≤ suc (size ra + size rb)
unfolding reduce_op reduce_sub size
size-reduce_op add ra rb = size-reduce_commutative add ra rb (pos 0) checked_add
size-reduce_op mul ra rb = size-reduce_commutative mul ra rb (pos 1) checked_mul
size-reduce_op sub ra rb = size-difference (constant_of ra) (constant_of rb) (bin sub ra rb)

opaque_or : (b : Bool) (t : Term) (n : ℕ) → 1 ≤ n → size t ≤ n → size (if b then opaque else t) ≤ n
unfolding size
opaque_or true t n one h = one
opaque_or false t n one h = h

size-round : (go : Term → Term) (t : Term) → Shrinks go → size (round go t) ≤ size t
unfolding round size
size-round go (field t n) h =
    let first = size-reduce_field go (go t) n h in let second = h t in omega arith
size-round go (obj c fs) h =
    let inside = size_fields-map_fields go fs h in
    opaque_or (any_opaque_field (map_fields go fs)) (obj c (map_fields go fs))
      (suc (size_fields fs)) (omega arith) (omega arith)
size-round go (list ts) h =
    let inside = size_terms-map_terms go ts h in
    opaque_or (any_opaque (map_terms go ts)) (list (map_terms go ts)) (suc (size_terms ts))
      (omega arith) (omega arith)
size-round go (len t) h = let first = size-reduce_len (go t) in let second = h t in omega arith
size-round go (bin op a b) h =
    let both = size-reduce_op op (go a) (go b) in
    let first = h a in
    let second = h b in
    opaque_or (is_opaque (go a) || is_opaque (go b)) (reduce_op op (go a) (go b))
      (suc (size a + size b)) (omega arith) (omega arith)
size-round go (Term.sym x) h = ground arith
size-round go (int i) h = ground arith
size-round go (bool b) h = ground arith
size-round go (str s) h = ground arith
size-round go opaque h = ground arith

pub reduce_within-Shrinks : (fuel : ℕ) → Shrinks (reduce_within fuel)
unfolding reduce_within size
reduce_within-Shrinks zero t = size_pos t
reduce_within-Shrinks (suc fuel) t = size-round (reduce_within fuel) t (reduce_within-Shrinks fuel)
