-- ===== src/Reduce/Term/Meaning.antt =====
-- crates/analyzer/src/reduce/term.rs: what a term stands for, with a value for each free symbol. The
-- integers are unbounded and arithmetic is that of integers: a term has a meaning where PHP computes
-- it on integers without overflow.
pub mod Chains
pub mod Rebuilt
pub mod Closed
pub mod Inverse
pub mod Accesses
pub mod Operations
pub mod Kept
use phpunit_rust.Prelude.{
  ℕ, suc, ◌≡◌, Bool, true, false, not, ◌&&◌, if◌then◌else◌, List, [], ◌∷◌, Option, none, some,
}
use phpunit_rust.Int.{ℤ, pos, ◌+ℤ◌, ◌-ℤ◌, ◌*ℤ◌}
use phpunit_rust.Reduce.Value.{Bytes, bytes_eq}
use phpunit_rust.Reduce.Term.{
  Op, add, mul, sub, Term, int, bool, str, bin, obj, field, list, len, opaque, Fields, no_fields,
  entry, Terms, no_terms, term,
}

mutual
  pub data Meant : Type 0 where
    num : ℤ → Meant
    truth : Bool → Meant
    text : Bytes → Meant
    -- Which object it is, its class and its fields.
    inst : ℕ → Bytes → Slots → Meant
    array : Meants → Meant

  -- The fields of an object, as they were written.
  pub data Slots : Type 0 where
    no_slots : Slots
    slot : Bytes → Meant → Slots → Slots

  pub data Meants : Type 0 where
    no_meants : Meants
    meant : Meant → Meants → Meants

-- A value for each free symbol, and the handle of the objects that a term constructs.
pub record Givens : Type 0 where
  pub value_of : Bytes → Option Meant
  pub own_handle : ℕ

abbrev pub last_slot : Bytes → Slots → Option Meant
last_slot n no_slots = none
last_slot n (slot m v ss) = elim (last_slot n ss) [
  | none ↦ if bytes_eq m n then some v else none
  | some w ↦ some w
]

abbrev pub count_meants : Meants → ℕ
count_meants no_meants = 0
count_meants (meant v vs) = suc (count_meants vs)

abbrev pub op_fn : Op → ℤ → ℤ → ℤ
op_fn add a b = a +ℤ b
op_fn mul a b = a *ℤ b
op_fn sub a b = a -ℤ b

abbrev pub number : Option Meant → Option ℤ
number (some (num i)) = some i
number _ = none

abbrev pub both : (ℤ → ℤ → ℤ) → Option ℤ → Option ℤ → Option ℤ
both f (some a) (some b) = some (f a b)
both f _ _ = none

abbrev pub as_num : Option ℤ → Option Meant
as_num none = none
as_num (some i) = some (num i)

abbrev pub slot_of : Bytes → Option Meant → Option Meant
slot_of n (some (inst h c ss)) = last_slot n ss
slot_of n _ = none

abbrev pub length_of : Option Meant → Option Meant
length_of (some (array vs)) = some (num (pos (count_meants vs)))
length_of _ = none

abbrev pub as_inst : ℕ → Bytes → Option Slots → Option Meant
as_inst h c none = none
as_inst h c (some ss) = some (inst h c ss)

abbrev pub as_array : Option Meants → Option Meant
as_array none = none
as_array (some vs) = some (array vs)

abbrev pub cons_slot : Bytes → Option Meant → Option Slots → Option Slots
cons_slot n (some v) (some ss) = some (slot n v ss)
cons_slot n _ _ = none

abbrev pub cons_meant : Option Meant → Option Meants → Option Meants
cons_meant (some v) (some vs) = some (meant v vs)
cons_meant _ _ = none

unfoldable mutual
  pub den : Givens → Term → Option Meant
  den ρ (Term.sym x) = ρ.value_of x
  den ρ (int i) = some (num i)
  den ρ (bool b) = some (truth b)
  den ρ (str s) = some (text s)
  den ρ (bin op a b) = as_num (both (op_fn op) (number (den ρ a)) (number (den ρ b)))
  den ρ (obj c fs) = as_inst ρ.own_handle c (den_fields ρ fs)
  den ρ (field t n) = slot_of n (den ρ t)
  den ρ (list ts) = as_array (den_terms ρ ts)
  den ρ (len t) = length_of (den ρ t)
  den ρ opaque = none

  pub den_fields : Givens → Fields → Option Slots
  den_fields ρ no_fields = some no_slots
  den_fields ρ (entry n t fs) = cons_slot n (den ρ t) (den_fields ρ fs)

  pub den_terms : Givens → Terms → Option Meants
  den_terms ρ no_terms = some no_meants
  den_terms ρ (term t ts) = cons_meant (den ρ t) (den_terms ρ ts)

-- The closed term that stands for a value.
abbrev mutual
  pub quoted : Meant → Term
  quoted (num i) = int i
  quoted (truth b) = bool b
  quoted (text s) = str s
  quoted (inst h c ss) = obj c (quoted_slots ss)
  quoted (array vs) = list (quoted_all vs)

  pub quoted_slots : Slots → Fields
  quoted_slots no_slots = no_fields
  quoted_slots (slot n v ss) = entry n (quoted v) (quoted_slots ss)

  pub quoted_all : Meants → Terms
  quoted_all no_meants = no_terms
  quoted_all (meant v vs) = term (quoted v) (quoted_all vs)
