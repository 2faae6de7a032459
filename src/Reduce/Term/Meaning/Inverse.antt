-- ===== src/Reduce/Term/Meaning/Inverse.antt =====
-- What a term's parts stand for, where the term stands for a value.
use phpunit_rust.Prelude.{ℕ, ◌≡◌, refl, Option, none, some}
use phpunit_rust.Int.{ℤ, pos}
use phpunit_rust.Reduce.Value.{Bytes}
use phpunit_rust.Reduce.Term.Meaning.{
  Meant, num, truth, text, inst, array, Slots, slot, Meants, meant, last_slot, count_meants, number,
  as_num, slot_of, length_of, as_inst, as_array, cons_slot, cons_meant,
}

pub number-some : (o : Option Meant) (i : ℤ) → number o ≡ some i → o ≡ some (num i)
number-some (some (num j)) i h = cc
number-some (some (truth b)) i h = cc
number-some (some (text s)) i h = cc
number-some (some (inst j c ss)) i h = cc
number-some (some (array vs)) i h = cc
number-some none i h = cc

-- The case of a binary operation over numbers.
pub as_num-some :
    (o : Option ℤ) (v : Meant) → as_num o ≡ some v → (i : ℤ) × (o ≡ some i) × (v ≡ num i)
as_num-some (some i) v h = (i, refl, cc)
as_num-some none v h = cc

pub slot_of-some :
    (n : Bytes) (o : Option Meant) (v : Meant)
    → slot_of n o ≡ some v
    → (i : ℕ) × (c : Bytes) × (ss : Slots) × (o ≡ some (inst i c ss)) × (last_slot n ss ≡ some v)
slot_of-some n (some (inst i c ss)) v h = (i, c, ss, refl, h)
slot_of-some n (some (num i)) v h = cc
slot_of-some n (some (truth b)) v h = cc
slot_of-some n (some (text s)) v h = cc
slot_of-some n (some (array vs)) v h = cc
slot_of-some n none v h = cc

pub length_of-some :
    (o : Option Meant) (v : Meant)
    → length_of o ≡ some v
    → (vs : Meants) × (o ≡ some (array vs)) × (v ≡ num (pos (count_meants vs)))
length_of-some (some (array vs)) v h = (vs, refl, cc)
length_of-some (some (num i)) v h = cc
length_of-some (some (truth b)) v h = cc
length_of-some (some (text s)) v h = cc
length_of-some (some (inst j c ss)) v h = cc
length_of-some none v h = cc

pub as_inst-some :
    (i : ℕ) (c : Bytes) (o : Option Slots) (v : Meant)
    → as_inst i c o ≡ some v
    → (ss : Slots) × (o ≡ some ss) × (v ≡ inst i c ss)
as_inst-some i c (some ss) v h = (ss, refl, cc)
as_inst-some i c none v h = cc

pub as_array-some :
    (o : Option Meants) (v : Meant)
    → as_array o ≡ some v
    → (vs : Meants) × (o ≡ some vs) × (v ≡ array vs)
as_array-some (some vs) v h = (vs, refl, cc)
as_array-some none v h = cc

pub cons_slot-some :
    (n : Bytes) (o : Option Meant) (p : Option Slots) (ss : Slots)
    → cons_slot n o p ≡ some ss
    → (v : Meant) × (rest : Slots) × (o ≡ some v) × (p ≡ some rest) × (ss ≡ slot n v rest)
cons_slot-some n (some v) (some rest) ss h = (v, rest, refl, refl, cc)
cons_slot-some n none p ss h = cc
cons_slot-some n (some v) none ss h = cc

pub cons_meant-some :
    (o : Option Meant) (p : Option Meants) (vs : Meants)
    → cons_meant o p ≡ some vs
    → (v : Meant) × (rest : Meants) × (o ≡ some v) × (p ≡ some rest) × (vs ≡ meant v rest)
cons_meant-some (some v) (some rest) vs h = (v, rest, refl, refl, cc)
cons_meant-some none p vs h = cc
cons_meant-some (some v) none vs h = cc
