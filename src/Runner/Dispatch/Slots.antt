-- ===== src/Runner/Dispatch/Slots.antt =====
-- crates/runner/src/runner.rs: the slots' plans in flight, written and taken.
use phpunit_rust.Prelude.{
  ℕ, zero, suc, ◌<◌, String, Bool, false, ◌||◌, ◌≡◌, refl, Option, none, some, List, [], ◌∷◌, any,
  set, get_elem?, length, arith,
}
use phpunit_rust.Types.{BatchPlan}
use phpunit_rust.Runner.Requeue.Pending.{plan_has}

abbrev pub slot_has : String → String → Option BatchPlan → Bool
slot_has c m none = false
slot_has c m (some p) = plan_has c m p

-- Whether a plan in flight names the test.
abbrev pub in_flight : String → String → List (Option BatchPlan) → Bool
in_flight c m slots = any (slot_has c m) slots

abbrev pub at_slot : List (Option BatchPlan) → ℕ → Option BatchPlan
at_slot [] i = none
at_slot (o ∷ os) zero = o
at_slot (o ∷ os) (suc i) = at_slot os i

module _ (c m : String) where
  pub in_flight-take :
      (slots : List (Option BatchPlan)) (i : ℕ)
      → in_flight c m slots ≡ (slot_has c m (at_slot slots i) || in_flight c m (set slots i none))
  in_flight-take [] i = refl
  in_flight-take (o ∷ os) zero = refl
  in_flight-take (o ∷ os) (suc i) = ground (arith, in_flight-take os i)

  pub in_flight-put :
      (slots : List (Option BatchPlan)) (i : ℕ) (p : BatchPlan)
      → i < length slots
      → at_slot slots i ≡ none
      → in_flight c m (set slots i (some p)) ≡ (plan_has c m p || in_flight c m slots)
  in_flight-put [] i p h e = elim h [ ]
  in_flight-put (o ∷ os) zero p h e = ground arith
  in_flight-put (o ∷ os) (suc i) p h e = ground (arith, in_flight-put os i p)

pub at_slot-set-none :
    (slots : List (Option BatchPlan)) (i : ℕ) → at_slot (set slots i none) i ≡ none
at_slot-set-none [] i = refl
at_slot-set-none (o ∷ os) zero = refl
at_slot-set-none (o ∷ os) (suc i) = at_slot-set-none os i

pub at_slot-set_ne :
    (slots : List (Option BatchPlan)) (i j : ℕ) (o : Option BatchPlan)
    → i < j
    → at_slot (set slots i o) j ≡ at_slot slots j
at_slot-set_ne [] i j o h = refl
at_slot-set_ne (x ∷ xs) zero zero o h = elim h [ ]
at_slot-set_ne (x ∷ xs) zero (suc j) o h = refl
at_slot-set_ne (x ∷ xs) (suc i) zero o h = refl
at_slot-set_ne (x ∷ xs) (suc i) (suc j) o h = at_slot-set_ne xs i j o (omega arith)

pub get_elem?-at_slot :
    (slots : List (Option BatchPlan)) (i : ℕ)
    → i < length slots
    → get_elem? slots i ≡ some (at_slot slots i)
get_elem?-at_slot [] i h = elim h [ ]
get_elem?-at_slot (o ∷ os) zero h = refl
get_elem?-at_slot (o ∷ os) (suc i) h = get_elem?-at_slot os i (omega arith)
