-- ===== src/Runner/Chunks.antt =====
-- crates/runner/src/runner.rs: `chunk_by_class`, which deals the classes out to the slots in turn.
-- The hash map of a class's cases and the order of the classes are one list of entries.
pub mod Counted
pub mod Dealt
use phpunit_rust.Prelude.{
  ℕ, zero, suc, ◌+◌, ◌%◌, max, String, List, [], ◌∷◌, ◌++◌, ◌==◌, if◌then◌else◌,
}
use phpunit_rust.Discovery.{TestCase}

abbrev pub ClassCases : Type 0
ClassCases = String × List TestCase

unfoldable pub push_case : TestCase → List ClassCases → List ClassCases
push_case x [] = (x.class, x ∷ []) ∷ []
push_case x ((k, xs) ∷ es) =
    if k == x.class then (k, xs ++ x ∷ []) ∷ es else (k, xs) ∷ push_case x es

unfoldable pub cases_by_class : List TestCase → List ClassCases → List ClassCases
cases_by_class [] es = es
cases_by_class (x ∷ xs) es = cases_by_class xs (push_case x es)

-- `slots[i].extend(xs)`; an index out of range, where Rust panics, changes nothing.
abbrev pub extend_slot : List (List TestCase) → ℕ → List TestCase → List (List TestCase)
extend_slot [] i xs = []
extend_slot (s ∷ ss) zero xs = (s ++ xs) ∷ ss
extend_slot (s ∷ ss) (suc i) xs = s ∷ extend_slot ss i xs

unfoldable pub deal : ℕ → ℕ → List ClassCases → List (List TestCase) → List (List TestCase)
deal n i [] slots = slots
deal n i ((k, xs) ∷ es) slots = deal n (i + 1) es (extend_slot slots (i % n) xs)

abbrev pub empty_slots : ℕ → List (List TestCase)
empty_slots zero = []
empty_slots (suc n) = [] ∷ empty_slots n

unfoldable pub chunk_by_class : List TestCase → ℕ → List (List TestCase)
chunk_by_class cases n =
    let slots = max n 1 in deal slots 0 (cases_by_class cases []) (empty_slots slots)
