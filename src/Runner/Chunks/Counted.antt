-- ===== src/Runner/Chunks/Counted.antt =====
-- crates/runner/src/runner.rs: how often the slots of `chunk_by_class` hold a case.
use native.Mathlib.Nat.{mod-lt}
use phpunit_rust.Prelude.{
  ℕ, zero, suc, ◌+◌, ◌<◌, ◌%◌, max, Bool, ◌≡◌, refl, sym, ◌∙◌, List, [], ◌∷◌, ◌++◌, if◌then◌else◌,
  length, arith, subst,
}
use phpunit_rust.Discovery.{TestCase}
use phpunit_rust.Runner.Chunks.{
  ClassCases, push_case, cases_by_class, extend_slot, deal, empty_slots, chunk_by_class,
}

-- How many of the cases pass the test.
abbrev pub count_if : (TestCase → Bool) → List TestCase → ℕ
count_if f [] = 0
count_if f (x ∷ xs) = (if f x then 1 else 0) + count_if f xs

abbrev pub count_slots : (TestCase → Bool) → List (List TestCase) → ℕ
count_slots f [] = 0
count_slots f (s ∷ ss) = count_if f s + count_slots f ss

abbrev count_entries : (TestCase → Bool) → List ClassCases → ℕ
count_entries f [] = 0
count_entries f (e ∷ es) = count_if f e.1 + count_entries f es

count_if-append :
    (f : TestCase → Bool) (xs ys : List TestCase)
    → count_if f (xs ++ ys) ≡ count_if f xs + count_if f ys
count_if-append f [] ys = omega arith
count_if-append f (x ∷ xs) ys = omega (arith, count_if-append f xs ys)

count_entries-push_case :
    (f : TestCase → Bool) (x : TestCase) (es : List ClassCases)
    → count_entries f (push_case x es) ≡ count_if f (x ∷ []) + count_entries f es
unfolding push_case
count_entries-push_case f x [] = omega arith
count_entries-push_case f x ((k, xs) ∷ es) =
    ground (arith, count_if-append f xs (x ∷ []), count_entries-push_case f x es)

count_entries-cases_by_class :
    (f : TestCase → Bool) (xs : List TestCase) (es : List ClassCases)
    → count_entries f (cases_by_class xs es) ≡ count_if f xs + count_entries f es
unfolding cases_by_class
count_entries-cases_by_class f [] es = omega arith
count_entries-cases_by_class f (x ∷ xs) es =
    omega
      (arith, count_entries-cases_by_class f xs (push_case x es), count_entries-push_case f x es)

length-extend_slot :
    (ss : List (List TestCase)) (i : ℕ) (xs : List TestCase)
    → length (extend_slot ss i xs) ≡ length ss
length-extend_slot [] i xs = refl
length-extend_slot (s ∷ ss) zero xs = refl
length-extend_slot (s ∷ ss) (suc i) xs = omega (arith, length-extend_slot ss i xs)

count_slots-extend_slot :
    (f : TestCase → Bool) (ss : List (List TestCase)) (i : ℕ) (xs : List TestCase)
    → i < length ss
    → count_slots f (extend_slot ss i xs) ≡ count_slots f ss + count_if f xs
count_slots-extend_slot f [] i xs h = elim h [ ]
count_slots-extend_slot f (s ∷ ss) zero xs h = omega (arith, count_if-append f s xs)
count_slots-extend_slot f (s ∷ ss) (suc i) xs h =
    omega (arith, count_slots-extend_slot f ss i xs (omega arith))

count_slots-deal :
    (f : TestCase → Bool) (n i : ℕ) (es : List ClassCases) (ss : List (List TestCase))
    → 0 < n
    → length ss ≡ n
    → count_slots f (deal n i es ss) ≡ count_slots f ss + count_entries f es
unfolding deal
count_slots-deal f n i [] ss h k = omega arith
count_slots-deal f n i ((c, xs) ∷ es) ss h k = omega (
  arith,
  count_slots-deal f n (i + 1) es (extend_slot ss (i % n) xs) h
      (length-extend_slot ss (i % n) xs ∙ k),
  count_slots-extend_slot f ss (i % n) xs (subst (λ t. i % n < t) (sym k) (mod-lt i h)),
)

length-empty_slots : (n : ℕ) → length (empty_slots n) ≡ n
length-empty_slots zero = refl
length-empty_slots (suc n) = omega (arith, length-empty_slots n)

count_slots-empty_slots : (f : TestCase → Bool) (n : ℕ) → count_slots f (empty_slots n) ≡ 0
count_slots-empty_slots f zero = refl
count_slots-empty_slots f (suc n) = omega (arith, count_slots-empty_slots f n)

-- The slots together hold as many cases as there are, whatever is counted of them.
count_slots-chunk_by_class :
    (f : TestCase → Bool) (cases : List TestCase) (n : ℕ)
    → count_slots f (chunk_by_class cases n) ≡ count_if f cases
unfolding chunk_by_class
count_slots-chunk_by_class f cases n =
    let slots = max n 1 in
    omega (
      arith,
      count_slots-deal f slots 0 (cases_by_class cases []) (empty_slots slots) (omega arith)
          (length-empty_slots slots),
      count_slots-empty_slots f slots,
      count_entries-cases_by_class f cases [],
    )
