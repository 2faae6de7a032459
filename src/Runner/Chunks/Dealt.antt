-- ===== src/Runner/Chunks/Dealt.antt =====
-- crates/runner/src/runner.rs: the slot to which `chunk_by_class` deals a class.
use phpunit_rust.Prelude.{
  ℕ, zero, suc, ◌+◌, ◌%◌, max, String, Bool, true, false, ◌||◌, ◌≡◌, ◌≢◌, refl, sym, ap, ◌∙◌, ◌⊎◌,
  inl, inr, List, [], ◌∷◌, ◌==◌, any, any-append, arith, subst, Bool-cases, eq_iff,
}
use phpunit_rust.Discovery.{TestCase}
use phpunit_rust.Runner.Chunks.{
  ClassCases, push_case, cases_by_class, extend_slot, deal, empty_slots, chunk_by_class,
}

-- Whether the case is one of the class.
abbrev pub in_class : String → TestCase → Bool
in_class c x = x.class == c

abbrev pub has_class : String → List TestCase → Bool
has_class c xs = any (in_class c) xs

-- Whether the slot of that index holds a case of the class.
abbrev pub has_at : String → List (List TestCase) → ℕ → Bool
has_at c [] j = false
has_at c (s ∷ ss) zero = has_class c s
has_at c (s ∷ ss) (suc j) = has_at c ss j

abbrev has_key : String → List ClassCases → Bool
has_key c [] = false
has_key c (e ∷ es) = (e.0 == c) || has_key c es

-- An entry holds cases of its own class only, and no class has two entries.
abbrev Sorted : List ClassCases → Type 0
Sorted [] = Unit {0}
Sorted (e ∷ es) =
    ((c : String) → has_class c e.1 ≡ true → e.0 ≡ c) × (has_key e.0 es ≡ false) × Sorted es

has_key-push_case :
    (c : String) (x : TestCase) (es : List ClassCases)
    → has_key c (push_case x es) ≡ (has_key c es || x.class == c)
unfolding push_case
has_key-push_case c x [] = ground arith
has_key-push_case c x ((k, xs) ∷ es) = elim (Bool-cases (k == x.class)) [
  | inl same ↦ rw same (
      subst (λ t. (k == c || has_key c es) ≡ (k == c || has_key c es || t == c))
        ((eq_iff k x.class).0 same) (ground arith))
  | inr other ↦ rw other (ground (arith, has_key-push_case c x es))
]

push_case-Sorted : (x : TestCase) (es : List ClassCases) → Sorted es → Sorted (push_case x es)
unfolding push_case
push_case-Sorted x [] h = (λ c e. ground (arith, eq_iff x.class c), refl, tt)
push_case-Sorted x ((k, xs) ∷ es) h = elim (Bool-cases (k == x.class)) [
  | inl same ↦ rw same (
    λ c e.
        ground
          (arith, h.0 c, eq_iff k x.class, eq_iff x.class c, any-append (in_class c) xs (x ∷ [])),
    h.1,
    h.2,
  )
  | inr other ↦ rw other (
    h.0,
    ground (arith, has_key-push_case k x es, eq_iff x.class k, eq_iff k x.class),
    push_case-Sorted x es h.2,
  )
]

cases_by_class-Sorted :
    (xs : List TestCase) (es : List ClassCases) → Sorted es → Sorted (cases_by_class xs es)
unfolding cases_by_class
cases_by_class-Sorted [] es h = h
cases_by_class-Sorted (x ∷ xs) es h =
    cases_by_class-Sorted xs (push_case x es) (push_case-Sorted x es h)

-- A case of the class that a longer slot has is an old one or a new one.
has_at-extend_slot :
    (c : String) (ss : List (List TestCase)) (i : ℕ) (xs : List TestCase) (j : ℕ)
    → has_at c (extend_slot ss i xs) j ≡ true
    → (has_at c ss j ≡ true) ⊎ (has_class c xs ≡ true) × (j ≡ i)
has_at-extend_slot c [] i xs j h = cc
has_at-extend_slot c (s ∷ ss) zero xs zero h = ground (arith, any-append (in_class c) s xs)
has_at-extend_slot c (s ∷ ss) zero xs (suc j) h = inl h
has_at-extend_slot c (s ∷ ss) (suc i) xs zero h = inl h
has_at-extend_slot c (s ∷ ss) (suc i) xs (suc j) h = elim (has_at-extend_slot c ss i xs j h) [
  | inl old ↦ inl old
  | inr new ↦ inr (new.0, ap suc new.1)
]

deal-stays :
    (c : String) (p n i : ℕ) (es : List ClassCases) (ss : List (List TestCase))
    → Sorted es
    → has_key c es ≡ false
    → ((j : ℕ) → has_at c ss j ≡ true → j ≡ p)
    → (j : ℕ) → has_at c (deal n i es ss) j ≡ true
    → j ≡ p
unfolding deal
deal-stays c p n i [] ss own new at j h = at j h
deal-stays c p n i ((k, xs) ∷ es) ss own new at j h =
    deal-stays c p n (i + 1) es (extend_slot ss (i % n) xs) own.2 (ground arith)
      (λ l e. elim (has_at-extend_slot c ss (i % n) xs l e) [
        | inl old ↦ at l old
        | inr added ↦ ground (arith, own.0 c added.0, eq_iff k c)
      ])
      j h

deal-one :
    (c : String) (n i : ℕ) (es : List ClassCases) (ss : List (List TestCase))
    → Sorted es
    → ((j : ℕ) → has_at c ss j ≡ false)
    → (j k : ℕ) → has_at c (deal n i es ss) j ≡ true
    → has_at c (deal n i es ss) k ≡ true
    → j ≡ k
unfolding deal
deal-one c n i [] ss own none_at j k hj hk = ground (arith, none_at j)
deal-one c n i ((e, xs) ∷ es) ss own none_at j k hj hk = elim (Bool-cases (e == c)) [
  | inl same ↦
      let only : (l : ℕ) → has_at c (extend_slot ss (i % n) xs) l ≡ true → l ≡ i % n = λ l h.
        elim (has_at-extend_slot c ss (i % n) xs l h) [
          | inl old ↦ ground (arith, none_at l)
          | inr added ↦ added.1
        ] in
      let new : has_key c es ≡ false =
        subst (λ t. has_key t es ≡ false) ((eq_iff e c).0 same) own.1 in
      let stays = deal-stays c (i % n) n (i + 1) es (extend_slot ss (i % n) xs) own.2 new only in
      stays j hj ∙ sym (stays k hk)
  | inr other ↦
      deal-one c n (i + 1) es (extend_slot ss (i % n) xs) own.2
        (λ l. elim (Bool-cases (has_at c (extend_slot ss (i % n) xs) l)) [
          | inl h ↦ elim (has_at-extend_slot c ss (i % n) xs l h) [
            | inl old ↦ ground (arith, none_at l)
            | inr added ↦ ground (arith, own.0 c added.0, eq_iff e c)
          ]
          | inr h ↦ h
        ])
        j k hj hk
]

has_at-empty_slots : (c : String) (n j : ℕ) → has_at c (empty_slots n) j ≡ false
has_at-empty_slots c zero j = refl
has_at-empty_slots c (suc n) zero = refl
has_at-empty_slots c (suc n) (suc j) = has_at-empty_slots c n j

-- A class is never split: where a slot holds a case of it, no other slot does.
pub chunk_by_class_one_slot :
    (c : String) (cases : List TestCase) (n j k : ℕ)
    → has_at c (chunk_by_class cases n) j ≡ true
    → j ≢ k
    → has_at c (chunk_by_class cases n) k ≡ false
unfolding chunk_by_class
chunk_by_class_one_slot c cases n j k here differ =
    let slots = max n 1 in
    let dealt = chunk_by_class cases n in
    elim (Bool-cases (has_at c dealt k)) [
      | inl there ↦ absurd (
          differ (
            deal-one c slots 0 (cases_by_class cases []) (empty_slots slots)
              (cases_by_class-Sorted cases [] tt) (has_at-empty_slots c slots) j k here there))
      | inr free ↦ free
    ]
