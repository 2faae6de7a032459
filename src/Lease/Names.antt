-- ===== src/Lease/Names.antt =====
-- crates/runner/src/resource_lease.rs: the names of the clones.
use phpunit_rust.Prelude.{
  ℕ, zero, suc, ◌+◌, ◌-◌, ◌/◌, ◌%◌, ◌^◌, ◌≤◌, ◌<◌, Bool, true, false, ◌||◌, ◌≡◌, ◌≢◌, refl, sym, ap,
  ◌∙◌, inl, inr, List, [], ◌∷◌, ◌++◌, if◌then◌else◌, length, length-append, leb, nat_eq, arith,
  subst, Bool-cases, append_assoc, append-nil,
}
use phpunit_rust.Digits.{digits_from, digits, value_of, length-digits_from, value_of-digits_from}
use phpunit_rust.Lease.{Text, pg_max_ident, sanitize_ident, after_last, take, suffix_of, clone_name}

length-take {ℓ} : {A : Type ℓ} (n : ℕ) (xs : List A) → length (take n xs) ≤ n
length-take zero xs = omega arith
length-take (suc n) [] = omega arith
length-take (suc n) (x ∷ xs) = omega (arith, length-take n xs)

-- A clone's name has at most 63 characters, the bound of an identifier.
length-clone_name :
    (hash : Text → Text) (base run_uuid : Text) (slot : ℕ)
    → length (clone_name hash base run_uuid slot) ≤ pg_max_ident
unfolding clone_name digits
length-clone_name hash base run_uuid slot =
    let raw_db = after_last 47 base [] in
    let db = sanitize_ident raw_db in
    let natural = db ++ 95 ∷ sanitize_ident run_uuid ++ suffix_of slot in
    let hash8 = take 8 (hash (raw_db ++ 47 ∷ run_uuid ++ 47 ∷ digits slot)) in
    let tail : Text = 95 ∷ hash8 ++ suffix_of slot in
    elim (Bool-cases (leb (length natural) pg_max_ident)) [
      | inl fits ↦ rw fits (ground arith)
      | inr longer ↦ rw longer (
          omega (
            arith,
            length-append (take (pg_max_ident - length tail) db) tail,
            length-take (pg_max_ident - length tail) db,
            length-append hash8 (suffix_of slot),
            length-take 8 (hash (raw_db ++ 47 ∷ run_uuid ++ 47 ∷ digits slot)),
            length-digits_from 20 slot [],
          ))
    ]

has : ℕ → Text → Bool
has c [] = false
has c (d ∷ ds) = nat_eq d c || has c ds

after_last-fresh :
    (sep : ℕ) (cs acc : Text) → has sep cs ≡ false → after_last sep cs acc ≡ acc ++ cs
unfolding after_last has
after_last-fresh sep [] acc h = sym (append-nil acc)
after_last-fresh sep (c ∷ cs) acc h = elim (Bool-cases (nat_eq c sep)) [
  | inl same ↦ ground arith
  | inr other ↦
      rw other
        (after_last-fresh sep cs (acc ++ c ∷ []) (rw other at h) ∙ append_assoc acc (c ∷ []) cs)
]

after_last-sep :
    (sep : ℕ) (xs cs acc : Text) → has sep cs ≡ false → after_last sep (xs ++ sep ∷ cs) acc ≡ cs
unfolding after_last
after_last-sep sep [] cs acc h =
    let same : nat_eq sep sep ≡ true = ground arith in
    rw (same, after_last) (after_last-fresh sep cs [] h)
after_last-sep sep (x ∷ xs) cs acc h =
    after_last-sep sep xs cs (if nat_eq x sep then [] else acc ++ x ∷ []) h

has-digits_from :
    (fuel n : ℕ) (acc : Text) → has 119 acc ≡ false → has 119 (digits_from fuel n acc) ≡ false
unfolding digits_from has
has-digits_from zero n acc h = h
has-digits_from (suc fuel) n acc h =
    ground (arith, has-digits_from fuel (n / 10) ((48 + n % 10) ∷ acc))

clone_name-ends :
    (hash : Text → Text) (base run_uuid : Text) (slot : ℕ)
    → after_last 119 (clone_name hash base run_uuid slot) [] ≡ digits slot
unfolding clone_name digits has
clone_name-ends hash base run_uuid slot =
    let raw_db = after_last 47 base [] in
    let db = sanitize_ident raw_db in
    let uuid = sanitize_ident run_uuid in
    let natural = db ++ 95 ∷ uuid ++ suffix_of slot in
    let hash8 = take 8 (hash (raw_db ++ 47 ∷ run_uuid ++ 47 ∷ digits slot)) in
    let tail : Text = 95 ∷ hash8 ++ suffix_of slot in
    let prefix = take (pg_max_ident - length tail) db in
    let no_w = has-digits_from 20 slot [] refl in
    let ends : (xs : Text) → after_last 119 (xs ++ 119 ∷ digits slot) [] ≡ digits slot =
      λ xs. after_last-sep 119 xs (digits slot) [] no_w in
    elim (Bool-cases (leb (length natural) pg_max_ident)) [
      | inl fits ↦ rw fits (
          subst (λ t. after_last 119 t [] ≡ digits slot) (simp append_assoc)
            (ends (db ++ 95 ∷ uuid ++ 95 ∷ [])))
      | inr longer ↦ rw longer (
          subst (λ t. after_last 119 t [] ≡ digits slot) (simp append_assoc)
            (ends (prefix ++ 95 ∷ hash8 ++ 95 ∷ [])))
    ]

clone_name-injective :
    (hash : Text → Text) (base run_uuid : Text) (slot other : ℕ)
    → slot < 2 ^ 64
    → other < 2 ^ 64
    → clone_name hash base run_uuid slot ≡ clone_name hash base run_uuid other
    → slot ≡ other
unfolding digits value_of
clone_name-injective hash base run_uuid slot other h k e =
    let same : digits slot ≡ digits other =
      sym (clone_name-ends hash base run_uuid slot)
      ∙ ap (λ t. after_last 119 t []) e
      ∙ clone_name-ends hash base run_uuid other in
    sym (value_of-digits_from 20 slot [] (omega arith))
    ∙ ap (λ t. value_of t 0) same
    ∙ value_of-digits_from 20 other [] (omega arith)

-- Two slots of a run never share a clone, also where the names are cut: slots are 64-bit numbers.
pub clone_name_distinct :
    (hash : Text → Text) (base run_uuid : Text) (slot other : ℕ)
    → slot < 2 ^ 64
    → other < 2 ^ 64
    → slot ≢ other
    → clone_name hash base run_uuid slot ≢ clone_name hash base run_uuid other
clone_name_distinct hash base run_uuid slot other h k differ e =
    differ (clone_name-injective hash base run_uuid slot other h k e)
