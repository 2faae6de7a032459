-- ===== src/Cache/Fits.antt =====
-- crates/analyzer/src/cache/gc.rs: what a pruning that succeeds leaves.
use phpunit_rust.Prelude.{
  ℕ, ◌+◌, ◌-◌, ◌≤◌, Bool, false, ◌||◌, String, ◌≡◌, refl, sym, inl, inr, List, [], ◌∷◌, ◌++◌, any,
  any-append, length-append, leb, ltb, length, arith, subst, Bool-cases,
}
use phpunit_rust.ForkPool.Bind.{ok_injective}
use phpunit_rust.ForkPool.{ok}
use phpunit_rust.Cache.{Entry, Pruning, total_size, insert_entry, by_age, evict, prune}

-- Whether an entry of the first list was read later than one of the second.
abbrev pub newer_than : Entry → Entry → Bool
newer_than g k = ltb k.accessed g.accessed

abbrev pub any_newer : List Entry → List Entry → Bool
any_newer gone left = any (λ g. any (newer_than g) left) gone

total_size-insert_entry :
    (e : Entry) (es : List Entry) → total_size (insert_entry e es) ≡ e.size + total_size es
unfolding insert_entry
total_size-insert_entry e [] = refl
total_size-insert_entry e (x ∷ xs) = ground (arith, total_size-insert_entry e xs)

total_size-by_age : (es : List Entry) → total_size (by_age es) ≡ total_size es
unfolding by_age
total_size-by_age [] = refl
total_size-by_age (e ∷ es) =
    omega (arith, total_size-insert_entry e (by_age es), total_size-by_age es)

-- No entry was read later than one that stands behind it.
abbrev Aged : List Entry → Type 0
Aged [] = Unit {0}
Aged (e ∷ es) = (any (newer_than e) es ≡ false) × Aged es

newer-insert_entry :
    (e x : Entry) (es : List Entry)
    → any (newer_than e) (insert_entry x es) ≡ (newer_than e x || any (newer_than e) es)
unfolding insert_entry
newer-insert_entry e x [] = refl
newer-insert_entry e x (y ∷ ys) = ground (arith, newer-insert_entry e x ys)

newer-later :
    (e x : Entry) (es : List Entry)
    → any (newer_than x) es ≡ false
    → e.accessed ≤ x.accessed
    → any (newer_than e) es ≡ false
newer-later e x [] h k = refl
newer-later e x (y ∷ ys) h k = ground (arith, newer-later e x ys)

insert_entry-Aged : (e : Entry) (es : List Entry) → Aged es → Aged (insert_entry e es)
unfolding insert_entry
insert_entry-Aged e [] h = (refl, tt)
insert_entry-Aged e (x ∷ xs) h = elim (Bool-cases (leb x.accessed e.accessed)) [
  | inl old ↦ rw old (ground (arith, newer-insert_entry x e xs, h.0), insert_entry-Aged e xs h.1)
  | inr new ↦ rw new (ground (arith, newer-later e x xs h.0 (ground arith)), (h.0, h.1))
]

by_age-Aged : (es : List Entry) → Aged (by_age es)
unfolding by_age
by_age-Aged [] = tt
by_age-Aged (e ∷ es) = insert_entry-Aged e (by_age es) (by_age-Aged es)

any_newer-nil : (gone : List Entry) → any_newer gone [] ≡ false
any_newer-nil [] = refl
any_newer-nil (g ∷ gs) = any_newer-nil gs

any_newer-cons :
    (gone : List Entry) (e : Entry) (es : List Entry)
    → any_newer gone (e ∷ es) ≡ false
    → any_newer gone es ≡ false
any_newer-cons [] e es h = refl
any_newer-cons (g ∷ gs) e es h = ground (arith, any_newer-cons gs e es)

-- What a pruning that succeeds promises of the bytes, the count and the age of what it removed.
abbrev pub Pruned : ℕ → List Entry → Pruning → Type 0
Pruned max_bytes entries s =
    (s.stats.bytes_before ≡ total_size entries)
    × (s.stats.bytes_after ≡ total_size s.left)
    × (s.stats.bytes_after ≤ max_bytes)
    × (s.stats.bytes_before ≡ total_size s.gone + total_size s.left)
    × (s.stats.entries_removed ≡ length s.gone)
    × (any_newer s.gone s.left ≡ false)

total_size-append : (xs ys : List Entry) → total_size (xs ++ ys) ≡ total_size xs + total_size ys
total_size-append [] ys = omega arith
total_size-append (x ∷ xs) ys = omega (arith, total_size-append xs ys)

evict-Pruned :
    (removes : String → Bool) (max_bytes before total : ℕ) (gone : List Entry) (removed : ℕ)
    (es entries : List Entry) (s : Pruning)
    → before ≡ total_size entries
    → total ≡ total_size es
    → before ≡ total_size gone + total_size es
    → removed ≡ length gone
    → any_newer gone es ≡ false
    → Aged es
    → evict removes max_bytes before total gone removed es ≡ ok s
    → Pruned max_bytes entries s
unfolding evict
evict-Pruned removes m before total gone removed [] entries s hb ht hs hr hn aged h =
    subst (Pruned m entries) (ok_injective h) (hb, ht, omega (arith, ht), hs, hr, hn)
evict-Pruned removes m before total gone removed (e ∷ es) entries s hb ht hs hr hn aged h =
    elim (Bool-cases (ltb m total)) [
      | inl above ↦ elim (Bool-cases (removes e.path)) [
        | inl done ↦
            evict-Pruned removes m before (total - e.size) (gone ++ e ∷ []) (removed + 1) es entries
              s hb (omega (arith, ht)) (omega (arith, hs, total_size-append gone (e ∷ [])))
              (omega (arith, hr, length-append gone (e ∷ [])))
              (ground (
                arith,
                any-append (λ g. any (newer_than g) es) gone (e ∷ []),
                any_newer-cons gone e es hn,
                aged.0,
              ))
              aged.1 (rw (above, done, evict) at h)
        | inr failed ↦ let shown = rw (above, failed, evict) at h in cc
      ]
      | inr below ↦
          subst (Pruned m entries) (ok_injective (rw (below, evict) at h))
            (hb, ht, ground arith, hs, hr, hn)
    ]

-- A pruning that succeeds leaves at most the allowed bytes, accounts for every byte and every
-- removed entry, and keeps no entry that was read before one that it removed.
pub prune-Pruned :
    (removes : String → Bool) (max_bytes : ℕ) (entries : List Entry) (s : Pruning)
    → prune removes max_bytes entries ≡ ok s
    → Pruned max_bytes entries s
unfolding prune
prune-Pruned removes m entries s h =
    let total = total_size entries in
    elim (Bool-cases (leb total m)) [
      | inl fits ↦
          subst (Pruned m entries) (ok_injective (rw fits at h))
            (refl, refl, ground arith, omega arith, refl, refl)
      | inr above ↦
          evict-Pruned removes m total total [] 0 (by_age entries) entries s refl
            (sym (total_size-by_age entries)) (omega (arith, total_size-by_age entries)) refl refl
            (by_age-Aged entries) (rw above at h)
    ]
