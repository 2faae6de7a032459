-- ===== src/Runner/Requeue/Charge.antt =====
-- crates/runner/src/runner.rs: the loop of `requeue_unrun` that charges each un-run test with an
-- execution, and gives up on it at the second one.
use phpunit_rust.Prelude.{
  ◌+◌, ◌≤◌, ◌<◌, String, Bool, true, false, ◌||◌, ◌&&◌, ◌==◌, Option, some, eq_refl, any-append,
  ◌≡◌, refl, inl, inr, List, [], ◌∷◌, none, any, leb, arith, eq_iff, Bool-cases, or_left,
}
use phpunit_rust.Types.{TestOutcome, TestStatus}
use phpunit_rust.Runner.Received.{covers, error_outcome}
use phpunit_rust.Runner.Requeue.{
  Ledger, Unrun, Attempts, Charged, charge, give_up, max_attempts, charge_rest, charge_all,
  poison_pill,
}
use phpunit_rust.Runner.Requeue.Settled.{covers-Settled, charge_rest-Settled}
use phpunit_rust.Runner.Requeue.Kept.{covers-settle_self}
use phpunit_rust.Runner.Requeue.Pending.{is_unrun, option_unrun}

covers-give_up :
    (c m : String) (u : Unrun) (l : Ledger)
    → is_unrun c m u ≡ true
    → covers (give_up u l).received c m ≡ true
covers-give_up c m u l h = covers-settle_self c m u.owner.class u.name poison_pill l (ground arith)

abbrev Kept : String → String → Charged → Type 0
Kept c m r = (covers r.ledger.received c m || any (is_unrun c m) r.rest) ≡ true

charge_rest-Kept :
    (c m : String) (us : List Unrun) (l : Ledger) (a : Attempts)
    → any (is_unrun c m) us ≡ true
    → Kept c m (charge_rest us l a)
unfolding charge_rest
charge_rest-Kept c m [] l a h = cc
charge_rest-Kept c m (u ∷ us) l a h =
    elim (Bool-cases (leb max_attempts (a u.owner.class u.name + 1))) [
      | inl over ↦
          rw (over, charge_rest)
            (elim (Bool-cases (is_unrun c m u)) [
              | inl own ↦ or_left _ (
                  covers-Settled c m (charge_rest-Settled us (give_up u l) a)
                    (covers-give_up c m u l own))
              | inr other ↦ charge_rest-Kept c m us (give_up u l) a (rw other at h)
            ])
      | inr again ↦
          rw (again, charge_rest)
            (ground (
              arith,
              charge_rest-Kept c m us l
                  (charge u.owner.class u.name (a u.owner.class u.name + 1) a),
            ))
    ]

-- Each un-run test is reported or may run again.
pub charge_all_kept :
    (c m : String) (us : List Unrun) (l : Ledger) (a : Attempts)
    → any (is_unrun c m) us ≡ true
    → let r = charge_all us l a in
      (covers r.ledger.received c m || (option_unrun c m r.suspect || any (is_unrun c m) r.rest))
      ≡ true
unfolding charge_all
charge_all_kept c m [] l a h = cc
charge_all_kept c m (u ∷ us) l a h =
    elim (Bool-cases (leb max_attempts (a u.owner.class u.name + 1))) [
      | inl over ↦ rw over (elim (Bool-cases (is_unrun c m u)) [
        | inl own ↦ or_left _ (
            covers-Settled c m (charge_rest-Settled us (give_up u l) a)
              (covers-give_up c m u l own))
        | inr other ↦ ground (arith, charge_rest-Kept c m us (give_up u l) a (rw other at h))
      ])
      | inr again ↦ rw again (
          ground (
            arith,
            charge_rest-Kept c m us l (charge u.owner.class u.name (a u.owner.class u.name + 1) a),
          ))
    ]

-- The counts grow and stay below the bound; a test that may run again was never charged before.
abbrev Counted : String → String → Attempts → Charged → Type 0
Counted c m a r =
    (a c m ≤ r.attempts c m)
    × (a c m < max_attempts → r.attempts c m < max_attempts)
    × (any (is_unrun c m) r.rest ≡ true → (a c m ≡ 0) × (r.attempts c m ≡ 1))

charged_once :
    (c m : String) (u : Unrun) (us : List Unrun) (a a' : Attempts)
    → leb max_attempts (a u.owner.class u.name + 1) ≡ false
    → let n = charge u.owner.class u.name (a u.owner.class u.name + 1) a c m in
      (n ≤ a' c m)
        × (n < max_attempts → a' c m < max_attempts)
        × (any (is_unrun c m) us ≡ true → (n ≡ 0) × (a' c m ≡ 1))
      → (a c m ≤ a' c m)
        × (a c m < max_attempts → a' c m < max_attempts)
        × (any (is_unrun c m) (u ∷ us) ≡ true → (a c m ≡ 0) × (a' c m ≡ 1))
charged_once c m u us a a' again h =
    ground (arith, eq_iff c u.owner.class, eq_iff u.owner.class c, eq_iff m u.name, eq_iff u.name m)

suspect_none : (us : List Unrun) (l : Ledger) (a : Attempts) → (charge_rest us l a).suspect ≡ none
unfolding charge_rest
suspect_none [] l a = refl
suspect_none (u ∷ us) l a = ground (
  arith,
  suspect_none us (give_up u l) a,
  suspect_none us l (charge u.owner.class u.name (a u.owner.class u.name + 1) a),
)

charge_rest-Counted :
    (c m : String) (us : List Unrun) (l : Ledger) (a : Attempts)
    → Counted c m a (charge_rest us l a)
unfolding charge_rest
charge_rest-Counted c m [] l a = (omega arith, λ h. h, λ h. cc)
charge_rest-Counted c m (u ∷ us) l a =
    elim (Bool-cases (leb max_attempts (a u.owner.class u.name + 1))) [
      | inl over ↦ rw (over, charge_rest) (charge_rest-Counted c m us (give_up u l) a)
      | inr again ↦
          let a' = charge u.owner.class u.name (a u.owner.class u.name + 1) a in
          let r = charge_rest us l a' in
          rw (again, charge_rest)
            (charged_once c m u r.rest a r.attempts again (charge_rest-Counted c m us l a'))
    ]

-- As `Counted`, for the first test too.
pub charge_all_counted :
    (c m : String) (us : List Unrun) (l : Ledger) (a : Attempts)
    → let r = charge_all us l a in
      (a c m ≤ r.attempts c m)
      × (a c m < max_attempts → r.attempts c m < max_attempts)
      × ((option_unrun c m r.suspect || any (is_unrun c m) r.rest) ≡ true
          → (a c m ≡ 0) × (r.attempts c m ≡ 1))
unfolding charge_all
charge_all_counted c m [] l a = (omega arith, λ h. h, λ h. cc)
charge_all_counted c m (u ∷ us) l a =
    elim (Bool-cases (leb max_attempts (a u.owner.class u.name + 1))) [
      | inl over ↦
          let h = charge_rest-Counted c m us (give_up u l) a in
          rw over (h.0, h.1, λ some. h.2 (ground (arith, suspect_none us (give_up u l) a)))
      | inr again ↦
          let a' = charge u.owner.class u.name (a u.owner.class u.name + 1) a in
          let r = charge_rest us l a' in
          let h = charged_once c m u r.rest a r.attempts again (charge_rest-Counted c m us l a') in
          rw again h
    ]

charge_rest_subset :
    (c m : String) (us : List Unrun) (l : Ledger) (a : Attempts)
    → any (is_unrun c m) (charge_rest us l a).rest ≡ true
    → any (is_unrun c m) us ≡ true
unfolding charge_rest
charge_rest_subset c m [] l a h = h
charge_rest_subset c m (u ∷ us) l a h =
    let a' = charge u.owner.class u.name (a u.owner.class u.name + 1) a in
    ground (arith, charge_rest_subset c m us (give_up u l) a, charge_rest_subset c m us l a')

-- Only un-run tests may run again.
pub charge_all_subset :
    (c m : String) (us : List Unrun) (l : Ledger) (a : Attempts)
    → (option_unrun c m (charge_all us l a).suspect || any (is_unrun c m) (charge_all us l a).rest)
      ≡ true
    → any (is_unrun c m) us ≡ true
unfolding charge_all
charge_all_subset c m [] l a h = cc
charge_all_subset c m (u ∷ us) l a h =
    let a' = charge u.owner.class u.name (a u.owner.class u.name + 1) a in
    ground (
      arith,
      charge_rest_subset c m us (give_up u l) a,
      charge_rest_subset c m us l a',
      suspect_none us (give_up u l) a,
      suspect_none us l a',
    )

abbrev is_error : TestStatus → Bool
is_error TestStatus.error = true
is_error _ = false

abbrev has_message : String → Option String → Bool
has_message text none = false
has_message text (some t) = t == text

-- The error that gives up on the test.
abbrev pub is_poison : String → String → TestOutcome → Bool
is_poison c m o =
    o.class == c && o.method == m && is_error o.status && has_message poison_pill o.message

module _ (c m : String) where
  abbrev poisoned : Ledger → Bool
  poisoned l = any (is_poison c m) l.log.outcomes

  poisoned-give_up :
      (u : Unrun) (l : Ledger)
      → (is_unrun c m u || poisoned l) ≡ true
      → poisoned (give_up u l) ≡ true
  poisoned-give_up u l h =
      let own = error_outcome u.owner.class u.name poison_pill in
      ground (arith, any-append (is_poison c m) l.log.outcomes (own ∷ []), eq_refl poison_pill)

  charge_rest-poisoned :
      (us : List Unrun) (l : Ledger) (a : Attempts)
      → 1 ≤ a c m
      → (any (is_unrun c m) us || poisoned l) ≡ true
      → poisoned (charge_rest us l a).ledger ≡ true
  unfolding charge_rest
  charge_rest-poisoned [] l a charged h = h
  charge_rest-poisoned (u ∷ us) l a charged h =
      elim (Bool-cases (leb max_attempts (a u.owner.class u.name + 1))) [
        | inl over ↦
            rw (over, charge_rest)
              (charge_rest-poisoned us (give_up u l) a charged
                (ground (arith, poisoned-give_up u l)))
        | inr again ↦
            rw (again, charge_rest)
              (charge_rest-poisoned us l
                (charge u.owner.class u.name (a u.owner.class u.name + 1) a) (ground arith)
                (ground (
                  arith,
                  eq_iff c u.owner.class,
                  eq_iff u.owner.class c,
                  eq_iff m u.name,
                  eq_iff u.name m,
                )))
      ]

  -- A test with a charge that is un-run again has its error.
  pub charge_all-poisoned :
      (us : List Unrun) (l : Ledger) (a : Attempts)
      → 1 ≤ a c m
      → any (is_unrun c m) us ≡ true
      → any (is_poison c m) (charge_all us l a).ledger.log.outcomes ≡ true
  unfolding charge_all
  charge_all-poisoned [] l a charged h = cc
  charge_all-poisoned (u ∷ us) l a charged h =
      elim (Bool-cases (leb max_attempts (a u.owner.class u.name + 1))) [
        | inl over ↦
            rw over (
              charge_rest-poisoned us (give_up u l) a charged
                (ground (arith, poisoned-give_up u l)))
        | inr again ↦ rw again (
            charge_rest-poisoned us l (charge u.owner.class u.name (a u.owner.class u.name + 1) a)
              (ground arith)
              (ground (
                arith,
                eq_iff c u.owner.class,
                eq_iff u.owner.class c,
                eq_iff m u.name,
                eq_iff u.name m,
              )))
      ]
