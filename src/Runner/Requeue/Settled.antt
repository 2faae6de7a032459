-- ===== src/Runner/Requeue/Settled.antt =====
-- crates/runner/src/runner.rs: the outcomes that `requeue_unrun` makes up.
use phpunit_rust.Prelude.{
  ℕ, ◌+◌, String, Bool, true, false, ◌||◌, ◌≡◌, sym, ap, ◌∙◌, inl, inr, List, [], ◌∷◌, ◌++◌, Option,
  any, any-append, Bool-cases, Option-cases, arith, or_right, leb,
}
use phpunit_rust.Types.{TestOutcome, BatchClass, BatchPlan}
use phpunit_rust.Runner.Received.{covers, error_outcome, class_row}
use phpunit_rust.Runner.Received.Laws.{accounts, covers-record_outcome}
use phpunit_rust.Runner.Requeue.{
  Ledger, settle, settle_class, collect_unrun, charge_rest, charge_all, give_up, Unrun, Attempts,
  resolve, max_attempts, charge, requeue_unrun, method_list_missing,
}

-- The second ledger comes from the first by settling errors.
pub data Settled (l : Ledger) : Ledger → Type 0 where
  here : Settled l l
  next :
      {k : Ledger}
      → Settled l k
      → (class method cause : String) → Settled l (settle (error_outcome class method cause) k)

pub Settled-trans : {l k j : Ledger} → Settled l k → Settled k j → Settled l j
Settled-trans p here = p
Settled-trans p (next q c m cause) = next (Settled-trans p q) c m cause

pub covers-Settled :
    {l k : Ledger} (c m : String)
    → Settled l k
    → covers l.received c m ≡ true
    → covers k.received c m ≡ true
covers-Settled c m here h = h
covers-Settled c m (next {k} p class method cause) h =
    rw (covers-record_outcome _ k.received c m) (or_right _ (covers-Settled c m p h))

-- What is received is what is reported, and `on_progress` saw the report.
pub record IsBalanced (l : Ledger) : Type 0 where
  pub reported : (c m : String) → covers l.received c m ≡ any (accounts c m) l.log.outcomes
  pub shown : l.log.progress ≡ l.log.outcomes

any_last : (a b : Bool) → (a || (b || false)) ≡ (b || a)
any_last a b = ground arith

pub settle-IsBalanced : (o : TestOutcome) (l : Ledger) → IsBalanced l → IsBalanced (settle o l)
settle-IsBalanced o l v = record {
  reported = λ c m.
      covers-record_outcome o l.received c m
      ∙ ap (◌||◌ (accounts c m o)) (v.reported c m)
      ∙ sym (any_last (any (accounts c m) l.log.outcomes) (accounts c m o))
      ∙ sym (any-append (accounts c m) l.log.outcomes (o ∷ []));
  shown = ap (λ os. os ++ o ∷ []) v.shown;
}

pub Settled-IsBalanced : {l k : Ledger} → Settled l k → IsBalanced l → IsBalanced k
Settled-IsBalanced here v = v
Settled-IsBalanced (next p c m cause) v = settle-IsBalanced _ _ (Settled-IsBalanced p v)

pub settle_class-Settled : (bc : BatchClass) (l : Ledger) → Settled l (settle_class bc l)
unfolding settle_class
settle_class-Settled bc l = elim (Bool-cases (covers l.received bc.class class_row)) [
  | inl old ↦ rw old here
  | inr new ↦ rw new (next here bc.class class_row method_list_missing)
]

pub collect_unrun-Settled :
    (class_methods : String → Option (List String)) (ci : ℕ) (bcs : List BatchClass) (l : Ledger)
    → Settled l (collect_unrun class_methods ci bcs l).0
unfolding collect_unrun
collect_unrun-Settled cm ci [] l = here
collect_unrun-Settled cm ci (bc ∷ bcs) l = elim (Option-cases (resolve cm bc bc.methods)) [
  | inl missing ↦
      rw (missing, collect_unrun)
        (Settled-trans (settle_class-Settled bc l)
          (collect_unrun-Settled cm (ci + 1) bcs (settle_class bc l)))
  | inr (ms, found) ↦ rw (found, collect_unrun) (collect_unrun-Settled cm (ci + 1) bcs l)
]

pub charge_rest-Settled :
    (us : List Unrun) (l : Ledger) (a : Attempts) → Settled l (charge_rest us l a).ledger
unfolding charge_rest
charge_rest-Settled [] l a = here
charge_rest-Settled (u ∷ us) l a =
    elim (Bool-cases (leb max_attempts (a u.owner.class u.name + 1))) [
      | inl over ↦
          rw (over, charge_rest)
            (Settled-trans (next here u.owner.class u.name _)
              (charge_rest-Settled us (give_up u l) a))
      | inr again ↦
          rw (again, charge_rest)
            (charge_rest-Settled us l (charge u.owner.class u.name (a u.owner.class u.name + 1) a))
    ]

pub charge_all-Settled :
    (us : List Unrun) (l : Ledger) (a : Attempts) → Settled l (charge_all us l a).ledger
unfolding charge_all
charge_all-Settled [] l a = here
charge_all-Settled (u ∷ us) l a =
    elim (Bool-cases (leb max_attempts (a u.owner.class u.name + 1))) [
      | inl over ↦ rw over (
          Settled-trans (next here u.owner.class u.name _) (charge_rest-Settled us (give_up u l) a))
      | inr again ↦
          rw again
            (charge_rest-Settled us l (charge u.owner.class u.name (a u.owner.class u.name + 1) a))
    ]

pub requeue_unrun-Settled :
    (lost : BatchPlan) (class_methods : String → Option (List String)) (l : Ledger) (a : Attempts)
    (queue : List BatchPlan)
    → Settled l (requeue_unrun lost class_methods l a queue).ledger
unfolding requeue_unrun
requeue_unrun-Settled lost cm l a queue =
    Settled-trans (collect_unrun-Settled cm 0 lost.classes l) (charge_all-Settled _ _ a)
