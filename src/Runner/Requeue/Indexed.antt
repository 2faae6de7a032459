-- ===== src/Runner/Requeue/Indexed.antt =====
-- crates/runner/src/runner.rs: the classes and the indices of the un-run tests.
use phpunit_rust.Prelude.{
  ℕ, ◌+◌, ◌≤◌, ◌<◌, String, ◌≡◌, inl, inr, List, [], ◌∷◌, ◌++◌, Option, if◌then◌else◌, leb, nat_eq,
  length, arith, Bool-cases, Option-cases,
}
use phpunit_rust.Types.{BatchClass}
use phpunit_rust.Runner.Received.{ReceivedOutcomes}
use phpunit_rust.Runner.Requeue.{
  Ledger, Unrun, Attempts, charge, give_up, max_attempts, charge_rest, charge_all, settle_class,
  collect_unrun, unrun_methods, resolve,
}
use phpunit_rust.Runner.Requeue.Pending.{Indexed}

-- What is charged keeps the class name of its index.
charge_rest-Indexed :
    (cls : ℕ → String) (us : List Unrun) (l : Ledger) (a : Attempts)
    → Indexed cls us
    → Indexed cls (charge_rest us l a).rest
unfolding charge_rest
charge_rest-Indexed cls [] l a h = tt
charge_rest-Indexed cls (u ∷ us) l a h =
    elim (Bool-cases (leb max_attempts (a u.owner.class u.name + 1))) [
      | inl over ↦ rw (over, charge_rest) (charge_rest-Indexed cls us (give_up u l) a h.1)
      | inr again ↦
          rw (again, charge_rest)
            (
              h.0,
              charge_rest-Indexed cls us l
                  (charge u.owner.class u.name (a u.owner.class u.name + 1) a) h.1,
            )
    ]

pub charge_all-Indexed :
    (cls : ℕ → String) (us : List Unrun) (l : Ledger) (a : Attempts)
    → Indexed cls us
    → Indexed cls (charge_all us l a).rest
unfolding charge_all
charge_all-Indexed cls [] l a h = tt
charge_all-Indexed cls (u ∷ us) l a h =
    elim (Bool-cases (leb max_attempts (a u.owner.class u.name + 1))) [
      | inl over ↦ rw over (charge_rest-Indexed cls us (give_up u l) a h.1)
      | inr again ↦ rw again (
          charge_rest-Indexed cls us l (charge u.owner.class u.name (a u.owner.class u.name + 1) a)
            h.1)
    ]

-- The class name at an index of the list, counted from `ci`.
abbrev pub class_from : ℕ → List BatchClass → ℕ → String
class_from ci [] k = ""
class_from ci (bc ∷ bcs) k = if nat_eq k ci then bc.class else class_from (ci + 1) bcs k

Indexed-append :
    (cls : ℕ → String) (us vs : List Unrun)
    → Indexed cls us
    → Indexed cls vs
    → Indexed cls (us ++ vs)
Indexed-append cls [] vs hu hv = hv
Indexed-append cls (u ∷ us) vs hu hv = (hu.0, Indexed-append cls us vs hu.1 hv)

unrun_methods-Indexed :
    (cls : ℕ → String) (r : ReceivedOutcomes) (ci : ℕ) (bc : BatchClass) (ms : List String)
    → bc.class ≡ cls ci
    → Indexed cls (unrun_methods r ci bc ms)
unfolding unrun_methods
unrun_methods-Indexed cls r ci bc [] h = tt
unrun_methods-Indexed cls r ci bc (m ∷ ms) h =
    ground (arith, unrun_methods-Indexed cls r ci bc ms h)

pub collect_unrun-Indexed :
    (cls : ℕ → String) (cm : String → Option (List String)) (ci : ℕ) (bcs : List BatchClass)
    (l : Ledger)
    → ((k : ℕ) → ci ≤ k → k < ci + length bcs → cls k ≡ class_from ci bcs k)
    → Indexed cls (collect_unrun cm ci bcs l).1
unfolding collect_unrun
collect_unrun-Indexed cls cm ci [] l h = tt
collect_unrun-Indexed cls cm ci (bc ∷ bcs) l h = elim (Option-cases (resolve cm bc bc.methods)) [
  | inl missing ↦
      rw (missing, collect_unrun)
        (collect_unrun-Indexed cls cm (ci + 1) bcs (settle_class bc l) later)
  | inr (ms, found) ↦
      rw (found, collect_unrun)
        (Indexed-append cls (unrun_methods l.received ci bc ms) _
          (unrun_methods-Indexed cls l.received ci bc ms (ground (arith, h ci)))
          (collect_unrun-Indexed cls cm (ci + 1) bcs l later))
]
  where
    later : (k : ℕ) → ci + 1 ≤ k → k < ci + 1 + length bcs → cls k ≡ class_from (ci + 1) bcs k
    later k low high = ground (arith, h k)
