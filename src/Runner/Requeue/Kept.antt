-- ===== src/Runner/Requeue/Kept.antt =====
-- crates/runner/src/runner.rs: which tests of a dead worker's batch `requeue_unrun` collects.
use phpunit_rust.Prelude.{
  ℕ, ◌+◌, String, Bool, true, false, not, ◌||◌, ◌&&◌, ◌≡◌, sym, ◌∙◌, inl, inr, List, [], ◌∷◌, ◌++◌,
  ◌==◌, Option, none, some, any, any-append, arith, subst, eq_iff, eq_refl, Bool-cases,
  Option-cases, or_left, or_right,
}
use phpunit_rust.Types.{TestOutcome, BatchClass}
use phpunit_rust.Runner.Received.{ReceivedOutcomes, is_text, covers, class_row, error_outcome}
use phpunit_rust.Runner.Received.Laws.{accounts, covers-record_outcome}
use phpunit_rust.Runner.Requeue.{
  Ledger, Unrun, settle, settle_class, unrun_methods, collect_unrun, resolve, method_list_missing,
}
use phpunit_rust.Runner.Requeue.Settled.{
  Settled, settle_class-Settled, IsBalanced, covers-Settled, collect_unrun-Settled,
}
use phpunit_rust.Runner.Requeue.Pending.{is_unrun}

-- Whether a class of a batch stands for the test: by its method list, by the list that discovery
-- found, or, where there is none, as a whole.
abbrev pub expects_in : Option (List String) → String → String → BatchClass → Bool
expects_in none c m bc = bc.class == c
expects_in (some ms) c m bc = bc.class == c && any (is_text m) ms

abbrev pub expects : (String → Option (List String)) → String → String → BatchClass → Bool
expects cm c m bc = expects_in (resolve cm bc bc.methods) c m bc

pub any-unrun_methods :
    (r : ReceivedOutcomes) (ci : ℕ) (bc : BatchClass) (c m : String) (ms : List String)
    → any (is_unrun c m) (unrun_methods r ci bc ms)
      ≡ ((bc.class == c && any (is_text m) ms) && not (covers r c m))
unfolding unrun_methods
any-unrun_methods r ci bc c m [] = ground arith
any-unrun_methods r ci bc c m (n ∷ ms) =
    ground (arith, any-unrun_methods r ci bc c m ms, eq_iff bc.class c, eq_iff n m)

pub covers-settle_self :
    (c m class method cause : String) (l : Ledger)
    → (class == c && (method == class_row || method == m)) ≡ true
    → covers (settle (error_outcome class method cause) l).received c m ≡ true
covers-settle_self c m class method cause l h =
    rw (covers-record_outcome (error_outcome class method cause) l.received c m)
      (or_left (covers l.received c m) h)

-- A class row in the ledger covers every test of its class.
abbrev pub RowCovers : Ledger → Type 0
RowCovers l = (c m : String) → covers l.received c class_row ≡ true → covers l.received c m ≡ true

any-accounts_row :
    (c m : String) (os : List TestOutcome)
    → any (accounts c class_row) os ≡ true
    → any (accounts c m) os ≡ true
any-accounts_row c m [] h = h
any-accounts_row c m (o ∷ os) h = ground (arith, any-accounts_row c m os)

pub IsBalanced-RowCovers : (l : Ledger) → IsBalanced l → RowCovers l
IsBalanced-RowCovers l v c m h =
    v.reported c m ∙ any-accounts_row c m l.log.outcomes (sym (v.reported c class_row) ∙ h)

covers-settle_class :
    (c m : String) (bc : BatchClass) (l : Ledger)
    → RowCovers l
    → (bc.class == c) ≡ true
    → covers (settle_class bc l).received c m ≡ true
unfolding settle_class
covers-settle_class c m bc l rows h = elim (Bool-cases (covers l.received bc.class class_row)) [
  | inl old ↦
      rw old
        (rows c m (subst (λ t. covers l.received t class_row ≡ true) ((eq_iff bc.class c).0 h) old))
  | inr new ↦
      rw new
        (covers-settle_self c m bc.class class_row method_list_missing l (rw h (eq_refl class_row)))
]

settle-RowCovers : (o : TestOutcome) (l : Ledger) → RowCovers l → RowCovers (settle o l)
settle-RowCovers o l rows c m h =
    rw (covers-record_outcome o l.received c m)
      (ground (arith, covers-record_outcome o l.received c class_row, rows c m))

settle_class-RowCovers :
    (bc : BatchClass) (l : Ledger) → RowCovers l → RowCovers (settle_class bc l)
unfolding settle_class
settle_class-RowCovers bc l rows = elim (Bool-cases (covers l.received bc.class class_row)) [
  | inl old ↦ rw old rows
  | inr new ↦ rw new (λ c m h. settle-RowCovers _ l rows c m h)
]

found_kept :
    (r : ReceivedOutcomes) (later : Ledger × List Unrun) (ci : ℕ) (bc : BatchClass)
    (ms : List String) (c m : String) (more : Bool)
    → (covers r c m ≡ true → covers later.0.received c m ≡ true)
    → (more ≡ true → (covers later.0.received c m || any (is_unrun c m) later.1) ≡ true)
    → (expects_in (some ms) c m bc || more) ≡ true
    → (covers later.0.received c m || any (is_unrun c m) (unrun_methods r ci bc ms ++ later.1))
      ≡ true
found_kept r later ci bc ms c m more grows ih h =
    rw
      (
        any-append (is_unrun c m) (unrun_methods r ci bc ms) later.1,
        any-unrun_methods r ci bc c m ms,
      )
      (ground arith)

found_sound :
    (r : ReceivedOutcomes) (later : List Unrun) (ci : ℕ) (bc : BatchClass) (ms : List String)
    (c m : String) (more : Bool)
    → (any (is_unrun c m) later ≡ true → (more ≡ true) × (covers r c m ≡ false))
    → any (is_unrun c m) (unrun_methods r ci bc ms ++ later) ≡ true
    → ((expects_in (some ms) c m bc || more) ≡ true) × (covers r c m ≡ false)
found_sound r later ci bc ms c m more ih h = ground (
  arith,
  any-append (is_unrun c m) (unrun_methods r ci bc ms) later,
  any-unrun_methods r ci bc c m ms,
)

still_fresh :
    {l k : Ledger} (c m : String)
    → Settled l k
    → covers k.received c m ≡ false
    → covers l.received c m ≡ false
still_fresh {l} c m p h = ground (arith, covers-Settled c m p)

-- Every test of the batch is in the ledger or among the un-run tests.
pub collect_unrun_kept :
    (cm : String → Option (List String)) (ci : ℕ) (bcs : List BatchClass) (l : Ledger)
    → RowCovers l
    → (c m : String) → any (expects cm c m) bcs ≡ true
    → (covers (collect_unrun cm ci bcs l).0.received c m
        || any (is_unrun c m) (collect_unrun cm ci bcs l).1)
      ≡ true
unfolding collect_unrun
collect_unrun_kept cm ci [] l rows c m h = cc
collect_unrun_kept cm ci (bc ∷ bcs) l rows c m h = elim (Option-cases (resolve cm bc bc.methods)) [
  | inl missing ↦
      rw (missing, collect_unrun)
        (elim (Bool-cases (bc.class == c)) [
          | inl same ↦ or_left _ (
              covers-Settled c m (collect_unrun-Settled cm (ci + 1) bcs (settle_class bc l))
                (covers-settle_class c m bc l rows same))
          | inr other ↦
              collect_unrun_kept cm (ci + 1) bcs (settle_class bc l)
                (settle_class-RowCovers bc l rows) c m (rw (missing, expects_in, other) at h)
        ])
  | inr (ms, found) ↦
      rw (found, collect_unrun)
        (found_kept l.received (collect_unrun cm (ci + 1) bcs l) ci bc ms c m
          (any (expects cm c m) bcs) (covers-Settled c m (collect_unrun-Settled cm (ci + 1) bcs l))
          (collect_unrun_kept cm (ci + 1) bcs l rows c m) (rw (found, expects_in) at h))
]

-- What is un-run was expected, and was not covered at the start.
pub collect_unrun_sound :
    (cm : String → Option (List String)) (ci : ℕ) (bcs : List BatchClass) (l : Ledger)
    (c m : String)
    → any (is_unrun c m) (collect_unrun cm ci bcs l).1 ≡ true
    → (any (expects cm c m) bcs ≡ true) × (covers l.received c m ≡ false)
unfolding collect_unrun
collect_unrun_sound cm ci [] l c m h = cc
collect_unrun_sound cm ci (bc ∷ bcs) l c m h = elim (Option-cases (resolve cm bc bc.methods)) [
  | inl missing ↦
      let (e, fresh) =
        collect_unrun_sound cm (ci + 1) bcs (settle_class bc l) c m
          (rw (missing, collect_unrun) at h) in
      (or_right _ e, still_fresh c m (settle_class-Settled bc l) fresh)
  | inr (ms, found) ↦
      rw (found, expects_in)
        (found_sound l.received (collect_unrun cm (ci + 1) bcs l).1 ci bc ms c m
          (any (expects cm c m) bcs) (collect_unrun_sound cm (ci + 1) bcs l c m)
          (rw (found, collect_unrun) at h))
]
