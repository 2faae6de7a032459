-- ===== src/Runner/Requeue.antt =====
-- crates/runner/src/runner.rs: `requeue_unrun`, which puts the tests that a dead worker did not
-- report back on the queue, and gives up on a test at its second execution. A `HashMap` with an
-- entry for every key that was inserted is a function to its value or the default.
pub mod Settled
pub mod Pending
pub mod Kept
pub mod Charge
pub mod Indexed
pub mod Laws
use phpunit_rust.Prelude.{
  ℕ, ◌+◌, String, Bool, true, false, ◌&&◌, Option, none, some, List, [], ◌∷◌, ◌++◌, ◌==◌, compare,
  Ordering, if◌then◌else◌, leb,
}
use phpunit_rust.Types.{TestOutcome, BatchClass, BatchPlan}
use phpunit_rust.Runner.Received.{
  ReceivedOutcomes, class_row, record_outcome, covers, Log, emit, error_outcome, is_test,
}

abbrev pub max_attempts : ℕ
max_attempts = 2

abbrev pub method_list_missing : String
method_list_missing = "worker died; method list unavailable for re-queue"

abbrev pub poison_pill : String
poison_pill = "worker died re-running this test 2 times (poison pill)"

-- `attempts.get(&key).copied().unwrap_or(0)`, for every key.
abbrev pub Attempts : Type 0
Attempts = String → String → ℕ

abbrev pub charge : String → String → ℕ → Attempts → Attempts
charge class method n a c m = if is_test class method (c, m) then n else a c m

-- What the runner has received, and the outcomes it has reported.
pub record Ledger : Type 0 where
  pub received : ReceivedOutcomes
  pub log : Log

-- `on_progress(&o); received.record(&o); outcomes.push(o);`
abbrev pub settle : TestOutcome → Ledger → Ledger
settle o l = record { received = record_outcome o l.received; log = emit o l.log }

-- A test that its worker did not report: the index of its class in the lost batch, that class, and
-- the method.
pub record Unrun : Type 0 where
  pub index : ℕ
  pub owner : BatchClass
  pub name : String

-- The methods of a batch class, where an empty list means all that discovery found.
abbrev pub resolve :
    (String → Option (List String)) → BatchClass → List String → Option (List String)
resolve class_methods bc [] = class_methods bc.class
resolve class_methods bc (m ∷ ms) = some (m ∷ ms)

unfoldable pub unrun_methods : ReceivedOutcomes → ℕ → BatchClass → List String → List Unrun
unrun_methods r ci bc [] = []
unrun_methods r ci bc (m ∷ ms) =
    let rest = unrun_methods r ci bc ms in
    if covers r bc.class m then rest else record { index = ci; owner = bc; name = m } ∷ rest

-- A class whose method list is not known is reported once, as a whole.
unfoldable pub settle_class : BatchClass → Ledger → Ledger
settle_class bc l =
    if covers l.received bc.class class_row
    then l
    else settle (error_outcome bc.class class_row method_list_missing) l

unfoldable pub collect_unrun :
    (String → Option (List String)) → ℕ → List BatchClass → Ledger → Ledger × List Unrun
collect_unrun class_methods ci [] l = (l, [])
collect_unrun class_methods ci (bc ∷ bcs) l = elim (resolve class_methods bc bc.methods) [
  | none ↦ collect_unrun class_methods (ci + 1) bcs (settle_class bc l)
  | some ms ↦
      let rest = collect_unrun class_methods (ci + 1) bcs l in
      (rest.0, unrun_methods l.received ci bc ms ++ rest.1)
]

-- What charging the un-run tests leaves: the ledger, the counts, the first test if it may run
-- again, and the other tests that may.
pub record Charged : Type 0 where
  pub ledger : Ledger
  pub attempts : Attempts
  pub suspect : Option Unrun
  pub rest : List Unrun

abbrev pub give_up : Unrun → Ledger → Ledger
give_up u l = settle (error_outcome u.owner.class u.name poison_pill) l

-- The tests after the first one.
unfoldable pub charge_rest : List Unrun → Ledger → Attempts → Charged
charge_rest [] l a = record { ledger = l; attempts = a; suspect = none; rest = [] }
charge_rest (u ∷ us) l a =
    let next = a u.owner.class u.name + 1 in
    elim (leb max_attempts next) [
      | true ↦ charge_rest us (give_up u l) a
      | false ↦
          let c = charge_rest us l (charge u.owner.class u.name next a) in
          record c { rest = u ∷ c.rest }
    ]

unfoldable pub charge_all : List Unrun → Ledger → Attempts → Charged
unfolding charge_rest
charge_all [] l a = record { ledger = l; attempts = a; suspect = none; rest = [] }
charge_all (u ∷ us) l a =
    let next = a u.owner.class u.name + 1 in
    if leb max_attempts next
    then charge_rest us (give_up u l) a
    else record (charge_rest us l (charge u.owner.class u.name next a)) { suspect = some u }

-- `by_class.entry(ci).or_default().push(m)` on a map in the order of its keys, each entry already
-- the class of that index with the methods collected for it.
abbrev pub Entry : Type 0
Entry = ℕ × BatchClass

abbrev pub with_methods : BatchClass → List String → BatchClass
with_methods bc ms = record bc { methods = ms }

unfoldable pub entry_push : Unrun → List Entry → List Entry
entry_push u [] = (u.index, with_methods u.owner (u.name ∷ [])) ∷ []
entry_push u ((ci, bc) ∷ es) =
    let rest = entry_push u es in
    elim (compare u.index ci) [
      | Ordering.lt ↦ (u.index, with_methods u.owner (u.name ∷ [])) ∷ (ci, bc) ∷ es
      | Ordering.eq ↦ (ci, with_methods bc (bc.methods ++ u.name ∷ [])) ∷ es
      | Ordering.gt ↦ (ci, bc) ∷ rest
    ]

unfoldable pub by_class : List Unrun → List Entry → List Entry
by_class [] es = es
by_class (u ∷ us) es = by_class us (entry_push u es)

abbrev pub entry_classes : List Entry → List BatchClass
entry_classes [] = []
entry_classes ((ci, bc) ∷ es) = bc ∷ entry_classes es

unfoldable pub push_rest : BatchPlan → List Unrun → List BatchPlan → List BatchPlan
push_rest lost [] queue = queue
push_rest lost (u ∷ us) queue =
    record lost { classes = entry_classes (by_class (u ∷ us) []); force_exit_after = false } ∷ queue

unfoldable pub push_suspect : BatchPlan → Option Unrun → List BatchPlan → List BatchPlan
push_suspect lost none queue = queue
push_suspect lost (some u) queue =
    record lost { classes = with_methods u.owner (u.name ∷ []) ∷ []; force_exit_after = true }
    ∷ queue

pub record Requeued : Type 0 where
  pub ledger : Ledger
  pub attempts : Attempts
  pub queue : List BatchPlan

unfoldable pub requeue_unrun :
    BatchPlan → (String → Option (List String)) → Ledger → Attempts → List BatchPlan → Requeued
requeue_unrun lost class_methods l a queue =
    let (l', unrun) = collect_unrun class_methods 0 lost.classes l in
    let c = charge_all unrun l' a in
    record {
      ledger = c.ledger;
      attempts = c.attempts;
      queue = push_suspect lost c.suspect (push_rest lost c.rest queue);
    }
