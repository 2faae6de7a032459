-- ===== src/Runner/Requeue/Pending.antt =====
-- crates/runner/src/runner.rs: which tests the plans that `requeue_unrun` pushes hold.
use phpunit_rust.Prelude.{
  ℕ, String, Bool, false, ◌||◌, ◌&&◌, ◌≡◌, refl, List, [], ◌∷◌, ◌++◌, ◌==◌, Option, none, some, any,
  any-append, arith,
}
use phpunit_rust.Types.{BatchClass, BatchPlan}
use phpunit_rust.Runner.Received.{is_text}
use phpunit_rust.Runner.Requeue.{
  Unrun, Entry, entry_push, by_class, entry_classes, push_rest, push_suspect,
}

abbrev pub class_has : String → String → BatchClass → Bool
class_has c m bc = bc.class == c && any (is_text m) bc.methods

abbrev pub plan_has : String → String → BatchPlan → Bool
plan_has c m plan = any (class_has c m) plan.classes

-- Whether some plan of the queue names the test.
abbrev pub pending : String → String → List BatchPlan → Bool
pending c m queue = any (plan_has c m) queue

abbrev pub is_unrun : String → String → Unrun → Bool
is_unrun c m u = u.owner.class == c && u.name == m

-- An index stands for one class name.
abbrev pub Indexed : (ℕ → String) → List Unrun → Type 0
Indexed cls [] = Unit {0}
Indexed cls (u ∷ us) = (u.owner.class ≡ cls u.index) × Indexed cls us

abbrev IndexedEntries : (ℕ → String) → List Entry → Type 0
IndexedEntries cls [] = Unit {0}
IndexedEntries cls ((ci, bc) ∷ es) = (bc.class ≡ cls ci) × IndexedEntries cls es

abbrev pub entries_have : String → String → List Entry → Bool
entries_have c m es = any (class_has c m) (entry_classes es)

-- The middle of `entry_push`, at an entry of the same index.
same_entry :
    (c m n : String) (k bc : String) (ms : List String) (rest : Bool)
    → k ≡ bc
    → ((bc == c && any (is_text m) (ms ++ n ∷ [])) || rest)
      ≡ ((k == c && n == m) || ((bc == c && any (is_text m) ms) || rest))
same_entry c m n k bc ms rest e = rw (e, any-append (is_text m) ms (n ∷ [])) (ground arith)

module _ (cls : ℕ → String) (u : Unrun) (known : u.owner.class ≡ cls u.index) where
  entry_push-Indexed :
      (es : List Entry) → IndexedEntries cls es → IndexedEntries cls (entry_push u es)
  unfolding entry_push
  entry_push-Indexed [] h = (known, tt)
  entry_push-Indexed ((ci, bc) ∷ es) h = ground (arith, entry_push-Indexed es h.1)

  entries_have-push :
      (c m : String) (es : List Entry)
      → IndexedEntries cls es
      → entries_have c m (entry_push u es) ≡ (is_unrun c m u || entries_have c m es)
  unfolding entry_push
  entries_have-push c m [] h = ground arith
  entries_have-push c m ((ci, bc) ∷ es) h = ground (
    arith,
    entries_have-push c m es h.1,
    same_entry c m u.name u.owner.class bc.class bc.methods (entries_have c m es),
  )

pub by_class-has :
    (cls : ℕ → String) (c m : String) (us : List Unrun) (es : List Entry)
    → Indexed cls us
    → IndexedEntries cls es
    → entries_have c m (by_class us es) ≡ (any (is_unrun c m) us || entries_have c m es)
unfolding by_class
by_class-has cls c m [] es hu he = refl
by_class-has cls c m (u ∷ us) es hu he = ground (
  arith,
  by_class-has cls c m us (entry_push u es) hu.1 (entry_push-Indexed cls u hu.0 es he),
  entries_have-push cls u hu.0 c m es he,
)

pub pending-push_rest :
    (cls : ℕ → String) (c m : String) (lost : BatchPlan) (us : List Unrun) (queue : List BatchPlan)
    → Indexed cls us
    → pending c m (push_rest lost us queue) ≡ (any (is_unrun c m) us || pending c m queue)
unfolding push_rest
pending-push_rest cls c m lost [] queue h = refl
pending-push_rest cls c m lost (u ∷ us) queue h =
    ground (arith, by_class-has cls c m (u ∷ us) [] h tt)

abbrev pub option_unrun : String → String → Option Unrun → Bool
option_unrun c m none = false
option_unrun c m (some u) = is_unrun c m u

pub pending-push_suspect :
    (c m : String) (lost : BatchPlan) (o : Option Unrun) (queue : List BatchPlan)
    → pending c m (push_suspect lost o queue) ≡ (option_unrun c m o || pending c m queue)
unfolding push_suspect
pending-push_suspect c m lost none queue = refl
pending-push_suspect c m lost (some u) queue = ground arith
