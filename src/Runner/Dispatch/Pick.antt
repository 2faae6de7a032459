-- ===== src/Runner/Dispatch/Pick.antt =====
-- crates/runner/src/runner.rs: `pick_best_for_slot`, which prefers the plan whose classes the
-- slot's worker has loaded, among the first 32 of the queue.
pub mod Best
use phpunit_rust.Prelude.{
  ℕ, zero, suc, ◌+◌, Bool, true, false, String, Option, none, some, List, [], ◌∷◌, if◌then◌else◌,
  any, ltb,
}
use phpunit_rust.Types.{BatchPlan}
use phpunit_rust.Runner.Received.{is_text}

abbrev pub affinity_scan_window : ℕ
affinity_scan_window = 32

-- `plan.fingerprint.intersection(slot_fp).count()`, on sets without repetition.
unfoldable pub overlap : List String → List String → ℕ
overlap [] fp = 0
overlap (s ∷ ss) fp = if any (is_text s) fp then suc (overlap ss fp) else overlap ss fp

-- The index of the best plan among the next `window`, which begin at index `i`.
unfoldable pub best_index : ℕ → ℕ → List BatchPlan → List String → ℕ → ℕ → ℕ
best_index zero i queue fp best score = best
best_index (suc window) i [] fp best score = best
best_index (suc window) i (p ∷ ps) fp best score =
    let better = ltb score (overlap p.fingerprint fp) in
    best_index window (i + 1) ps fp (if better then i else best)
      (if better then overlap p.fingerprint fp else score)

-- `VecDeque::remove`.
unfoldable pub remove_at {ℓ} : {A : Type ℓ} → List A → ℕ → Option (A × List A)
remove_at [] i = none
remove_at (x ∷ xs) zero = some (x, xs)
remove_at (x ∷ xs) (suc i) = elim (remove_at xs i) [ none ↦ none | some (y, ys) ↦ some (y, x ∷ ys) ]

unfoldable pub pick_best_for_slot :
    List BatchPlan → List String → Option (BatchPlan × List BatchPlan)
pick_best_for_slot queue [] = remove_at queue 0
pick_best_for_slot queue (s ∷ fp) =
    remove_at queue (best_index affinity_scan_window 0 queue (s ∷ fp) 0 0)

-- The fingerprints that the slot was fed.
abbrev pub loaded_of : List (List String) → ℕ → List String
loaded_of [] slot = []
loaded_of (fp ∷ fps) zero = fp
loaded_of (fp ∷ fps) (suc slot) = loaded_of fps slot
