-- ===== src/Runner/Dispatch/Pick/Best.antt =====
-- crates/runner/src/runner.rs: what `pick_best_for_slot` takes and what it leaves.
use phpunit_rust.Prelude.{
  ℕ, zero, suc, ◌+◌, ◌≤◌, ◌<◌, Bool, ◌||◌, ◌≡◌, refl, sym, ap, ◌∙◌, String, none, some, List, [],
  ◌∷◌, inl, inr, any, ltb, length, get_elem?, arith, Bool-cases, Option-cases, min, subst,
}
use mathlib.Core.List.{Perm}
use mathlib.Core.List.Perm
use phpunit_rust.Types.{BatchPlan}
use phpunit_rust.Runner.Dispatch.Pick.{
  affinity_scan_window, overlap, best_index, remove_at, pick_best_for_slot,
}

pub remove_at-any {ℓ} :
    {A : Type ℓ} (f : A → Bool) (xs : List A) (i : ℕ) (y : A) (ys : List A)
    → remove_at xs i ≡ some (y, ys)
    → any f xs ≡ (f y || any f ys)
unfolding remove_at
remove_at-any f [] i y ys h = cc
remove_at-any f (x ∷ xs) zero y ys h = ground arith
remove_at-any f (x ∷ xs) (suc i) y ys h = elim (Option-cases (remove_at xs i)) [
  | inl e ↦ ground arith
  | inr ((z, zs), e) ↦ ground (arith, remove_at-any f xs i z zs e)
]

pub remove_at-get {ℓ} :
    {A : Type ℓ} (xs : List A) (i : ℕ)
    → i < length xs
    → (y : A) × (ys : List A) × (remove_at xs i ≡ some (y, ys))
unfolding remove_at
remove_at-get [] i h = elim h [ ]
remove_at-get (x ∷ xs) zero h = (x, xs, refl)
remove_at-get (x ∷ xs) (suc i) h =
    let (y, ys, e) = remove_at-get xs i (omega arith) in (y, x ∷ ys, ground arith)

module _ (fp : List String) where
  best_index-lt :
      (window i : ℕ) (ps : List BatchPlan) (best score n : ℕ)
      → best < n
      → i + length ps ≤ n
      → best_index window i ps fp best score < n
  unfolding best_index
  best_index-lt zero i ps best score n h k = h
  best_index-lt (suc w) i [] best score n h k = h
  best_index-lt (suc w) i (p ∷ ps) best score n h k =
      elim (Bool-cases (ltb score (overlap p.fingerprint fp))) [
        | inl more ↦
            rw more (
              best_index-lt w (i + 1) ps i (overlap p.fingerprint fp) n (omega arith) (omega arith))
        | inr less ↦ rw less (best_index-lt w (i + 1) ps best score n h (omega arith))
      ]

  -- `at` gives the overlap by index: no plan within the window beats the chosen one, and none
  -- before it equals it unless nothing overlaps.
  best_index_best :
      (at : ℕ → ℕ) (window i : ℕ) (ps : List BatchPlan) (best : ℕ)
      → ((k : ℕ) (p : BatchPlan) → get_elem? ps k ≡ some p → at (i + k) ≡ overlap p.fingerprint fp)
      → ((j : ℕ) → j < i → at j ≤ at best)
      → (j : ℕ) → j < i + min window (length ps)
      → at j ≤ at (best_index window i ps fp best (at best))
  unfolding best_index
  best_index_best at zero i ps best shows top j h = top j (omega arith)
  best_index_best at (suc w) i [] best shows top j h = top j (omega arith)
  best_index_best at (suc w) i (p ∷ ps) best shows top j h =
      let here : at i ≡ overlap p.fingerprint fp =
        subst (λ t. at t ≡ overlap p.fingerprint fp) (omega arith) (shows 0 p refl) in
      let later : (k : ℕ) (q : BatchPlan)
          → get_elem? ps k ≡ some q
          → at (i + 1 + k) ≡ overlap q.fingerprint fp =
        λ k q e. subst (λ t. at t ≡ overlap q.fingerprint fp) (omega arith) (shows (suc k) q e) in
      elim (Bool-cases (ltb (at best) (overlap p.fingerprint fp))) [
        | inl more ↦
            rw (more, ← here)
              (best_index_best at w (i + 1) ps i later (λ l low. ground (arith, top l)) j
                (omega arith))
        | inr less ↦ rw less (
            best_index_best at w (i + 1) ps best later (λ l low. ground (arith, top l)) j
              (omega arith))
      ]

overlap_at : List String → List BatchPlan → ℕ → ℕ
overlap_at fp [] k = 0
overlap_at fp (p ∷ ps) zero = overlap p.fingerprint fp
overlap_at fp (p ∷ ps) (suc k) = overlap_at fp ps k

overlap_at-get :
    (fp : List String) (ps : List BatchPlan) (k : ℕ) (p : BatchPlan)
    → get_elem? ps k ≡ some p
    → overlap_at fp ps k ≡ overlap p.fingerprint fp
unfolding overlap_at
overlap_at-get fp [] k p h = cc
overlap_at-get fp (q ∷ ps) zero p h = ground arith
overlap_at-get fp (q ∷ ps) (suc k) p h = overlap_at-get fp ps k p h

get-lt : (ps : List BatchPlan) (k : ℕ) (p : BatchPlan) → get_elem? ps k ≡ some p → k < length ps
get-lt [] k p h = cc
get-lt (q ∷ ps) zero p h = omega arith
get-lt (q ∷ ps) (suc k) p h = omega (arith, get-lt ps k p h)

remove_at-perm {ℓ} :
    {A : Type ℓ} (xs : List A) (i : ℕ) (y : A) (ys : List A)
    → remove_at xs i ≡ some (y, ys)
    → Perm xs (y ∷ ys)
unfolding remove_at
remove_at-perm [] i y ys h = cc
remove_at-perm (x ∷ xs) zero y ys h = subst (Perm (x ∷ xs)) (ground arith) (Perm.refl (x ∷ xs))
remove_at-perm (x ∷ xs) (suc i) y ys h = elim (Option-cases (remove_at xs i)) [
  | inl e ↦ ground arith
  | inr ((z, zs), e) ↦
      subst (Perm (x ∷ xs)) (ground arith)
        (Perm.trans (Perm.cons x (remove_at-perm xs i z zs e)) (Perm.swap z x zs))
]

get-remove_at {ℓ} :
    {A : Type ℓ} (xs : List A) (i : ℕ) (y : A) (ys : List A)
    → remove_at xs i ≡ some (y, ys)
    → get_elem? xs i ≡ some y
unfolding remove_at
get-remove_at [] i y ys h = cc
get-remove_at (x ∷ xs) zero y ys h = ground arith
get-remove_at (x ∷ xs) (suc i) y ys h = elim (Option-cases (remove_at xs i)) [
  | inl e ↦ ground arith
  | inr ((z, zs), e) ↦ ground (arith, get-remove_at xs i z zs e)
]

overlap-nil : (ss : List String) → overlap ss [] ≡ 0
unfolding overlap
overlap-nil [] = refl
overlap-nil (s ∷ ss) = overlap-nil ss

-- The index that is picked.
picked : List BatchPlan → List String → ℕ
picked queue [] = 0
picked queue (s ∷ fp) = best_index affinity_scan_window 0 queue (s ∷ fp) 0 0

pick-picked :
    (queue : List BatchPlan) (fp : List String)
    → pick_best_for_slot queue fp ≡ remove_at queue (picked queue fp)
unfolding pick_best_for_slot picked
pick-picked queue [] = refl
pick-picked queue (s ∷ fp) = refl

picked-lt :
    (queue : List BatchPlan) (fp : List String) → 0 < length queue → picked queue fp < length queue
unfolding picked
picked-lt queue [] h = h
picked-lt queue (s ∷ fp) h =
    best_index-lt (s ∷ fp) affinity_scan_window 0 queue 0 0 (length queue) h (omega arith)

-- Nothing is picked from the empty queue only.
pub pick-eq-none :
    (queue : List BatchPlan) (fp : List String) → pick_best_for_slot queue fp ≡ none → queue ≡ []
pick-eq-none [] fp h = refl
pick-eq-none (p ∷ ps) fp h =
    let (y, ys, e) =
      remove_at-get (p ∷ ps) (picked (p ∷ ps) fp) (picked-lt (p ∷ ps) fp (omega arith)) in
    absurd (ground (arith, pick-picked (p ∷ ps) fp))

pub pick-any :
    (f : BatchPlan → Bool) (queue : List BatchPlan) (fp : List String) (p : BatchPlan)
    (rest : List BatchPlan)
    → pick_best_for_slot queue fp ≡ some (p, rest)
    → any f queue ≡ (f p || any f rest)
pick-any f queue fp p rest h =
    remove_at-any f queue (picked queue fp) p rest (sym (pick-picked queue fp) ∙ h)

overlap_at-nil : (ps : List BatchPlan) (k : ℕ) → overlap_at [] ps k ≡ 0
unfolding overlap_at
overlap_at-nil [] k = refl
overlap_at-nil (p ∷ ps) zero = overlap-nil p.fingerprint
overlap_at-nil (p ∷ ps) (suc k) = overlap_at-nil ps k

-- After the first plan of the scan the best index is 0, and the score is its overlap.
best_index_first :
    (fp : List String) (window : ℕ) (p : BatchPlan) (ps : List BatchPlan)
    → best_index (suc window) 0 (p ∷ ps) fp 0 0
      ≡ best_index window 1 ps fp 0 (overlap p.fingerprint fp)
unfolding best_index
best_index_first fp window p ps = elim (Bool-cases (ltb 0 (overlap p.fingerprint fp))) [
  | inl more ↦ rw more
  | inr less ↦ rw less (ap (best_index window 1 ps fp 0) (ground arith))
]

best_overlap :
    (queue : List BatchPlan) (fp : List String) (j : ℕ)
    → j < affinity_scan_window
    → j < length queue
    → overlap_at fp queue j ≤ overlap_at fp queue (picked queue fp)
unfolding picked overlap_at
best_overlap [] fp j w h = elim h [ ]
best_overlap (p ∷ ps) [] j w h = omega (arith, overlap_at-nil (p ∷ ps) j, overlap_at-nil (p ∷ ps) 0)
best_overlap (p ∷ ps) (s ∷ fp) j w h =
    let at : ℕ → ℕ = overlap_at (s ∷ fp) (p ∷ ps) in
    rw (best_index_first (s ∷ fp) 31 p ps) (
      best_index_best (s ∷ fp) at 31 1 ps 0
        (λ k q e.
          subst (λ t. at t ≡ overlap q.fingerprint (s ∷ fp)) {x = suc k} (omega arith)
            (overlap_at-get (s ∷ fp) (p ∷ ps) (suc k) q e))
        (λ l low. ground arith) j (omega arith))

-- The plan that is picked leaves the others in the queue, and no plan among the first 32 shares
-- more names with what the slot has loaded.
pub pick_best_for_slot_best :
    (queue : List BatchPlan) (fp : List String) (p : BatchPlan) (rest : List BatchPlan)
    → pick_best_for_slot queue fp ≡ some (p, rest)
    → Perm queue (p ∷ rest)
      × ((j : ℕ) (q : BatchPlan)
          → j < affinity_scan_window
          → get_elem? queue j ≡ some q
          → overlap q.fingerprint fp ≤ overlap p.fingerprint fp)
pick_best_for_slot_best queue fp p rest h = (
  remove_at-perm queue (picked queue fp) p rest removed,
  λ j q w e.
      subst (λ t. t ≤ overlap p.fingerprint fp) (overlap_at-get fp queue j q e)
        (subst (λ t. overlap_at fp queue j ≤ t) (taken j q e)
          (best_overlap queue fp j w (get-lt queue j q e))),
)
  where
    removed : remove_at queue (picked queue fp) ≡ some (p, rest)
    removed = sym (pick-picked queue fp) ∙ h

    taken :
        (j : ℕ) (q : BatchPlan)
        → get_elem? queue j ≡ some q
        → overlap_at fp queue (picked queue fp) ≡ overlap p.fingerprint fp
    taken j q e =
        overlap_at-get fp queue (picked queue fp) p
          (get-remove_at queue (picked queue fp) p rest removed)
