-- ===== src/Runner/Chains/Forest.antt =====
-- crates/runner/src/runner.rs: the forest of the parents that `dependency_chains` keeps, and how far
-- `find` goes in it.
use phpunit_rust.Prelude.{
  ℕ, zero, suc, ◌≤◌, ◌<◌, false, ◌≡◌, refl, sym, ap, ◌∙◌, ◌⊎◌, inl, inr, List, [], ◌∷◌, nat_eq,
  length, length-set, set, arith, subst, Bool-cases,
}
use phpunit_rust.Runner.Chains.{parent_of, find}

-- Each index below `n` has a root and a depth, which the step to the parent keeps and lowers.
pub record Forest (n : ℕ) (ps : List ℕ) (r d : ℕ → ℕ) (b : ℕ) : Type 0 where
  pub size : length ps ≡ n
  pub inside : (x : ℕ) → x < n → parent_of ps x < n
  pub within : (x : ℕ) → x < n → r x < n
  pub up : (x : ℕ) → x < n → r (parent_of ps x) ≡ r x
  pub down : (x : ℕ) → x < n → (parent_of ps x ≡ x) ⊎ (d (parent_of ps x) < d x)
  pub top : (x : ℕ) → x < n → parent_of ps x ≡ x → r x ≡ x
  pub root : (x : ℕ) → x < n → parent_of ps (r x) ≡ r x
  pub flat : (x : ℕ) → x < n → d (r x) ≡ 0
  pub low : (x : ℕ) → d x ≤ b

parent_of-set : (ps : List ℕ) (x v : ℕ) → x < length ps → parent_of (set ps x v) x ≡ v
parent_of-set [] x v h = elim h [ ]
parent_of-set (p ∷ ps) zero v h = refl
parent_of-set (p ∷ ps) (suc x) v h = parent_of-set ps x v (omega arith)

pub parent_of-set_other :
    (ps : List ℕ) (x v y : ℕ) → nat_eq y x ≡ false → parent_of (set ps x v) y ≡ parent_of ps y
parent_of-set_other [] x v y h = refl
parent_of-set_other (p ∷ ps) zero v zero h = cc
parent_of-set_other (p ∷ ps) zero v (suc y) h = refl
parent_of-set_other (p ∷ ps) (suc x) v zero h = refl
parent_of-set_other (p ∷ ps) (suc x) v (suc y) h = parent_of-set_other ps x v y (ground arith)

-- What holds of the new parent of one index and of the parents of the others holds of all.
pub set-all :
    (P : ℕ → ℕ → Type 0) (n : ℕ) (ps : List ℕ) (x v : ℕ)
    → x < length ps
    → P x v
    → ((y : ℕ) → y < n → nat_eq y x ≡ false → P y (parent_of ps y))
    → (y : ℕ) → y < n
    → P y (parent_of (set ps x v) y)
set-all P n ps x v h here others y k = elim (Bool-cases (nat_eq y x)) [
  | inl same ↦
      let e : x ≡ y = ground arith in
      subst (λ z. P z (parent_of (set ps x v) z)) e
        (subst (P x) (sym (parent_of-set ps x v h)) here)
  | inr other ↦ subst (P y) (sym (parent_of-set_other ps x v y other)) (others y k other)
]

module _ (n : ℕ) (r d : ℕ → ℕ) (b : ℕ) where
  -- A new parent that is nearer to the same root keeps the forest.
  nearer-Forest :
      (ps : List ℕ) (x v : ℕ)
      → Forest n ps r d b
      → x < n
      → v < n
      → r v ≡ r x
      → d v < d x
      → Forest n (set ps x v) r d b
  nearer-Forest ps x v f h k same less =
      let h' : x < length ps = omega (arith, f.size) in
      record {
        size = length-set ps x v ∙ f.size;
        inside = set-all (λ y p. p < n) n ps x v h' k (λ y l o. f.inside y l);
        within = f.within;
        up = set-all (λ y p. r p ≡ r y) n ps x v h' same (λ y l o. f.up y l);
        down = set-all (λ y p. (p ≡ y) ⊎ (d p < d y)) n ps x v h' (inr less) (λ y l o. f.down y l);
        top =
            set-all (λ y p. p ≡ y → r y ≡ y) n ps x v h' (λ e. absurd (omega (arith, ap d e, less)))
              (λ y l o. f.top y l);
        root = λ y l. elim (Bool-cases (nat_eq (r y) x)) [
          | inl own ↦ absurd (
              omega
                (arith, f.flat y l, ap d {x = r y} {y = x} (ground arith), less, ap d (f.root y l)))
          | inr other ↦ parent_of-set_other ps x v (r y) other ∙ f.root y l
        ];
        flat = f.flat;
        low = f.low;
      }

  -- `find` returns the root, and keeps the forest, where the fuel is more than the depth.
  pub find-Forest :
      (fuel : ℕ) (ps : List ℕ) (x : ℕ)
      → Forest n ps r d b
      → x < n
      → d x < fuel
      → Forest n (find fuel ps x).0 r d b × ((find fuel ps x).1 ≡ r x)
  unfolding find
  find-Forest zero ps x f h k = elim k [ ]
  find-Forest (suc fuel) ps x f h k =
      let p = parent_of ps x in
      let g = parent_of ps p in
      elim (Bool-cases (nat_eq p x)) [
        | inl here ↦ rw (here, find) (f, sym (f.top x h (ground arith)))
        | inr above ↦
            let hp : p < n = f.inside x h in
            let hg : g < n = f.inside p hp in
            let same : r g ≡ r x = f.up p hp ∙ f.up x h in
            let less : d g < d x = elim (f.down x h) [
              | inl e ↦ absurd (ground arith)
              | inr l ↦ elim (f.down p hp) [ inl e ↦ omega (arith, ap d e) | inr m ↦ omega arith ]
            ] in
            let (f', e) =
              find-Forest fuel (set ps x g) g (nearer-Forest ps x g f h hg same less) hg
                (omega arith) in
            rw (above, find) (f', e ∙ same)
      ]
