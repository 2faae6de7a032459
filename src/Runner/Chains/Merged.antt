-- ===== src/Runner/Chains/Merged.antt =====
-- crates/runner/src/runner.rs: what the loops of `dependency_chains` over the dependencies merge.
use phpunit_rust.Prelude.{
  ℕ, suc, ◌≤◌, ◌<◌, false, ◌≡◌, ap, ◌∙◌, ◌⊎◌, inl, inr, List, if◌then◌else◌, nat_eq, length,
  length-set, set, arith, Bool-cases,
}
use phpunit_rust.Runner.Chains.{find, union}
use phpunit_rust.Runner.Chains.Forest.{Forest, set-all, parent_of-set_other, find-Forest}

-- The root of an index once the tree of `ri` hangs below `rj`.
abbrev rerooted : (ℕ → ℕ) → ℕ → ℕ → ℕ → ℕ
rerooted r ri rj x = if nat_eq (r x) ri then rj else r x

abbrev deepened : (ℕ → ℕ) → (ℕ → ℕ) → ℕ → ℕ → ℕ
deepened r d ri x = if nat_eq (r x) ri then suc (d x) else d x

hang-Forest :
    (n : ℕ) (r d : ℕ → ℕ) (b : ℕ) (ps : List ℕ) (i j : ℕ)
    → Forest n ps r d b
    → i < n
    → j < n
    → nat_eq (r i) (r j) ≡ false
    → Forest n (set ps (r i) (r j)) (rerooted r (r i) (r j)) (deepened r d (r i)) (suc b)
hang-Forest n r d b ps i j f hi hj differ =
    let ri = r i in
    let rj = r j in
    let li : ri < n = f.within i hi in
    let lj : rj < n = f.within j hj in
    let l : ri < length ps = omega (arith, f.size) in
    let again : (x : ℕ) → x < n → r (r x) ≡ r x = λ x h. f.top (r x) (f.within x h) (f.root x h) in
    record {
      size = length-set ps ri rj ∙ f.size;
      inside = set-all (λ y p. p < n) n ps ri rj l lj (λ y h o. f.inside y h);
      within = λ x h. ground (arith, f.within x h);
      up =
          set-all (λ y p. rerooted r ri rj p ≡ rerooted r ri rj y) n ps ri rj l
            (ground (arith, again i hi, again j hj))
            (λ y h o. ap (λ t. if nat_eq t ri then rj else t) (f.up y h));
      down =
          set-all (λ y p. (p ≡ y) ⊎ (deepened r d ri p < deepened r d ri y)) n ps ri rj l
            (inr (ground (arith, again i hi, again j hj, f.flat j hj)))
            (λ y h o. elim (f.down y h) [ inl e ↦ inl e | inr m ↦ inr (ground (arith, f.up y h)) ]);
      top =
          set-all (λ y p. p ≡ y → rerooted r ri rj y ≡ y) n ps ri rj l (λ e. absurd (ground arith))
            (λ y h o e. ground (arith, f.top y h e));
      root = λ y h. elim (Bool-cases (nat_eq (r y) ri)) [
        | inl own ↦ rw own (parent_of-set_other ps ri rj rj (ground arith) ∙ f.root j hj)
        | inr other ↦ rw other (parent_of-set_other ps ri rj (r y) other ∙ f.root y h)
      ];
      flat = λ y h. elim (Bool-cases (nat_eq (r y) ri)) [
        | inl own ↦ rw own (ground (arith, again j hj, f.flat j hj))
        | inr other ↦ rw other (ground (arith, again y h, f.flat y h))
      ];
      low = λ y. ground (arith, f.low y);
    }

pub low-Forest :
    (n : ℕ) (r d : ℕ → ℕ) (b c : ℕ) (ps : List ℕ) → b ≤ c → Forest n ps r d b → Forest n ps r d c
low-Forest n r d b c ps h f = record {
  size = f.size;
  inside = f.inside;
  within = f.within;
  up = f.up;
  down = f.down;
  top = f.top;
  root = f.root;
  flat = f.flat;
  low = λ x. omega (arith, f.low x);
}

-- A forest that joins at least what the roots `r` join.
pub record Merged (n : ℕ) (r : ℕ → ℕ) (ps : List ℕ) (b : ℕ) : Type 0 where
  pub roots : ℕ → ℕ
  pub depth : ℕ → ℕ
  pub forest : Forest n ps roots depth b
  pub keeps : (x y : ℕ) → r x ≡ r y → roots x ≡ roots y

pub union-Merged :
    (n fuel i j : ℕ) (r d : ℕ → ℕ) (b : ℕ) (ps : List ℕ)
    → Forest n ps r d b
    → i < n
    → j < n
    → b < fuel
    → (m : Merged n r (union fuel i j ps) (suc b)) × (m.roots i ≡ m.roots j)
unfolding union
union-Merged n fuel i j r d b ps f hi hj enough =
    let (f1, e1) = find-Forest n r d b fuel ps i f hi (omega (arith, f.low i)) in
    let (f2, e2) = find-Forest n r d b fuel (find fuel ps i).0 j f1 hj (omega (arith, f.low j)) in
    let ps2 = (find fuel (find fuel ps i).0 j).0 in
    elim (Bool-cases (nat_eq (r i) (r j))) [
      | inl same ↦
          rw (e1, e2, same)
            (
              record {
                roots = r;
                depth = d;
                forest = low-Forest n r d b (suc b) ps2 (omega arith) f2;
                keeps = λ x y e. e;
              },
              ground arith,
            )
      | inr differ ↦
          rw (e1, e2, differ)
            (
              record {
                roots = rerooted r (r i) (r j);
                depth = deepened r d (r i);
                forest = hang-Forest n r d b ps2 i j f2 hi hj differ;
                keeps = λ x y e. ap (λ t. if nat_eq t (r i) then r j else t) e;
              },
              ground arith,
            )
    ]
