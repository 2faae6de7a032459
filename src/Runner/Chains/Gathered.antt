-- ===== src/Runner/Chains/Gathered.antt =====
-- crates/runner/src/runner.rs: the chains of a test and of what it depends on.
use phpunit_rust.Prelude.{
  ℕ, zero, suc, ◌+◌, ◌≤◌, ◌<◌, String, Bool, true, false, ◌&&◌, ◌≡◌, refl, sym, ap, ◌∙◌, inl, inr,
  none, some, List, [], ◌∷◌, ◌++◌, ◌==◌, if◌then◌else◌, nat_eq, length, any, any-append, get_elem?,
  arith, subst, Bool-cases, eq_iff, eq_refl,
}
use phpunit_rust.Discovery.{GroupedMethod}
use phpunit_rust.Runner.Chains.{
  parent_of, find, Group, group_push, collect_groups, group_methods, link_methods, name_to_idx,
  edges, count_up, dependency_chains,
}
use phpunit_rust.Runner.Chains.Forest.{Forest, find-Forest}
use phpunit_rust.Runner.Chains.Linked.{lists, link_methods-Merged}

abbrev pub named : String → List GroupedMethod → Bool
named name ms = any (λ (m : GroupedMethod). m.name == name) ms

-- Whether some chain holds both.
abbrev pub together : String → String → List (List GroupedMethod) → Bool
together a b chains = any (λ ch. named a ch && named b ch) chains

-- What the group of a root holds.
abbrev members : ℕ → List Group → List GroupedMethod
members root [] = []
members root (g ∷ gs) = if nat_eq g.0 root then g.1 else members root gs

members-group_push :
    (root : ℕ) (x : GroupedMethod) (gs : List Group)
    → members root (group_push root x gs) ≡ members root gs ++ x ∷ []
unfolding group_push
members-group_push root x [] = ground arith
members-group_push root x ((r, ms) ∷ gs) = ground (arith, members-group_push root x gs)

members-group_push_other :
    (root q : ℕ) (x : GroupedMethod) (gs : List Group)
    → nat_eq q root ≡ false
    → members q (group_push root x gs) ≡ members q gs
unfolding group_push
members-group_push_other root q x [] h = ground arith
members-group_push_other root q x ((r, ms) ∷ gs) h =
    ground (arith, members-group_push_other root q x gs h)

-- A group only grows.
group_push-keeps :
    (root q : ℕ) (name : String) (x : GroupedMethod) (gs : List Group)
    → named name (members q gs) ≡ true
    → named name (members q (group_push root x gs)) ≡ true
group_push-keeps root q name x gs h = elim (Bool-cases (nat_eq q root)) [
  | inl same ↦
      let e : root ≡ q = ground arith in
      subst (λ t. named name (members q (group_push t x gs)) ≡ true) (sym e)
        (rw members-group_push (
          ground
            (arith, any-append (λ (m : GroupedMethod). m.name == name) (members q gs) (x ∷ []))))
  | inr other ↦ rw (members-group_push_other root q x gs other) h
]

group_push-has :
    (root : ℕ) (x : GroupedMethod) (gs : List Group)
    → named x.name (members root (group_push root x gs)) ≡ true
group_push-has root x gs = rw members-group_push (
    ground (
      arith,
      any-append (λ (m : GroupedMethod). m.name == x.name) (members root gs) (x ∷ []),
      eq_refl x.name,
    ))

together-members :
    (root : ℕ) (a b : String) (gs : List Group)
    → named a (members root gs) ≡ true
    → named b (members root gs) ≡ true
    → together a b (group_methods gs) ≡ true
together-members root a b [] h k = cc
together-members root a b ((r, ms) ∷ gs) h k = ground (arith, together-members root a b gs)

module _ (n : ℕ) (r d : ℕ → ℕ) (b fuel : ℕ) (enough : b < fuel) where
  collect_groups-keeps :
      (i : ℕ) (xs : List GroupedMethod) (ps : List ℕ) (gs : List Group) (q : ℕ) (name : String)
      → named name (members q gs) ≡ true
      → named name (members q (collect_groups fuel i xs ps gs)) ≡ true
  unfolding collect_groups
  collect_groups-keeps i [] ps gs q name h = h
  collect_groups-keeps i (x ∷ xs) ps gs q name h =
      let f = find fuel ps i in
      collect_groups-keeps (i + 1) xs f.0 (group_push f.1 x gs) q name
        (group_push-keeps f.1 q name x gs h)

  -- Each method is in the group of its root.
  collect_groups-has :
      (i : ℕ) (xs : List GroupedMethod) (ps : List ℕ) (gs : List Group)
      → Forest n ps r d b
      → i + length xs ≤ n
      → (k : ℕ) (x : GroupedMethod) → get_elem? xs k ≡ some x
      → named x.name (members (r (i + k)) (collect_groups fuel i xs ps gs)) ≡ true
  unfolding collect_groups
  collect_groups-has i [] ps gs f h k x e = cc
  collect_groups-has i (y ∷ xs) ps gs f h zero x e =
      let same : y ≡ x = cc in
      let at : i ≡ i + 0 = omega arith in
      let (f', root) = find-Forest n r d b fuel ps i f (omega arith) (omega (arith, f.low i)) in
      subst (λ t. named x.name (members (r t) (collect_groups fuel i (y ∷ xs) ps gs)) ≡ true) at
        (collect_groups-keeps (i + 1) xs (find fuel ps i).0 (group_push (find fuel ps i).1 y gs)
          (r i) x.name
          (subst (λ t. named x.name (members t (group_push (find fuel ps i).1 y gs)) ≡ true) root
            (subst
              (λ (z : GroupedMethod).
                named z.name (members (find fuel ps i).1 (group_push (find fuel ps i).1 y gs))
                ≡ true)
              same (group_push-has (find fuel ps i).1 y gs))))
  collect_groups-has i (y ∷ xs) ps gs f h (suc k) x e =
      let at : i + 1 + k ≡ i + suc k = omega arith in
      let (f', root) = find-Forest n r d b fuel ps i f (omega arith) (omega (arith, f.low i)) in
      subst (λ t. named x.name (members (r t) (collect_groups fuel i (y ∷ xs) ps gs)) ≡ true) at
        (collect_groups-has (i + 1) xs (find fuel ps i).0 (group_push (find fuel ps i).1 y gs) f'
          (omega arith) k x e)

parent_of-count_up :
    (i : ℕ) (ms : List GroupedMethod) (x : ℕ) → x < length ms → parent_of (count_up i ms) x ≡ i + x
parent_of-count_up i [] x h = elim h [ ]
parent_of-count_up i (m ∷ ms) zero h = omega arith
parent_of-count_up i (m ∷ ms) (suc x) h =
    omega (arith, parent_of-count_up (i + 1) ms x (omega arith))

length-count_up : (i : ℕ) (ms : List GroupedMethod) → length (count_up i ms) ≡ length ms
length-count_up i [] = refl
length-count_up i (m ∷ ms) = ap suc (length-count_up (i + 1) ms)

-- At first every index is its own root.
count_up-Forest : (ms : List GroupedMethod) → Forest (length ms) (count_up 0 ms) (λ x. x) (λ x. 0) 0
count_up-Forest ms =
    let own : (x : ℕ) → x < length ms → parent_of (count_up 0 ms) x ≡ x =
      λ x h. parent_of-count_up 0 ms x h ∙ omega arith in
    record {
      size = length-count_up 0 ms;
      inside = λ x h. omega (arith, own x h);
      within = λ x h. h;
      up = own;
      down = λ x h. inl (own x h);
      top = λ x h e. refl;
      root = own;
      flat = λ x h. refl;
      low = λ x. omega arith;
    }

name_to_idx-none :
    (name : String) (i : ℕ) (ms : List GroupedMethod)
    → named name ms ≡ false
    → name_to_idx name i ms ≡ none
unfolding name_to_idx
name_to_idx-none name i [] h = refl
name_to_idx-none name i (m ∷ ms) h = ground (arith, name_to_idx-none name (i + 1) ms)

-- The index of a name that the class has is that of a method with the name.
name_to_idx-found :
    (name : String) (i : ℕ) (ms : List GroupedMethod)
    → named name ms ≡ true
    → (j : ℕ) × (y : GroupedMethod) × (name_to_idx name i ms ≡ some (i + j))
      × (get_elem? ms j ≡ some y)
      × (y.name ≡ name)
unfolding name_to_idx
name_to_idx-found name i [] h = cc
name_to_idx-found name i (m ∷ ms) h = elim (Bool-cases (named name ms)) [
  | inl later ↦
      let (j, y, e, at, own) = name_to_idx-found name (i + 1) ms later in
      (suc j, y, rw e (ap some (omega arith)), at, own)
  | inr none_later ↦
      let here : (m.name == name) ≡ true = ground arith in
      (
        0,
        m,
        rw (name_to_idx-none name (i + 1) ms none_later, here) (ap some (omega arith)),
        refl,
        (eq_iff m.name name).0 here,
      )
]

-- The fuel is enough: once the dependencies are linked, `find` returns an index that is its own
-- parent, the exit of the source's loop.
pub find-link_methods :
    (methods : List GroupedMethod) (i : ℕ)
    → i < length methods
    → let fuel = edges methods + 1 in
      let (ps, x) = find fuel (link_methods fuel methods 0 methods (count_up 0 methods)) i in
      parent_of ps x ≡ x
find-link_methods methods i h =
    let n = length methods in
    let fuel = edges methods + 1 in
    let ps = link_methods fuel methods 0 methods (count_up 0 methods) in
    let (m, joined) =
      link_methods-Merged n fuel methods refl 0 methods (λ x. x) (λ x. 0) 0 (edges methods)
        (count_up 0 methods) (count_up-Forest methods) (omega arith) (omega arith) (omega arith) in
    let (f, e) =
      find-Forest n m.roots m.depth (edges methods) fuel ps i m.forest h
        (omega (arith, m.forest.low i)) in
    subst (λ t. parent_of (find fuel ps i).0 t ≡ t) (sym e) (f.root i h)

-- Where a method depends on a name of its class, some chain holds both names.
pub together-dependency_chains :
    (methods : List GroupedMethod) (k : ℕ) (x : GroupedMethod) (dep : String)
    → get_elem? methods k ≡ some x
    → lists dep x.depends_on ≡ true
    → named dep methods ≡ true
    → together x.name dep (dependency_chains methods) ≡ true
unfolding dependency_chains
together-dependency_chains methods k x dep at depends known =
    let n = length methods in
    let fuel = edges methods + 1 in
    let ps = link_methods fuel methods 0 methods (count_up 0 methods) in
    let (m, joined) =
      link_methods-Merged n fuel methods refl 0 methods (λ x. x) (λ x. 0) 0 (edges methods)
        (count_up 0 methods) (count_up-Forest methods) (omega arith) (omega arith) (omega arith) in
    let (j, y, e, at_j, own) = name_to_idx-found dep 0 methods known in
    let has =
      collect_groups-has n m.roots m.depth (edges methods) fuel (omega arith) 0 methods ps []
        m.forest (omega arith) in
    let same : m.roots (0 + k) ≡ m.roots (0 + j) = joined k x dep (0 + j) at depends e in
    let gs = collect_groups fuel 0 methods ps [] in
    together-members (m.roots (0 + k)) x.name dep gs (has k x at) (
      subst (λ t. named dep (members t gs) ≡ true) (sym same)
        (subst (λ t. named t (members (m.roots (0 + j)) gs) ≡ true) own (has j y at_j)))
