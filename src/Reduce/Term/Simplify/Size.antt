-- ===== src/Reduce/Term/Simplify/Size.antt =====
-- crates/analyzer/src/reduce/term.rs: the size of a normal form.
use phpunit_rust.Prelude.{
  ℕ, suc, ◌+◌, ◌≤◌, true, not, ◌||◌, ◌≡◌, refl, sym, inl, inr, ◌⊎◌, List, [], ◌∷◌, ◌++◌, Option,
  none, some, arith, Bool-cases, Option-cases, subst, from_none,
}
use phpunit_rust.Int.{ℤ, eq_ℤ}
use phpunit_rust.Reduce.Term.{
  Op, Term, int, bool, str, bin, obj, field, list, len, opaque, op_eq, term_cmp, size,
}
use phpunit_rust.Reduce.Term.Simplify.{
  flatten, constant_of, keep_operand, split_operands, is_less, insert_term, sort, chain, is_nil,
  rebuild, with_constant, reduce_commutative,
}

pub size_pos : (t : Term) → 1 ≤ size t
unfolding size
size_pos (Term.sym x) = ground arith
size_pos (int i) = ground arith
size_pos (bool b) = ground arith
size_pos (str s) = ground arith
size_pos (bin o a b) = ground arith
size_pos (obj c fs) = ground arith
size_pos (field t n) = ground arith
size_pos (list ts) = ground arith
size_pos (len t) = ground arith
size_pos opaque = ground arith

-- What operands weigh in a chain: each its size and its operator.
abbrev pub mass : List Term → ℕ
mass [] = 0
mass (t ∷ ts) = suc (size t) + mass ts

mass_append : (ts us : List Term) → mass (ts ++ us) ≡ mass ts + mass us
mass_append [] us = omega arith
mass_append (t ∷ ts) us = let ih = mass_append ts us in omega arith

mass-flatten : (op : Op) (t : Term) → mass (flatten op t) ≡ suc (size t)
unfolding flatten size
mass-flatten op (bin o a b) = elim (Bool-cases (op_eq o op)) [
  | inl same ↦
      rw (same, mass_append (flatten op a) (flatten op b), mass-flatten op a, mass-flatten op b)
        (omega arith)
  | inr other ↦ rw other (omega arith)
]
mass-flatten op (Term.sym x) = refl
mass-flatten op (int i) = refl
mass-flatten op (bool b) = refl
mass-flatten op (str s) = refl
mass-flatten op (obj c fs) = omega arith
mass-flatten op (field t n) = omega arith
mass-flatten op (list ts) = omega arith
mass-flatten op (len t) = omega arith
mass-flatten op opaque = refl

-- The operands that are left and, where one was folded, the constant weigh no more than the list.
Split : ℤ → List Term → ℤ × List Term → Type 0
Split acc ts r = (r.0 ≡ acc) × (mass r.1 ≤ mass ts) ⊎ (mass r.1 + 2 ≤ mass ts)

fold_step :
    (fold : ℤ → ℤ → Option ℤ) (acc n v : ℤ) (ts : List Term) (r : ℤ × List Term)
    → Split v ts r
    → Split acc (int n ∷ ts) r
unfolding size Split
fold_step fold acc n v ts r (inl (e, h)) = inr (omega arith)
fold_step fold acc n v ts r (inr h) = inr (omega arith)

keep_step :
    (acc : ℤ) (t : Term) (ts : List Term) (r : ℤ × List Term)
    → Split acc ts r
    → Split acc (t ∷ ts) (r.0, t ∷ r.1)
unfolding Split
keep_step acc t ts r (inl (e, h)) = inl (e, omega arith)
keep_step acc t ts r (inr h) = inr (omega arith)

pub constant_of-int : (t : Term) (n : ℤ) → constant_of t ≡ some n → t ≡ int n
constant_of-int (int m) n h = cc
constant_of-int (Term.sym x) n h = cc
constant_of-int (bool b) n h = cc
constant_of-int (str s) n h = cc
constant_of-int (bin o a b) n h = cc
constant_of-int (obj c fs) n h = cc
constant_of-int (field t m) n h = cc
constant_of-int (list ts) n h = cc
constant_of-int (len t) n h = cc
constant_of-int opaque n h = cc

-- What a step with the rest of the operands in it comes to.
pub keep_operand-some :
    (t : Term) (o : Option (ℤ × List Term)) (r : ℤ × List Term)
    → keep_operand t o ≡ some r
    → (q : ℤ × List Term) × (o ≡ some q) × (r ≡ (q.0, t ∷ q.1))
keep_operand-some t none r h = cc
keep_operand-some t (some q) r h = (q, refl, cc)

split_operands-Split :
    (fold : ℤ → ℤ → Option ℤ) (acc : ℤ) (ts : List Term) (r : ℤ × List Term)
    → split_operands fold acc ts ≡ some r
    → Split acc ts r
unfolding split_operands Split
split_operands-Split fold acc [] r h = inl (ground arith, ground arith)
split_operands-Split fold acc (t ∷ ts) r h = elim (Option-cases (constant_of t)) [
  | inl symbolic ↦
      let (q, e, eq) =
        keep_operand-some t (split_operands fold acc ts) r (rw (split_operands, symbolic) at h) in
      subst (Split acc (t ∷ ts)) (sym eq)
        (keep_step acc t ts q (split_operands-Split fold acc ts q e))
  | inr (n, concrete) ↦ elim (Option-cases (fold acc n)) [
    | inl over ↦ from_none (rw (split_operands, concrete, over) at h)
    | inr (v, e) ↦
        subst (λ u. Split acc (u ∷ ts) r) (sym (constant_of-int t n concrete))
          (fold_step fold acc n v ts r
            (split_operands-Split fold v ts r (rw (split_operands, concrete, e) at h)))
  ]
]

mass-insert_term : (t : Term) (us : List Term) → mass (insert_term t us) ≡ suc (size t) + mass us
unfolding insert_term
mass-insert_term t [] = refl
mass-insert_term t (u ∷ us) = elim (Bool-cases (is_less (term_cmp t u))) [
  | inl less ↦ rw less refl
  | inr more ↦ rw (more, mass-insert_term t us) (omega arith)
]

mass-sort : (ts : List Term) → mass (sort ts) ≡ mass ts
unfolding sort
mass-sort [] = refl
mass-sort (t ∷ ts) = rw (mass-insert_term t (sort ts), mass-sort ts) refl

size-chain : (op : Op) (acc : Term) (ts : List Term) → size (chain op acc ts) ≡ size acc + mass ts
unfolding chain size
size-chain op acc [] = omega arith
size-chain op acc (t ∷ ts) = rw (size-chain op (bin op acc t) ts) (omega arith)

size-rebuild :
    (op : Op) (ts : List Term) (n : ℕ) → mass ts ≤ n → 2 ≤ n → suc (size (rebuild op ts)) ≤ n
unfolding rebuild size
size-rebuild op [] n h two = two
size-rebuild op (t ∷ ts) n h two = rw (size-chain op t ts) (omega arith)

is_nil-mass : (ts : List Term) → is_nil ts ≡ true → mass ts ≡ 0
is_nil-mass [] h = refl
is_nil-mass (t ∷ ts) h = cc

-- There is room for the constant where it is written.
constant_fits :
    (identity : ℤ) (ts : List Term) (r : ℤ × List Term)
    → Split identity ts r
    → 2 ≤ mass ts
    → (not (eq_ℤ r.0 identity) || is_nil (sort r.1)) ≡ true
    → mass (sort r.1) + 2 ≤ mass ts
unfolding Split
constant_fits identity ts r (inr fits) two h = rw (mass-sort r.1) fits
constant_fits identity ts r (inl (e, fits)) two h =
    let same : eq_ℤ r.0 identity ≡ true = rw e (ground arith) in
    let empty = is_nil-mass (sort r.1) (rw same at h) in omega arith

remaining_fits :
    (acc : ℤ) (ts : List Term) (r : ℤ × List Term) → Split acc ts r → mass r.1 ≤ mass ts
unfolding Split
remaining_fits acc ts r (inl (e, fits)) = fits
remaining_fits acc ts r (inr fits) = omega arith

size-with_constant :
    (op : Op) (identity : ℤ) (ts : List Term) (o : Option (ℤ × List Term))
    → ((r : ℤ × List Term) → o ≡ some r → Split identity ts r)
    → 2 ≤ mass ts
    → suc (size (with_constant op identity o)) ≤ mass ts
unfolding size
size-with_constant op identity ts none split two = two
size-with_constant op identity ts (some r) split two =
    let sorted = sort r.1 in
    elim (Bool-cases (not (eq_ℤ r.0 identity) || is_nil sorted)) [
      | inl written ↦
          let fits = constant_fits identity ts r (split r refl) two written in
          rw written (
            size-rebuild op (sorted ++ int r.0 ∷ []) (mass ts)
              (rw (mass_append sorted (int r.0 ∷ [])) fits) two)
      | inr left_out ↦ rw left_out (
          size-rebuild op sorted (mass ts)
            (rw (mass-sort r.1) (remaining_fits identity ts r (split r refl))) two)
    ]

pub size-reduce_commutative :
    (op : Op) (ra rb : Term) (identity : ℤ) (fold : ℤ → ℤ → Option ℤ)
    → size (reduce_commutative op ra rb identity fold) ≤ suc (size ra + size rb)
unfolding reduce_commutative size
size-reduce_commutative op ra rb identity fold =
    let operands = flatten op ra ++ flatten op rb in
    let both = mass_append (flatten op ra) (flatten op rb) in
    let first = mass-flatten op ra in
    let second = mass-flatten op rb in
    let two : 2 ≤ mass operands = omega arith in
    let fits =
      size-with_constant op identity operands (split_operands fold identity operands)
        (λ r e. split_operands-Split fold identity operands r e) two in
    omega arith
