-- ===== src/Reduce/Eval/Hints/Owned.antt =====
-- crates/analyzer/src/reduce/eval.rs: the guard that is kept beside the guard on the syntax tree.
use phpunit_rust.Prelude.{
  Bool, true, false, not, ◌&&◌, ◌||◌, ◌≡◌, refl, sym, ap, ap₂, ◌∙◌, List, [], ◌∷◌, Option, none,
  some, if◌then◌else◌, String, Bool-cases, inl, inr, or_none, or_right,
}
use phpunit_rust.Reduce.Floats.{Floats}
use phpunit_rust.Reduce.Value.{Value}
use phpunit_rust.Reduce.Eval.{BailReason, Result, ok, bail}
use phpunit_rust.Reduce.Eval.Kinds.{is_null_value, is_str, is_int, is_float, is_bool}
use phpunit_rust.Reduce.Eval.Hints.{
  Hint, string_hint, integer_hint, float_hint, bool_hint, true_hint, false_hint, null_hint,
  mixed_hint, nullable_hint, union_hint, intersection_hint, parenthesized_hint, is_scalar_value,
  bare_scalar_hint_matches, said_no, value_matches_hint_member, hint_leaves, any_leaf,
  composite_guard, bail_when, members_coerce, bail_if_scalar_hint_coerces, ScalarLeaf,
  bare_scalar_matches, matches_member, of_hint, OwnedScalarHint, is_nullable_hint, is_null_hint,
  is_bare, leaves_of, scalar_hint_of, bail_if_coerces, guard_property,
}

abbrev pub is_bail {ℓ} : {A : Type ℓ} → Result A → Bool
is_bail (bail r) = true
is_bail _ = false

-- A hint as PHP writes one: parentheses stand inside a union or an intersection only.
unfoldable pub is_placed : Hint → Bool
is_placed (parenthesized_hint h) = false
is_placed (nullable_hint h) = is_placed h
is_placed _ = true

bare-of_hint :
    {fl : Floats} (h : Hint) (v : Value fl)
    → bare_scalar_matches (of_hint h) v ≡ bare_scalar_hint_matches h v
unfolding bare_scalar_matches of_hint bare_scalar_hint_matches
bare-of_hint string_hint v = refl
bare-of_hint integer_hint v = refl
bare-of_hint float_hint v = refl
bare-of_hint bool_hint v = refl
bare-of_hint _ v = refl

member-of_hint :
    {fl : Floats} (h : Hint) (v : Value fl)
    → matches_member (of_hint h) v ≡ value_matches_hint_member h v
unfolding matches_member bare_scalar_matches of_hint value_matches_hint_member
    bare_scalar_hint_matches
member-of_hint string_hint v = refl
member-of_hint integer_hint v = refl
member-of_hint float_hint v = refl
member-of_hint bool_hint v = refl
member-of_hint true_hint v = refl
member-of_hint false_hint v = refl
member-of_hint null_hint v = refl
member-of_hint mixed_hint v = refl
member-of_hint _ v = refl

any_leaf-leaves_of :
    (f : ScalarLeaf → Bool) (g : Hint → Bool) (hs : List Hint)
    → ((h : Hint) → f (of_hint h) ≡ g h)
    → any_leaf f (leaves_of hs) ≡ any_leaf g hs
any_leaf-leaves_of f g [] agree = refl
any_leaf-leaves_of f g (h ∷ hs) agree = ap₂ ◌||◌ (agree h) (any_leaf-leaves_of f g hs agree)

-- A hint that is not scalar itself is no scalar member.
quiet-bare :
    {fl : Floats} (h : Hint) (v : Value fl)
    → is_bare (of_hint h) ≡ false
    → said_no (bare_scalar_hint_matches h v) ≡ false
unfolding of_hint bare_scalar_hint_matches
quiet-bare string_hint v e = cc
quiet-bare integer_hint v e = cc
quiet-bare float_hint v e = cc
quiet-bare bool_hint v e = cc
quiet-bare _ v e = refl

no_members :
    {fl : Floats} (hs : List Hint) (v : Value fl)
    → any_leaf is_bare (leaves_of hs) ≡ false
    → any_leaf (λ h. said_no (bare_scalar_hint_matches h v)) hs ≡ false
no_members [] v e = refl
no_members (h ∷ hs) v e =
    let (own, rest) = or_none (is_bare (of_hint h)) (any_leaf is_bare (leaves_of hs)) e in
    ap₂ ◌||◌ (quiet-bare h v own) (no_members hs v rest)

-- A null value matches a hint with the member `null`.
null_member :
    {fl : Floats} (hs : List Hint) (v : Value fl)
    → any_leaf is_null_hint hs ≡ true
    → is_null_value v ≡ true
    → any_leaf (λ h. value_matches_hint_member h v) hs ≡ true
unfolding value_matches_hint_member
null_member [] v e z = cc
null_member (null_hint ∷ hs) v e z = rw z refl
null_member (h ∷ hs) v e z = or_right (value_matches_hint_member h v) (null_member hs v e z)

when_bails : (b : Bool) (r : BailReason) → is_bail (bail_when b r) ≡ b
when_bails true r = refl
when_bails false r = refl

bare_bails :
    (b : Bool) (r : BailReason)
    → is_bail (bail_when (not b) r) ≡ ((not b || false) && not (b || false))
bare_bails true r = refl
bare_bails false r = refl

nullable_bails :
    (z n c : Bool) (inner : Result (Unit {0}))
    → is_bail inner ≡ (not (n && z) && c)
    → is_bail (if z then ok tt else inner) ≡ (not z && c)
nullable_bails true n c inner h = refl
nullable_bails false true c inner h = h
nullable_bails false false c inner h = h

composite_bails :
    {fl : Floats} (h : Hint) (v : Value fl) (site : String)
    → is_scalar_value v ≡ true
    → is_bail (composite_guard h v site) ≡ members_coerce (hint_leaves h) v
composite_bails h v site s = rw s (when_bails _ _)

and_not : (a b : Bool) → b ≡ true → (a && not b) ≡ false
and_not true b h = ap not h
and_not false b h = refl

-- The guard on the tree: but for a null value under `?`, it looks at the members.
tree_bails :
    {fl : Floats} (h : Hint) (v : Value fl) (site : String)
    → is_placed h ≡ true
    → is_scalar_value v ≡ true
    → is_bail (bail_if_scalar_hint_coerces h v site)
      ≡ (not (is_nullable_hint h && is_null_value v) && members_coerce (hint_leaves h) v)
unfolding is_placed bail_if_scalar_hint_coerces hint_leaves value_matches_hint_member
    bare_scalar_hint_matches
tree_bails string_hint v site p s = bare_bails (is_str v) _
tree_bails integer_hint v site p s = bare_bails (is_int v) _
tree_bails float_hint v site p s = bare_bails (is_float v) _
tree_bails bool_hint v site p s = bare_bails (is_bool v) _
tree_bails (nullable_hint h) v site p s =
    nullable_bails (is_null_value v) (is_nullable_hint h) (members_coerce (hint_leaves h) v) _
      (tree_bails h v site p s)
tree_bails (union_hint l r) v site p s = composite_bails (union_hint l r) v site s
tree_bails (intersection_hint l r) v site p s = composite_bails (intersection_hint l r) v site s
tree_bails (parenthesized_hint h) v site p s = cc
tree_bails _ v site p s = refl

null_spared :
    {fl : Floats} (hs : List Hint) (v : Value fl)
    → any_leaf is_null_hint hs ≡ true
    → is_null_value v ≡ true
    → members_coerce hs v ≡ false
null_spared hs v e z =
    and_not (any_leaf (λ h. said_no (bare_scalar_hint_matches h v)) hs)
      (any_leaf (λ h. value_matches_hint_member h v) hs) (null_member hs v e z)

-- The tests of the guard that is kept.
kept_tests :
    (z n a c : Bool) (r : BailReason)
    → (a ≡ true → z ≡ true → c ≡ false)
    → is_bail (if (n || a) && z then ok tt else bail_when c r) ≡ (not (n && z) && c)
kept_tests true true a c r h = refl
kept_tests true false true c r h = sym (h refl refl)
kept_tests true false false c r h = when_bails c r
kept_tests false true a c r h = when_bails c r
kept_tests false false true c r h = when_bails c r
kept_tests false false false c r h = when_bails c r

kept_members :
    {fl : Floats} (hs : List Hint) (v : Value fl)
    → (any_leaf (λ l. said_no (bare_scalar_matches l v)) (leaves_of hs)
        && not (any_leaf (λ l. matches_member l v) (leaves_of hs)))
      ≡ members_coerce hs v
kept_members hs v =
    ap₂ (λ a b. a && not b)
      (any_leaf-leaves_of (λ l. said_no (bare_scalar_matches l v)) _ hs
        (λ h. ap said_no (bare-of_hint h v)))
      (any_leaf-leaves_of (λ l. matches_member l v) _ hs (λ h. member-of_hint h v))

no_and : (a : Bool) → false ≡ (a && false)
no_and true = refl
no_and false = refl

kept_bails :
    {fl : Floats} (h : Hint) (v : Value fl)
    → is_scalar_value v ≡ true
    → is_bail (guard_property (scalar_hint_of h) v)
      ≡ (not (is_nullable_hint h && is_null_value v) && members_coerce (hint_leaves h) v)
unfolding guard_property scalar_hint_of bail_if_coerces
kept_bails h v s =
    let hs = hint_leaves h in
    elim (Bool-cases (any_leaf is_bare (leaves_of hs))) [
      | inl e ↦
          rw (e, s, kept_members hs v)
            (kept_tests (is_null_value v) (is_nullable_hint h) (any_leaf is_null_hint hs)
              (members_coerce hs v) _ (null_spared hs v))
      | inr e ↦ rw (e, no_members hs v e) (no_and (not (is_nullable_hint h && is_null_value v)))
    ]

non_scalar :
    {fl : Floats} (o : Option OwnedScalarHint) (v : Value fl)
    → is_scalar_value v ≡ false
    → is_bail (guard_property o v) ≡ false
unfolding guard_property bail_if_coerces
non_scalar none v s = refl
non_scalar (some o) v s = rw s refl

-- The guard that is kept bails where the value is a scalar and the guard on the syntax tree bails, for a
-- hint as PHP writes one.
pub guard_property-tree :
    {fl : Floats} (h : Hint) (v : Value fl) (site : String)
    → is_placed h ≡ true
    → is_bail (guard_property (scalar_hint_of h) v)
      ≡ (is_scalar_value v && is_bail (bail_if_scalar_hint_coerces h v site))
guard_property-tree h v site p = elim (Bool-cases (is_scalar_value v)) [
  | inl s ↦
      kept_bails h v s
      ∙ sym (tree_bails h v site p s)
      ∙ sym (ap (λ b. b && is_bail (bail_if_scalar_hint_coerces h v site)) s)
  | inr s ↦
      non_scalar (scalar_hint_of h) v s
      ∙ sym (ap (λ b. b && is_bail (bail_if_scalar_hint_coerces h v site)) s)
]
