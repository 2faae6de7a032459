-- ===== src/Reduce/Eval/Guards/Chain.antt =====
-- crates/analyzer/src/reduce/eval.rs: `assertEquals` past both guards, beside the chain of comparators.
use phpunit_rust.Prelude.{
  Bool, true, false, not, ◌&&◌, ◌≡◌, refl, sym, ◌∙◌, inl, inr, if◌then◌else◌, nat_eq, Bool-cases,
  from_false, or_none, subst,
}
use phpunit_rust.Reduce.Floats.{Floats}
use phpunit_rust.Reduce.Value.{
  Bytes, bytes_eq, Value, null, bool, int, float, str, arr, object, closure, Items, no_items, item,
  Props, no_props, prop, count_items, count_props, item_of, prop_of,
}
use phpunit_rust.Reduce.Value.Compare.{php_compare, php_loose_eq, loose_items, loose_props}
use phpunit_rust.Reduce.Value.Compare.Laws.{FloatLaws, bytes_eq-eq, cmp_texts_self}
use phpunit_rust.Reduce.Eval.Guards.{
  contains_closure, loose_eq_pair_unmodelled, unmodelled_items, unmodelled_props,
  comparator_eq_divergent, divergent_items, divergent_props,
}
use phpunit_rust.Reduce.Value.Numeric.{full_numeric}
use phpunit_rust.Reduce.Eval.Guards.Reference.{Oracle, phpunit_equal, chain_items, chain_props}
use phpunit_rust.Reduce.Eval.Guards.Scalars.{NoNan, scalars_compared}
use phpunit_rust.Reduce.Eval.Guards.Loose.{and_assoc, matched, unguarded}

-- Elements are compared where the shapes are the same, under two guards.
shaped_twice :
    (s u c d : Bool) {l r : Bool}
    → (if s then u else c) ≡ false
    → (s && d) ≡ false
    → (u ≡ false → d ≡ false → l ≡ r)
    → (s && l) ≡ (s && r)
shaped_twice true u c d h k same = same h k
shaped_twice false u c d h k same = refl

module _ {fl : Floats} (laws : FloatLaws fl) (exact : NoNan fl) where
  -- Two texts that are equal as strings, or are not equal as numbers either.
  texts_equal :
      (s t : Bytes)
      → (not (bytes_eq s t) && php_loose_eq {fl = fl} (str s) (str t)) ≡ false
      → php_loose_eq {fl = fl} (str s) (str t) ≡ bytes_eq s t
  unfolding php_loose_eq php_compare
  texts_equal s t h = elim (Bool-cases (bytes_eq s t)) [
    | inl same ↦
        let text : php_loose_eq {fl = fl} (str s) (str s) ≡ true =
          rw (cmp_texts_self fl laws s (full_numeric fl s)) refl in
        subst (λ u. php_loose_eq {fl = fl} (str s) (str u) ≡ true) (bytes_eq-eq s t same) text
        ∙ sym same
    | inr other ↦ rw other at h ∙ sym other
  ]

  mutual
    unfolding loose_eq_pair_unmodelled comparator_eq_divergent php_loose_eq phpunit_equal

    pub loose-chain :
        (ask : Oracle fl) (v w : Value fl)
        → loose_eq_pair_unmodelled v w ≡ false
        → comparator_eq_divergent v w ≡ false
        → php_loose_eq v w ≡ phpunit_equal ask v w
    loose-chain ask (closure s ps) w h g = from_false (sym h)
    loose-chain ask (str s) (str t) h g = texts_equal s t g
    loose-chain ask (object c ps a) (object d qs b) h g =
        let sizes = nat_eq (count_props ps) (count_props qs) in
        and_assoc (bytes_eq c d) sizes (loose_props ps qs)
        ∙ shaped_twice (bytes_eq c d && sizes) (unmodelled_props ps qs) _ (divergent_props ps qs) h
            g (loose_props-chain_props ask ps qs)
    loose-chain ask (object c ps a) _ h g = from_false (sym h)
    loose-chain ask (arr x) (arr y) h g =
        shaped_twice (nat_eq (count_items x) (count_items y)) (unmodelled_items x y) _
          (divergent_items x y) h g (loose_items-chain_items ask x y)
    loose-chain ask _ (closure s ps) h g = from_false (sym h)
    loose-chain ask _ (object c ps a) h g = from_false (sym h)
    loose-chain ask (arr x) _ h g = from_false (sym g)
    loose-chain ask _ (arr y) h g = from_false (sym g)
    loose-chain ask null null h g = scalars_compared fl exact null null refl refl refl
    loose-chain ask null (bool c) h g = scalars_compared fl exact null (bool c) refl refl refl
    loose-chain ask null (int j) h g = scalars_compared fl exact null (int j) refl refl refl
    loose-chain ask null (float b) h g = scalars_compared fl exact null (float b) refl refl refl
    loose-chain ask null (str t) h g = scalars_compared fl exact null (str t) refl refl refl
    loose-chain ask (bool p) null h g = scalars_compared fl exact (bool p) null refl refl refl
    loose-chain ask (bool p) (bool c) h g =
        scalars_compared fl exact (bool p) (bool c) refl refl refl
    loose-chain ask (bool p) (int j) h g = scalars_compared fl exact (bool p) (int j) refl refl refl
    loose-chain ask (bool p) (float b) h g =
        scalars_compared fl exact (bool p) (float b) refl refl refl
    loose-chain ask (bool p) (str t) h g = scalars_compared fl exact (bool p) (str t) refl refl refl
    loose-chain ask (int i) null h g = scalars_compared fl exact (int i) null refl refl refl
    loose-chain ask (int i) (bool c) h g = scalars_compared fl exact (int i) (bool c) refl refl refl
    loose-chain ask (int i) (int j) h g = scalars_compared fl exact (int i) (int j) refl refl refl
    loose-chain ask (int i) (float b) h g =
        scalars_compared fl exact (int i) (float b) refl refl refl
    loose-chain ask (int i) (str t) h g = scalars_compared fl exact (int i) (str t) refl refl refl
    loose-chain ask (float a) null h g = scalars_compared fl exact (float a) null refl refl refl
    loose-chain ask (float a) (bool c) h g =
        scalars_compared fl exact (float a) (bool c) refl refl refl
    loose-chain ask (float a) (int j) h g =
        scalars_compared fl exact (float a) (int j) refl refl refl
    loose-chain ask (float a) (float b) h g =
        scalars_compared fl exact (float a) (float b) refl refl refl
    loose-chain ask (float a) (str t) h g =
        scalars_compared fl exact (float a) (str t) refl refl refl
    loose-chain ask (str s) null h g = scalars_compared fl exact (str s) null refl refl refl
    loose-chain ask (str s) (bool c) h g = scalars_compared fl exact (str s) (bool c) refl refl refl
    loose-chain ask (str s) (int j) h g = scalars_compared fl exact (str s) (int j) refl refl refl
    loose-chain ask (str s) (float b) h g =
        scalars_compared fl exact (str s) (float b) refl refl refl

    loose_items-chain_items :
        (ask : Oracle fl) (x y : Items fl)
        → unmodelled_items x y ≡ false
        → divergent_items x y ≡ false
        → loose_items x y ≡ chain_items ask x y
    loose_items-chain_items ask no_items y h g = refl
    loose_items-chain_items ask (item k v xs) y h g =
        let (one, more) = or_none _ (unmodelled_items xs y) h in
        let (fits, others) = or_none _ (divergent_items xs y) g in
        matched (item_of k y) (php_loose_eq v) (phpunit_equal ask v)
          (λ w e.
            loose-chain ask v w
              (unguarded (item_of k y) (contains_closure v) (loose_eq_pair_unmodelled v) w one e)
              (unguarded (item_of k y) false (comparator_eq_divergent v) w fits e))
          (loose_items-chain_items ask xs y more others)

    loose_props-chain_props :
        (ask : Oracle fl) (ps qs : Props fl)
        → unmodelled_props ps qs ≡ false
        → divergent_props ps qs ≡ false
        → loose_props ps qs ≡ chain_props ask ps qs
    loose_props-chain_props ask no_props y h g = refl
    loose_props-chain_props ask (prop k v xs) y h g =
        let (one, more) = or_none _ (unmodelled_props xs y) h in
        let (fits, others) = or_none _ (divergent_props xs y) g in
        matched (prop_of k y) (php_loose_eq v) (phpunit_equal ask v)
          (λ w e.
            loose-chain ask v w
              (unguarded (prop_of k y) (contains_closure v) (loose_eq_pair_unmodelled v) w one e)
              (unguarded (prop_of k y) false (comparator_eq_divergent v) w fits e))
          (loose_props-chain_props ask xs y more others)
