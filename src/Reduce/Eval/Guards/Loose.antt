-- ===== src/Reduce/Eval/Guards/Loose.antt =====
-- crates/analyzer/src/reduce/eval.rs: what the guards of `==` leave of the entries that two aggregates share.
use phpunit_rust.Prelude.{Bool, true, false, ◌&&◌, ◌≡◌, refl, ap₂, Option, none, some, subst}
use phpunit_rust.Reduce.Floats.{Floats}
use phpunit_rust.Reduce.Value.{Value}

pub and_assoc : (a b c : Bool) → (a && (b && c)) ≡ ((a && b) && c)
and_assoc true b c = refl
and_assoc false b c = refl

-- What an entry that is found adds to a comparison, and to a guard.
module _ {fl : Floats} where
  pub matched :
      (o : Option (Value fl)) (p q : Value fl → Bool) {l r : Bool}
      → ((w : Value fl) → o ≡ some w → p w ≡ q w)
      → l ≡ r
      → (elim o as (λ o. Bool) [ none ↦ false | some w ↦ p w && l ])
        ≡ ((elim o as (λ o. Bool) [ none ↦ false | some w ↦ q w ]) && r)
  matched none p q same rest = refl
  matched (some w) p q same rest = ap₂ ◌&&◌ (same w refl) rest

  pub unguarded :
      (o : Option (Value fl)) (c : Bool) (bad : Value fl → Bool) (w : Value fl)
      → (elim o as (λ o. Bool) [ none ↦ c | some w ↦ bad w ]) ≡ false
      → o ≡ some w
      → bad w ≡ false
  unguarded o c bad w h e =
      subst (λ o. (elim o as (λ o. Bool) [ none ↦ c | some w ↦ bad w ]) ≡ false) e h
