-- ===== src/Reduce/Floats.antt =====
-- What crates/analyzer/src/reduce/value.rs and eval.rs use of `f64`: a type with the operations of the
-- standard library. A law that a result relies on is a hypothesis of that result.
use phpunit_rust.Prelude.{ℕ, Bool, Option, List, Ordering}
use phpunit_rust.Int.{ℤ}

pub record Floats : Type 1 where
  pub F : Type 0
  pub of_int : ℤ → F
  pub eq : F → F → Bool
  pub partial_cmp : F → F → Option Ordering
  pub is_finite : F → Bool
  pub trunc : F → F
  -- `as i64` within the range.
  pub cast : F → ℤ
  pub is_sign_negative : F → Bool
  pub is_nan : F → Bool
  pub is_infinite : F → Bool
  -- `parse::<f64>`, on the codes of characters.
  pub parse : List ℕ → Option F
  -- The exponent that `{:e}` writes.
  pub exponent : F → ℤ
  -- What `{:.*E}` writes, before and after its `E`.
  pub scientific : ℕ → F → List ℕ × ℤ
  -- What `{:.*}` writes.
  pub fixed : ℕ → F → List ℕ
  pub neg : F → F
  pub abs : F → F
  pub add : F → F → F
  pub sub : F → F → F
  pub mul : F → F → F
  pub div : F → F → F
  pub powf : F → F → F
