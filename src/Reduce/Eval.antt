-- ===== src/Reduce/Eval.antt =====
-- crates/analyzer/src/reduce/eval.rs: the operations on values of the evaluator, with the reasons for
-- which it abstains. A name of a function is a text; a result is the value, a bail, or a panic where
-- Rust's own arithmetic has one.
pub mod Kinds
pub mod Guards
pub mod Assertions
pub mod Arith
pub mod Binary
pub mod Hints
pub mod Arrays
pub mod Builtins
pub mod Closures
pub mod Callbacks
use phpunit_rust.Prelude.{String, ◌≡◌, refl}

pub data BailReason : Type 0 where
  unsupported_construct : String → BailReason
  unbound_variable : String → BailReason
  unknown_call : String → BailReason
  type_error : String → BailReason
  float_delta : BailReason
  division_by_zero : BailReason
  step_budget : BailReason
  other : String → BailReason

unfoldable pub tag : BailReason → String
tag (unsupported_construct s) = "unsupported_construct"
tag (unbound_variable s) = "unbound_variable"
tag (unknown_call s) = "unknown_call"
tag (type_error s) = "type_error"
tag float_delta = "float_delta"
tag division_by_zero = "division_by_zero"
tag step_budget = "step_budget"
tag (other s) = "other"

pub data Outcome : Type 0 where
  pass : Outcome
  fail : String → Outcome
  bailed : BailReason → Outcome

-- `Result<_, BailReason>` of code that may panic.
pub data Result {ℓ} (A : Type ℓ) : Type ℓ where
  ok : A → Result A
  bail : BailReason → Result A
  panic : Result A

-- The operator `?` and what follows it.
infixl 1 ◌>>=◌ ◌>>◌
abbrev pub ◌>>=◌ {ℓ ℓ'} : {V : Type ℓ} {W : Type ℓ'} → Result V → (V → Result W) → Result W
panic >>= next = panic
bail reason >>= next = bail reason
ok v >>= next = next v

pub ok_eq {ℓ} : {V : Type ℓ} {v w : V} → ok v ≡ ok w → v ≡ w
ok_eq same = cc

pub bind_congr {ℓ ℓ'} :
    {V : Type ℓ} {W : Type ℓ'} (step : Result V) {next other : V → Result W}
    → ((v : V) → next v ≡ other v)
    → (step >>= next) ≡ (step >>= other)
bind_congr step agree = λ i. step >>= λ v. agree v i

-- A step without a value, as a guard is.
abbrev pub ◌>>◌ {ℓ} : {W : Type ℓ} → Result (Unit {0}) → Result W → Result W
step >> rest = step >>= λ done. rest

pub bind_assoc {ℓ ℓ' ℓ''} :
    {V : Type ℓ} {W : Type ℓ'} {X : Type ℓ''} (step : Result V) (next : V → Result W)
    (last : W → Result X)
    → (step >>= next >>= last) ≡ (step >>= λ v. next v >>= last)
bind_assoc panic next last = refl
bind_assoc (bail reason) next last = refl
bind_assoc (ok v) next last = refl

-- A result that is there has come through every step.
pub bind_ok {ℓ ℓ'} :
    {V : Type ℓ} {W : Type ℓ'} (step : Result V) (next : V → Result W) {w : W}
    → (step >>= next) ≡ ok w
    → (v : V) × (step ≡ ok v) × (next v ≡ ok w)
bind_ok panic next there = cc
bind_ok (bail reason) next there = cc
bind_ok (ok v) next there = (v, refl, there)
