-- ===== src/ForkPool/Bind.antt =====
-- crates/runner/src/fork_pool.rs: what a successful result of its operations says.
use phpunit_rust.Prelude.{◌≡◌, refl}
use phpunit_rust.ForkPool.{Result, ok, err, ◌>>=◌}

pub ok_injective {ℓ} : {A : Type ℓ} {a b : A} → ok a ≡ ok b → a ≡ b
ok_injective h = cc

-- A chain that succeeds succeeds at its first step.
pub >>=-eq-ok {ℓ κ} :
    {A : Type ℓ} {B : Type κ} (r : Result A) (f : A → Result B) {b : B}
    → (r >>= f) ≡ ok b
    → (a : A) × (r ≡ ok a) × (f a ≡ ok b)
>>=-eq-ok (ok a) f h = (a, refl, h)
>>=-eq-ok (err w) f h = cc
