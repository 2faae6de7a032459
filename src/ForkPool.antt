-- ===== src/ForkPool.antt =====
-- crates/runner/src/fork_pool.rs: the write ends of the pool's slots and the batches sent over
-- them. The pipes, the PHP master and its signals are the operating system's; whether a write to an
-- open pipe goes through is a field of the pool that nothing here sets.
pub mod Bind
use phpunit_rust.Prelude.{
  ℕ, Bool, true, false, Option, none, some, List, [], ◌∷◌, ◌++◌, get_elem?, set, length, map,
  String, if◌then◌else◌,
}
use phpunit_rust.Types.{BatchPlan}

pub record PhpForkPool : Type 0 where
  pub write_ends : List Bool
  pub read_ends : List Bool
  pub reaped : Bool
  pub accepts : ℕ → BatchPlan → Bool
  pub sent : List (ℕ × BatchPlan)

-- An `anyhow` error, by its first words.
pub data Result {ℓ} (A : Type ℓ) : Type ℓ where
  ok : A → Result A
  err : String → Result A

infixl 5 ◌>>=◌
abbrev pub ◌>>=◌ {ℓ κ} : {A : Type ℓ} {B : Type κ} → Result A → (A → Result B) → Result B
ok a >>= f = f a
err e >>= f = err e

abbrev pub is_open : Option Bool → Bool
is_open (some true) = true
is_open _ = false

unfoldable pub write_batch : ℕ → BatchPlan → PhpForkPool → Result PhpForkPool
write_batch slot plan p =
    if is_open (get_elem? p.write_ends slot)
    then (if p.accepts slot plan
        then ok (record p { sent = p.sent ++ (slot, plan) ∷ [] })
        else err "writing BatchPlan")
    else err "write end already closed"

unfoldable pub close_slot : ℕ → PhpForkPool → PhpForkPool
close_slot slot p = record p { write_ends = set p.write_ends slot false }

unfoldable pub close_write_ends : PhpForkPool → PhpForkPool
close_write_ends p = record p { write_ends = map (λ _. false) p.write_ends }

-- The read end of a slot is handed out once.
unfoldable pub take_reader : ℕ → PhpForkPool → Option PhpForkPool
take_reader slot p =
    if is_open (get_elem? p.read_ends slot)
    then some (record p { read_ends = set p.read_ends slot false })
    else none

unfoldable pub len : PhpForkPool → ℕ
len p = length p.write_ends

unfoldable pub wait : PhpForkPool → PhpForkPool
wait p = record p { reaped = true }

unfoldable pub terminate : PhpForkPool → PhpForkPool
unfolding close_write_ends
terminate p = record (close_write_ends p) { reaped = true }

-- `alive` is the operating system's answer about the master process.
unfoldable pub master_alive : Bool → PhpForkPool → Bool
master_alive alive p = if p.reaped then false else alive
