-- ===== src/Cache.antt =====
-- crates/analyzer/src/cache/gc.rs: `prune`, which evicts the least recently read entries of the cache.
-- What the walk over the directory finds, and which removals succeed, are parameters. The sorted
-- vector is written from its end, where `pop` takes.
pub mod Fits
use phpunit_rust.Prelude.{
  ℕ, ◌+◌, ◌-◌, Bool, String, List, [], ◌∷◌, ◌++◌, if◌then◌else◌, leb, ltb, length,
}
use phpunit_rust.ForkPool.{Result, ok, err}

pub record Entry : Type 0 where
  pub accessed : ℕ
  pub size : ℕ
  pub path : String

pub record GcStats : Type 0 where
  pub bytes_before : ℕ
  pub bytes_after : ℕ
  pub entries_removed : ℕ

-- What `prune` returns, and what it does to the directory: the entries removed and those left.
pub record Pruning : Type 0 where
  pub stats : GcStats
  pub gone : List Entry
  pub left : List Entry

abbrev pub total_size : List Entry → ℕ
total_size [] = 0
total_size (e ∷ es) = e.size + total_size es

-- `sort_by_key(Reverse(accessed))`, which is stable.
unfoldable pub insert_entry : Entry → List Entry → List Entry
insert_entry e [] = e ∷ []
insert_entry e (x ∷ xs) = if leb x.accessed e.accessed then x ∷ insert_entry e xs else e ∷ x ∷ xs

unfoldable pub by_age : List Entry → List Entry
by_age [] = []
by_age (e ∷ es) = insert_entry e (by_age es)

-- The loop: while the total is above the bound, the oldest entry goes.
unfoldable pub evict : (String → Bool) → ℕ → ℕ → ℕ → List Entry → ℕ → List Entry → Result Pruning
evict removes max_bytes before total gone removed [] = ok (record {
  stats = record { bytes_before = before; bytes_after = total; entries_removed = removed };
  gone = gone;
  left = [];
})
evict removes max_bytes before total gone removed (e ∷ es) =
    let rest = evict removes max_bytes before (total - e.size) (gone ++ e ∷ []) (removed + 1) es in
    if ltb max_bytes total
    then (if removes e.path then rest else err "remove_file")
    else ok (record {
      stats = record { bytes_before = before; bytes_after = total; entries_removed = removed };
      gone = gone;
      left = e ∷ es;
    })

unfoldable pub prune : (String → Bool) → ℕ → List Entry → Result Pruning
prune removes max_bytes entries =
    let total = total_size entries in
    let rest = evict removes max_bytes total total [] 0 (by_age entries) in
    if leb total max_bytes
    then ok (record {
      stats = record { bytes_before = total; bytes_after = total; entries_removed = 0 };
      gone = [];
      left = entries;
    })
    else rest
