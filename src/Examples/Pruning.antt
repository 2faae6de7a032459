-- ===== src/Examples/Pruning.antt =====
-- A cache of two entries, one of which has to go.
use phpunit_rust.Prelude.{String, Bool, true, ◌≡◌, refl, [], ◌∷◌}
use phpunit_rust.ForkPool.{ok}
use phpunit_rust.Cache.{Entry, Pruning, evict, prune, by_age, insert_entry}
use phpunit_rust.Cache.Fits.{Pruned, prune-Pruned}

abbrev recent : Entry
recent = record { accessed = 9; size = 40; path = "b" }

abbrev stale : Entry
stale = record { accessed = 2; size = 30; path = "a" }

abbrev removes_all : String → Bool
removes_all path = true

abbrev pruning : Pruning
pruning = record {
  stats = record { bytes_before = 70; bytes_after = 40; entries_removed = 1 };
  gone = stale ∷ [];
  left = recent ∷ [];
}

pruned : prune removes_all 50 (recent ∷ stale ∷ []) ≡ ok pruning
unfolding prune evict by_age insert_entry
pruned = refl

prune-Pruned_example : Pruned 50 (recent ∷ stale ∷ []) pruning
prune-Pruned_example = prune-Pruned removes_all 50 (recent ∷ stale ∷ []) pruning pruned
