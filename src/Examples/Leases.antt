-- ===== src/Examples/Leases.antt =====
-- The lease of two clones, and two classes dealt out to two slots.
use phpunit_rust.Prelude.{false, ◌≡◌, ◌≢◌, refl, none, some, List, [], ◌∷◌, ◌++◌, map, arith}
use phpunit_rust.Discovery.{TestCase}
use phpunit_rust.ForkPool.{ok}
use phpunit_rust.Runner.Chunks.{chunk_by_class, cases_by_class, push_case, deal}
use phpunit_rust.Runner.Chunks.Dealt.{has_at, chunk_by_class_one_slot}
use phpunit_rust.Lease.{
  Text, clone_name, Helper, ProvisionRun, provision_run, drop, Teardown, drop_guard, into_guard,
  new_lease, ProvisionResult,
}
use phpunit_rust.Lease.Names.{clone_name_distinct}
use phpunit_rust.Lease.Destroyed.{register_all, drop_guard-register_all}
use phpunit_rust.Examples.Inputs.{case_of, cases}

-- `pg/shop`, `r1`, and a digest of zeros.
abbrev base : Text
base = 112 ∷ 103 ∷ 47 ∷ 115 ∷ 104 ∷ 111 ∷ 112 ∷ []

abbrev run_uuid : Text
run_uuid = 114 ∷ 49 ∷ []

abbrev zeros : Text → Text
zeros t = 48 ∷ 48 ∷ 48 ∷ 48 ∷ 48 ∷ 48 ∷ 48 ∷ 48 ∷ 48 ∷ []

clone_name_distinct_example : clone_name zeros base run_uuid 3 ≢ clone_name zeros base run_uuid 4
clone_name_distinct_example =
    clone_name_distinct zeros base run_uuid 3 4 (omega arith) (omega arith) (λ e. omega (arith, e))

abbrev names : List Text
names = clone_name zeros base run_uuid 0 ∷ clone_name zeros base run_uuid 1 ∷ []

-- A helper that answers each request with two connection strings.
abbrev answer : ProvisionResult
answer = record { dsn = none; dropped = []; dsns = base ∷ base ∷ []; template = some base }

abbrev helper : Helper
helper request = ok answer

abbrev provisioned : ProvisionRun
provisioned = record { dsns = base ∷ base ∷ []; template = base; gc_dropped = 0 }

provisioned-ok : provision_run helper base names ≡ ok provisioned
unfolding provision_run
provisioned-ok = refl

abbrev nothing_asked : Teardown
nothing_asked = record { requests = []; warnings = [] }

drop_guard-register_all_example :
    let (g, u) =
      drop_guard helper (into_guard (register_all names (new_lease base))) nothing_asked in
    (u.requests ≡ [] ++ map (drop base) names) × ((drop_guard helper g u).1 ≡ u)
drop_guard-register_all_example = drop_guard-register_all helper base names nothing_asked

abbrev two_classes : List TestCase
two_classes = record (case_of "rates" false) { class = "RateTest" } ∷ cases

chunk_by_class_one_slot_example : has_at "MoneyTest" (chunk_by_class two_classes 2) 0 ≡ false
unfolding chunk_by_class cases_by_class push_case deal
chunk_by_class_one_slot_example =
    chunk_by_class_one_slot "MoneyTest" two_classes 2 1 0 refl (λ e. omega (arith, e))
