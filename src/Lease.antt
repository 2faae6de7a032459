-- ===== src/Lease.antt =====
-- crates/runner/src/resource_lease.rs: the clones of the database that the worker slots run on. A
-- text is the list of its characters' codes. The PHP helper that `run_helper` starts, and the hash
-- of a name, are parameters.
pub mod Names
pub mod Destroyed
use phpunit_rust.Prelude.{
  ℕ, zero, suc, ◌+◌, ◌-◌, ◌*◌, ◌/◌, ◌%◌, ◌<◌, Bool, true, false, ◌||◌, ◌&&◌, Option, none, some,
  List, [], ◌∷◌, ◌++◌, map, if◌then◌else◌, length, leb, ltb, nat_eq,
}
use phpunit_rust.Digits.{digits}
use phpunit_rust.ForkPool.{Result, ok, err, ◌>>=◌}

abbrev pub Text : Type 0
Text = List ℕ

abbrev pub pg_max_ident : ℕ
pg_max_ident = 63

-- `is_ascii_alphanumeric() || '_'`
abbrev pub is_ident : ℕ → Bool
is_ident c =
    (leb 48 c && leb c 57) || (leb 65 c && leb c 90) || (leb 97 c && leb c 122) || nat_eq c 95

unfoldable pub sanitize_ident : Text → Text
sanitize_ident [] = []
sanitize_ident (c ∷ cs) = (if is_ident c then c else 95) ∷ sanitize_ident cs

-- What follows the last separator, `rsplit(sep).next()`.
unfoldable pub after_last : ℕ → Text → Text → Text
after_last sep [] acc = acc
after_last sep (c ∷ cs) acc = after_last sep cs (if nat_eq c sep then [] else acc ++ c ∷ [])

abbrev pub take {ℓ} : {A : Type ℓ} → ℕ → List A → List A
take zero xs = []
take (suc n) [] = []
take (suc n) (x ∷ xs) = x ∷ take n xs

-- `_w{slot}`
abbrev pub suffix_of : ℕ → Text
suffix_of slot = 95 ∷ 119 ∷ digits slot

-- `hash` is the hexadecimal BLAKE3 digest.
unfoldable pub clone_name : (Text → Text) → Text → Text → ℕ → Text
clone_name hash base run_uuid slot =
    let raw_db = after_last 47 base [] in
    let db = sanitize_ident raw_db in
    let natural = db ++ 95 ∷ sanitize_ident run_uuid ++ suffix_of slot in
    let hash8 = take 8 (hash (raw_db ++ 47 ∷ run_uuid ++ 47 ∷ digits slot)) in
    let tail = 95 ∷ hash8 ++ suffix_of slot in
    if leb (length natural) pg_max_ident
    then natural
    else take (pg_max_ident - length tail) db ++ tail

-- The request on the helper's standard input.
pub data Request : Type 0 where
  build : Text → Request
  clone : Text → Text → Text → Request
  drop : Text → Text → Request
  gc : Text → Request
  provision : Text → List Text → Request

pub record ProvisionResult : Type 0 where
  pub dsn : Option Text
  pub dropped : List Text
  pub dsns : List Text
  pub template : Option Text

abbrev pub Helper : Type 0
Helper = Request → Result ProvisionResult

abbrev pub ok_or {ℓ} : {A : Type ℓ} → Option A → Result A
ok_or none = err "provision_db.php returned nothing"
ok_or (some a) = ok a

unfoldable pub build_template : Helper → Text → Result Text
build_template run base = run (build base) >>= λ res. ok_or res.dsn

unfoldable pub clone_for_slot : Helper → (Text → Text) → ℕ → Text → Text → Text → Result Text
clone_for_slot run hash slot run_uuid template base =
    run (clone base template (clone_name hash base run_uuid slot)) >>= λ res. ok_or res.dsn

unfoldable pub gc_stale_clones : Helper → Text → Result ℕ
gc_stale_clones run base = run (gc base) >>= λ res. ok (length res.dropped)

pub record ProvisionRun : Type 0 where
  pub dsns : List Text
  pub template : Text
  pub gc_dropped : ℕ

unfoldable pub provision_run : Helper → Text → List Text → Result ProvisionRun
provision_run run base clone_names = run (provision base clone_names) >>= λ res.
    if nat_eq (length res.dsns) (length clone_names)
    then (ok_or res.template >>= λ template.
        ok (record { dsns = res.dsns; template = template; gc_dropped = length res.dropped }))
    else err "provision_run returned another number of DSNs"

-- The paths that the helper is started with are left out.
pub record ResourceLease : Type 0 where
  pub base : Text
  pub names : List Text

unfoldable pub new_lease : Text → ResourceLease
new_lease base = record { base = base; names = [] }

unfoldable pub register : Text → ResourceLease → ResourceLease
register name l = record l { names = l.names ++ name ∷ [] }

-- What was asked of the helper, and for which names a warning was printed.
pub record Teardown : Type 0 where
  pub requests : List Request
  pub warnings : List Text

abbrev pub warn_on : Text → Result ProvisionResult → List Text → List Text
warn_on name (ok r) ws = ws
warn_on name (err e) ws = ws ++ name ∷ []

unfoldable pub destroy : Helper → Text → List Text → Teardown → Teardown
destroy run base [] t = t
destroy run base (n ∷ ns) t =
    let req = drop base n in
    destroy run base ns
      (record { requests = t.requests ++ req ∷ []; warnings = warn_on n (run req) t.warnings })

unfoldable pub destroy_all : Helper → ResourceLease → Teardown → Teardown
destroy_all run l t = destroy run l.base l.names t

pub record LeaseGuard : Type 0 where
  pub lease : Option ResourceLease

unfoldable pub into_guard : ResourceLease → LeaseGuard
into_guard l = record { lease = some l }

-- `Drop::drop`: the lease is taken out of the guard.
unfoldable pub drop_guard : Helper → LeaseGuard → Teardown → LeaseGuard × Teardown
drop_guard run g t = elim g.lease [
  | none ↦ (record { lease = none }, t)
  | some l ↦ (record { lease = none }, destroy_all run l t)
]
