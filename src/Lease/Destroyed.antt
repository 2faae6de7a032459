-- ===== src/Lease/Destroyed.antt =====
-- crates/runner/src/resource_lease.rs: what tear-down asks of the helper, and what provisioning
-- promises.
use phpunit_rust.Prelude.{
  ◌≡◌, refl, sym, ap, ◌∙◌, inl, inr, List, [], ◌∷◌, ◌++◌, map, length, nat_eq, arith, subst,
  Bool-cases, append_assoc, append-nil,
}
use phpunit_rust.ForkPool.Bind.{ok_injective, >>=-eq-ok}
use phpunit_rust.ForkPool.{ok}
use phpunit_rust.Lease.{
  Text, drop, provision, ProvisionResult, Helper, ok_or, ProvisionRun, provision_run, ResourceLease,
  new_lease, register, Teardown, destroy, destroy_all, into_guard, drop_guard,
}

abbrev pub register_all : List Text → ResourceLease → ResourceLease
register_all [] l = l
register_all (n ∷ ns) l = register_all ns (register n l)

requests-destroy :
    (run : Helper) (base : Text) (ns : List Text) (t : Teardown)
    → (destroy run base ns t).requests ≡ t.requests ++ map (drop base) ns
unfolding destroy
requests-destroy run base [] t = sym (append-nil t.requests)
requests-destroy run base (n ∷ ns) t =
    requests-destroy run base ns _ ∙ append_assoc t.requests (drop base n ∷ []) (map (drop base) ns)

register_all-names :
    (ns : List Text) (l : ResourceLease) → (register_all ns l).names ≡ l.names ++ ns
unfolding register
register_all-names [] l = sym (append-nil l.names)
register_all-names (n ∷ ns) l =
    register_all-names ns (register n l) ∙ append_assoc l.names (n ∷ []) ns

register_all-base : (ns : List Text) (l : ResourceLease) → (register_all ns l).base ≡ l.base
unfolding register
register_all-base [] l = refl
register_all-base (n ∷ ns) l = register_all-base ns (register n l)

-- Every name that was registered is dropped when the guard goes, in order and once, whatever the
-- helper answers; the guard is then empty, so that dropping it again asks for nothing.
pub drop_guard-register_all :
    (run : Helper) (base : Text) (ns : List Text) (t : Teardown)
    → let (g, u) = drop_guard run (into_guard (register_all ns (new_lease base))) t in
      (u.requests ≡ t.requests ++ map (drop base) ns) × ((drop_guard run g u).1 ≡ u)
unfolding drop_guard into_guard destroy_all new_lease
drop_guard-register_all run base ns t =
    let l = register_all ns (new_lease base) in
    (
      requests-destroy run l.base l.names t
          ∙ ap (λ b. t.requests ++ map (drop b) l.names) (register_all-base ns (new_lease base))
          ∙ ap (λ ms. t.requests ++ map (drop base) ms) (register_all-names ns (new_lease base)),
      refl,
    )

-- A provisioning that succeeds has one connection string for each name that was asked for, and
-- they are the helper's.
provision_run-length :
    (run : Helper) (base : Text) (ns : List Text) (p : ProvisionRun)
    → provision_run run base ns ≡ ok p
    → (length p.dsns ≡ length ns)
      × ((res : ProvisionResult) × (run (provision base ns) ≡ ok res) × (p.dsns ≡ res.dsns))
unfolding provision_run
provision_run-length run base ns p h =
    let (res, asked, h1) = >>=-eq-ok (run (provision base ns)) _ h in
    elim (Bool-cases (nat_eq (length res.dsns) (length ns))) [
      | inl same ↦
          let (template, _, h2) = >>=-eq-ok (ok_or res.template) _ (rw same at h1) in
          let e : res.dsns ≡ p.dsns = ap ProvisionRun.dsns (ok_injective h2) in
          (subst (λ ds. length ds ≡ length ns) e (ground arith), (res, asked, sym e))
      | inr other ↦ let shown = rw other at h1 in cc
    ]
