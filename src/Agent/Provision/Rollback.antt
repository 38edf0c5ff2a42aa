-- ===== src/Agent/Provision/Rollback.antt =====
-- crates/zerolease-agent/src/provision.rs with src/vault.rs: what a run that fails leaves behind in
-- the vault. The calls are those of the vault itself: what a client adds on the way is in
-- Client/Calls.
use zerolease.Prelude.{
  ℕ, ◌≡◌, ◌≢◌, refl, sym, ◌∙◌, inl, inr, true, none, some, List, [], ◌∷◌, Text, arith, nat_eq, ◌==◌,
  Member, here, there, Bool-cases, Option-cases,
}
use zerolease.Types.Identity.{Uuid, LeaseId}
use zerolease.Types.Secrets.{RevocationReason, admin_revoked}
use zerolease.Env.{Env}
use zerolease.Map.{Map, get, set, get-set_self, get-set_ne}
use zerolease.Lease.{Lease}
use zerolease.Lease
use zerolease.Vault.State.{Vault, Backends, trace_and_record}
use zerolease.Vault.Leases.{revoke_lease}
use zerolease.Agent.Provision.Known.{Server, vault_calls}
use zerolease.Agent.Provision.{rollback}

module _ {KS SS AS : Type 0} (b : Backends KS SS AS) (envs : ℕ → Env) (peer : Text) where
  -- The lease is not there, or revoked.
  abbrev pub IsGone : Map LeaseId Lease → LeaseId → Type 0
  IsGone leases id = (l : Lease) → get leases id ≡ some l → l.revoked ≡ true

  revoke_lease-leases :
      (env : Env) (v : Vault KS SS AS) (id : LeaseId) (reason : RevocationReason)
      → (revoke_lease b env v id reason peer).1.leases
        ≡ elim (get v.leases id) [ none ↦ v.leases | some l ↦ set v.leases id (Lease.revoke l) ]
  unfolding revoke_lease trace_and_record
  revoke_lease-leases env v id reason = ground arith

  revoke-IsGone :
      (m : Map LeaseId Lease) (id : LeaseId) (l : Lease)
      → get m id ≡ some l
      → IsGone (set m id (Lease.revoke l)) id
  unfolding Lease.revoke
  revoke-IsGone m id l found k e =
      let p = get-set_self m id (Lease.revoke l) l found in ground arith

  revoke_lease-IsGone :
      (env : Env) (v : Vault KS SS AS) (id : LeaseId) (reason : RevocationReason)
      → IsGone (revoke_lease b env v id reason peer).1.leases id
  revoke_lease-IsGone env v id reason = elim (Option-cases (get v.leases id)) [
    | inl missing ↦
        let same : (revoke_lease b env v id reason peer).1.leases ≡ v.leases =
          revoke_lease-leases env v id reason ∙ (rw missing refl) in
        rw same (λ l e. absurd (ground arith))
    | inr (l, found) ↦
        let same : (revoke_lease b env v id reason peer).1.leases
            ≡ set v.leases id (Lease.revoke l) =
          revoke_lease-leases env v id reason ∙ (rw found refl) in
        rw same (revoke-IsGone v.leases id l found)
  ]

  set-IsGone :
      (m : Map LeaseId Lease) (id j : LeaseId) (l : Lease)
      → id ≢ j
      → IsGone m j
      → IsGone (set m id l) j
  set-IsGone m id j l ne gone k e = gone k (sym (get-set_ne m id l j ne) ∙ e)

  revoke_lease-stays :
      (env : Env) (v : Vault KS SS AS) (id j : LeaseId) (reason : RevocationReason)
      → IsGone v.leases j
      → IsGone (revoke_lease b env v id reason peer).1.leases j
  revoke_lease-stays env v id j reason gone = elim (Option-cases (get v.leases id)) [
    | inl missing ↦
        let same : (revoke_lease b env v id reason peer).1.leases ≡ v.leases =
          revoke_lease-leases env v id reason ∙ (rw missing refl) in
        rw same gone
    | inr (l, found) ↦ elim (Bool-cases (id == j)) [
      | inl equal ↦ let e : id ≡ j = ground arith in rw (← e) (revoke_lease-IsGone env v id reason)
      | inr other ↦
          let ne : id ≢ j = λ e. absurd (ground arith) in
          let same : (revoke_lease b env v id reason peer).1.leases
              ≡ set v.leases id (Lease.revoke l) =
            revoke_lease-leases env v id reason ∙ (rw found refl) in
          rw same (set-IsGone v.leases id j (Lease.revoke l) ne gone)
    ]
  ]

  rollback-stays :
      (ids : List Uuid) (s : Server KS SS AS) (j : LeaseId)
      → IsGone s.vault.leases j
      → IsGone (rollback (vault_calls b envs peer) ids s).vault.leases j
  unfolding rollback
  rollback-stays [] s j gone = gone
  rollback-stays (id ∷ ids) s j gone =
      rollback-stays ids ((vault_calls b envs peer).revoke_lease s id admin_revoked).1 j
        (revoke_lease-stays (envs s.next) s.vault id j admin_revoked gone)

  pub rollback-IsGone :
      (j : LeaseId) (ids : List Uuid) (s : Server KS SS AS)
      → Member j ids
      → IsGone (rollback (vault_calls b envs peer) ids s).vault.leases j
  unfolding rollback
  rollback-IsGone j _ s (here ids) =
      rollback-stays ids ((vault_calls b envs peer).revoke_lease s j admin_revoked).1 j
        (revoke_lease-IsGone (envs s.next) s.vault j admin_revoked)
  rollback-IsGone j _ s (there id ids m) =
      rollback-IsGone j ids ((vault_calls b envs peer).revoke_lease s id admin_revoked).1 m
