-- ===== src/Vault/Access.antt =====
-- src/vault.rs: when `access_secret` reveals a secret, and what each refusal leaves behind.
use zerolease.Prelude.{◌≡◌, inl, inr, some, Text, arith, Option-cases, nat_eq}
use zerolease.Types.Identity.{LeaseId}
use zerolease.Error.{Error, ok, err, Result-cases}
use zerolease.Env.{Env}
use zerolease.Map.{get, set}
use zerolease.Lease.{Lease, LeaseGuard, validate, record_use, inc_u32}
use zerolease.Lease.Lifecycle.{Usable, validate_iff}
use zerolease.Vault.State.{Vault, Backends, trace_and_record, decrypt}
use zerolease.Vault.Leases.{access_secret, read_secret}

module _ {KS SS AS : Type 0} (b : Backends KS SS AS) (env : Env) (v : Vault KS SS AS) (id : LeaseId)
    (host peer : Text) where
  -- A secret is revealed only through a lease of the vault that is usable for the host at that
  -- time. What is revealed is the decryption, under the current key, of the secret that the lease
  -- names; and the use has been counted in the lease, with no other change to the table.
  pub access_secret-ok :
      {guard : LeaseGuard}
      → (access_secret b env v id host peer).0 ≡ ok guard
      → (l : Lease) × (get v.leases id ≡ some l)
        × Usable l (env.now 0) host
        × (guard.lease_id ≡ id)
        × (read_secret b v l.secret_name ≡ ok guard.value)
        × ((access_secret b env v id host peer).1.leases
            ≡ set v.leases id (record l { use_count = inc_u32 l.use_count }))
  unfolding access_secret trace_and_record record_use decrypt
  access_secret-ok h = elim (Option-cases (get v.leases id)) [
    | inl missing ↦ absurd (ground arith)
    | inr (l, found) ↦ elim (Result-cases (validate l (env.now 0) host)) [
      | inr (e, refused) ↦ absurd (ground arith)
      | inl (tt', valid) ↦ (
        l,
        found,
        (validate_iff l (env.now 0) host).0 (ground arith),
        ground arith,
        ground arith,
        ground arith,
      )
    ]
  ]

  -- A lease that is usable is spent by the access even when the secret then cannot be read, because
  -- the store or the decryption fails: the error is returned, the use stays counted, no entry is
  -- audited, and nothing else of the vault changes.
  pub access_secret-spends :
      (l : Lease) (e : Error)
      → get v.leases id ≡ some l
      → Usable l (env.now 0) host
      → read_secret b v l.secret_name ≡ err e
      → access_secret b env v id host peer ≡ (
        err e,
        record v { leases = set v.leases id (record l { use_count = inc_u32 l.use_count }) },
      )
  unfolding access_secret record_use decrypt
  access_secret-spends l e found usable failed =
      let valid = (validate_iff l (env.now 0) host).1 usable in ground (arith, valid)
