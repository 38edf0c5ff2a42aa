-- ===== src/Vault/Renewals.antt =====
-- src/vault.rs: what a renewal grants.
use zerolease.Prelude.{
  ℕ, ◌≤◌, ◌<◌, ◌≡◌, refl, inl, inr, true, false, some, Text, arith, ℤ, pos, negsuc, ◌+ℤ◌,
  Option-cases, nat_eq,
}
use zerolease.Types.Identity.{LeaseId, SessionId}
use zerolease.Types.Secrets.{LeaseGrant}
use zerolease.Types.Time.{later_than, seconds}
use zerolease.Error.{ok}
use zerolease.Env.{Env}
use zerolease.Map.{get, set}
use zerolease.Lease.{Lease, grant_of, inc_u32}
use zerolease.Lease
use zerolease.Session.{Session}
use zerolease.Vault.State.{Vault, Backends, trace_and_record}
use zerolease.Vault.Renewal.{
  max_extension_secs, out_of_range, session_by_id, check_renewals, renewed, renew_lease,
}

in_range :
    (secs : ℤ)
    → out_of_range secs ≡ false
    → (n : ℕ) × (secs ≡ pos n) × (0 < n) × (n ≤ max_extension_secs)
in_range (pos n) h = (n, refl, ground arith, ground arith)
in_range (negsuc n) h = absurd (ground arith)

module _ {KS SS AS : Type 0} (b : Backends KS SS AS) (env : Env) (v : Vault KS SS AS) (id : LeaseId)
    (secs : ℤ) (peer : Text) where
  below_cap :
      (l : Lease) (session : SessionId) (s : Session)
      → check_renewals v.sessions l ≡ ok tt
      → l.session_id ≡ some session
      → session_by_id v.sessions session ≡ some s
      → l.renewal_count < s.policy.max_renewals_per_lease
  unfolding check_renewals
  below_cap l session s h tied found = ground arith

  -- A renewal succeeds only for a lease of the vault that is not revoked, renewable and not past
  -- its expiry, for an extension from one second to a day, and, while the session of the lease is
  -- in memory, below the cap of that session. The lease then expires that long after the time of
  -- the renewal, its renewals are counted, and nothing else of it or of the other leases changes.
  pub renew_lease-ok :
      {g : LeaseGrant}
      → (renew_lease b env v id secs peer).0 ≡ ok g
      → (l : Lease) × (n : ℕ) × (get v.leases id ≡ some l)
        × (secs ≡ pos n)
        × (0 < n)
        × (n ≤ max_extension_secs)
        × (l.revoked ≡ false)
        × (l.renewable ≡ true)
        × (later_than (env.now 0) l.expires_at ≡ false)
        × ((session : SessionId) (s : Session)
            → l.session_id ≡ some session
            → session_by_id v.sessions session ≡ some s
            → l.renewal_count < s.policy.max_renewals_per_lease)
        × ((renew_lease b env v id secs peer).1.leases
            ≡ set v.leases id (record l {
              expires_at = env.now 1 +ℤ seconds secs;
              renewal_count = inc_u32 l.renewal_count;
            }))
  unfolding renew_lease renewed trace_and_record Lease.renew
  renew_lease-ok h = elim (Option-cases (get v.leases id)) [
    | inl missing ↦ absurd (ground arith)
    | inr (l, found) ↦
        let (n, e, low, high) = in_range secs (ground arith) in
        (
          l,
          n,
          found,
          e,
          low,
          high,
          ground arith,
          ground arith,
          ground arith,
          (λ session s tied known. below_cap l session s (ground arith) tied known),
          ground arith,
        )
  ]
