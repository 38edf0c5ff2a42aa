-- ===== src/Vault/Renewal.antt =====
-- src/vault.rs: `renew_lease`, and the collection of dead leases.
use zerolease.Prelude.{
  ℕ, ◌+◌, ◌-◌, Bool, not, ◌&&◌, ◌||◌, Option, none, some, [], ◌∷◌, Text, leb, ℤ, pos, leb_ℤ, ltb_ℤ,
  ◌==◌, nat_eq, if◌then◌else◌, length, find,
}
use zerolease.Types.Identity.{LeaseId, SessionToken, SessionId}
use zerolease.Types.Secrets.{LeaseGrant}
use zerolease.Types.Time.{later_than, seconds, num_seconds}
use zerolease.Error.{
  lease_not_found, lease_expired, invalid_config, extension_out_of_range, renewal_limit_reached,
  Result, ok, err, ◌>>◌,
}
use zerolease.Env.{Env}
use zerolease.Map.{Map, get, set, values}
use zerolease.Lease.{Lease, grant_of}
use zerolease.Lease
use zerolease.Session.{Session}
use zerolease.Audit
use zerolease.Audit.{success}
use zerolease.Vault.State.{Vault, Backends, ◌>>>◌, trace_and_record}

abbrev pub max_extension_secs : ℕ
max_extension_secs = 86400

-- `extension_secs <= 0 || extension_secs > MAX_EXTENSION_SECS`
abbrev pub out_of_range : ℤ → Bool
out_of_range extension_secs =
    leb_ℤ extension_secs (pos 0) || ltb_ℤ (pos max_extension_secs) extension_secs

-- `sessions.values().find(|s| s.id == session_id)`
unfoldable pub session_by_id : Map SessionToken Session → SessionId → Option Session
session_by_id sessions id = find (λ s. s.id == id) (values sessions)

-- The cap of the parent session, if the lease has one that is still in memory.
unfoldable pub check_renewals : Map SessionToken Session → Lease → Result (Unit {0})
unfolding session_by_id
check_renewals sessions lease = elim lease.session_id [
  | none ↦ ok tt
  | some id ↦ elim (session_by_id sessions id) [
    | none ↦ ok tt
    | some session ↦
        if leb session.policy.max_renewals_per_lease lease.renewal_count
        then err (renewal_limit_reached lease.id session.policy.max_renewals_per_lease)
        else ok tt
  ]
]

-- The checks of `renew_lease` in order, then `Lease::renew` at a second reading of the clock.
unfoldable pub renewed : Env → Map SessionToken Session → Lease → ℤ → Result Lease
unfolding check_renewals
renewed env sessions lease extension_secs =
    if later_than (env.now 0) lease.expires_at
    then err (lease_expired lease.id)
    else if out_of_range extension_secs
    then err (invalid_config (extension_out_of_range extension_secs))
    else (check_renewals sessions lease >> Lease.renew lease (env.now 1) (seconds extension_secs))

-- `!lease.revoked && lease.time_remaining().num_seconds() > 0`
abbrev pub is_alive : Env → ℕ → Lease → Bool
is_alive env i l = not l.revoked && ltb_ℤ (pos 0) (num_seconds (Lease.time_remaining l (env.now i)))

-- `retain`: the clock is read for each lease that is not revoked.
unfoldable pub retain_alive : Env → ℕ → Map LeaseId Lease → Map LeaseId Lease
retain_alive env i [] = []
retain_alive env i ((j, l) ∷ m) =
    let rest = retain_alive env (if l.revoked then i else i + 1) m in
    if is_alive env i l then (j, l) ∷ rest else rest

module _ {KS SS AS : Type 0} where
  unfoldable pub renew_lease :
      Backends KS SS AS
      → Env
      → Vault KS SS AS
      → LeaseId
      → ℤ
      → Text
      → Result LeaseGrant × Vault KS SS AS
  unfolding renewed
  renew_lease b env v lease_id extension_secs peer = elim (get v.leases lease_id) [
    | none ↦ (err (lease_not_found lease_id), v)
    | some lease ↦ elim (renewed env v.sessions lease extension_secs) [
      | err e ↦ (err e, v)
      | ok l ↦
          trace_and_record b env 2 (record v { leases = set v.leases lease_id l })
            (Audit.lease_renewed lease_id extension_secs) l.agent peer success
          >>> λ _ w. (ok (grant_of l), w)
    ]
  ]

  -- The number of leases removed, and the vault without them.
  unfoldable pub gc_leases : Env → Vault KS SS AS → ℕ × Vault KS SS AS
  unfolding retain_alive
  gc_leases env v =
      let kept = retain_alive env 0 v.leases in
      (length v.leases - length kept, record v { leases = kept })
