-- ===== src/Vault/Leases.antt =====
-- src/vault.rs: the operations on leases.
use zerolease.Prelude.{
  ℕ, suc, ◌+◌, Bool, not, ◌&&◌, none, some, [], ◌∷◌, Text, leb, ◌==◌, nat_eq, text_eq,
  if◌then◌else◌,
}
use zerolease.Types.Identity.{AgentId, SecretName, DomainScope, LeaseId}
use zerolease.Types.Secrets.{LeaseGrant, RevocationReason, admin_revoked, LeaseTerms}
use zerolease.Types.Time.{num_seconds}
use zerolease.Error.{
  Error, lease_not_found, invalid_config, agent_lease_cap, Result, ok, err, ◌>>=◌,
}
use zerolease.Env.{Env}
use zerolease.Map.{Map, get, set, insert, count}
use zerolease.Policy.{evaluate}
use zerolease.Lease.{Lease, LeaseGuard, validate, record_use, grant_of}
use zerolease.Lease
use zerolease.Audit
use zerolease.Audit.{AuditEvent, AuditOutcome, success, denied, of_error, entry_new}
use zerolease.Vault.State.{Vault, Backends, ◌>>>◌, trace_and_record, decrypt}

-- `leases.values().filter(|l| &l.agent == agent && !l.revoked)`
abbrev pub is_active_of : AgentId → Lease → Bool
is_active_of agent l = l.agent == agent && not l.revoked

unfoldable pub active_count : AgentId → Map LeaseId Lease → ℕ
active_count agent leases = count (is_active_of agent) leases

-- Step 1 of `access_secret`, under the write lock: the use is recorded in the stored lease.
unfoldable pub use_lease :
    {KS SS AS : Type 0} → Env → Vault KS SS AS → LeaseId → Text → Result Lease × Vault KS SS AS
use_lease env v lease_id target_domain = elim (get v.leases lease_id) [
  | none ↦ (err (lease_not_found lease_id), v)
  | some lease ↦ elim (validate lease (env.now 0) target_domain) [
    | err e ↦ (err e, v)
    | ok _ ↦ elim (record_use lease) [
      | err e ↦ (err e, v)
      | ok used ↦ (ok used, record v { leases = set v.leases lease_id used })
    ]
  ]
]

module _ {KS SS AS : Type 0} (b : Backends KS SS AS) where
  -- The denial of the policy is audited before it is returned.
  unfoldable pub deny_lease :
      Env
      → Vault KS SS AS
      → AgentId
      → SecretName
      → DomainScope
      → Text
      → Error
      → Result LeaseTerms × Vault KS SS AS
  deny_lease env v agent secret_name domain peer e =
      trace_and_record b env 0 v (Audit.access_denied secret_name domain (of_error e)) agent peer
        (denied (of_error e))
      >>> λ _ w. (err e, w)

  -- Steps 1 and 2 of `request_lease`, the policy and the cap, up to where the lock on the leases is
  -- given back.
  unfoldable pub check_request :
      Env
      → Vault KS SS AS
      → AgentId
      → SecretName
      → DomainScope
      → Text
      → Result LeaseTerms × Vault KS SS AS
  unfolding active_count
  check_request env v agent secret_name domain peer =
      elim (evaluate v.policy agent secret_name domain) [
        | err e ↦ deny_lease env v agent secret_name domain peer e
        | ok terms ↦
            if leb v.max_leases_per_agent (active_count agent v.leases)
            then (err (invalid_config (agent_lease_cap agent v.max_leases_per_agent)), v)
            else (ok terms, v)
      ]

  -- Steps 3 to 5 of `request_lease`: the lease is stored once the audit log has taken the entry.
  unfoldable pub issue_lease :
      Env
      → Vault KS SS AS
      → AgentId
      → SecretName
      → DomainScope
      → Text
      → LeaseTerms
      → Result LeaseGrant × Vault KS SS AS
  issue_lease env v agent secret_name domain peer terms =
      let lease = Lease.new (env.now 0) (env.uuid 0) agent secret_name (domain ∷ []) terms in
      trace_and_record b env 1 v
        (Audit.lease_granted lease.id secret_name (domain ∷ []) (num_seconds terms.ttl)) agent peer
        success
      >>> λ _ w. (ok (grant_of lease), record w { leases = insert w.leases lease.id lease })

  -- The rest of `request_lease`, from the lookup of the secret on. It does not look at the
  -- cap again.
  unfoldable pub finish_request :
      Env
      → Vault KS SS AS
      → AgentId
      → SecretName
      → DomainScope
      → Text
      → LeaseTerms
      → Result LeaseGrant × Vault KS SS AS
  finish_request env v agent secret_name domain peer terms =
      elim (b.secrets.get v.store secret_name) [
        | err e ↦ (err e, v)
        | ok _ ↦ issue_lease env v agent secret_name domain peer terms
      ]

  -- A request with nothing else between its two parts.
  unfoldable pub request_lease :
      Env
      → Vault KS SS AS
      → AgentId
      → SecretName
      → DomainScope
      → Text
      → Result LeaseGrant × Vault KS SS AS
  unfolding check_request finish_request
  request_lease env v agent secret_name domain peer =
      check_request env v agent secret_name domain peer >>> λ terms w.
      finish_request env w agent secret_name domain peer terms

  -- Step 2: the secret is read and decrypted.
  abbrev pub read_secret : Vault KS SS AS → SecretName → Result Text
  read_secret v secret_name = b.secrets.get v.store secret_name >>= λ stored. decrypt b v (record {
    ciphertext = stored.ciphertext;
    nonce = stored.nonce;
    algorithm = stored.algorithm;
  })

  unfoldable pub access_secret :
      Env → Vault KS SS AS → LeaseId → Text → Text → Result LeaseGuard × Vault KS SS AS
  unfolding use_lease
  access_secret env v lease_id target_domain peer =
      use_lease env v lease_id target_domain >>> λ lease w.
      (read_secret w lease.secret_name, w) >>> λ plaintext w.
      trace_and_record b env 1 w (Audit.secret_accessed lease_id lease.secret_name target_domain)
        lease.agent peer success
      >>> λ _ w. (ok (record { lease_id = lease_id; value = plaintext }), w)

  unfoldable pub revoke_lease :
      Env → Vault KS SS AS → LeaseId → RevocationReason → Text → Result (Unit {0}) × Vault KS SS AS
  revoke_lease env v lease_id reason peer = elim (get v.leases lease_id) [
    | none ↦ (err (lease_not_found lease_id), v)
    | some lease ↦
        trace_and_record b env 0 (record v { leases = set v.leases lease_id (Lease.revoke lease) })
          (Audit.lease_revoked lease_id reason) lease.agent peer success
  ]

  -- The loops over `values_mut` in `revoke_all_for_agent`, `delete_secret` and `revoke_session`:
  -- each selected lease that is not revoked is revoked and counted, and audited as best it can be:
  -- a failure of the log is dropped. `i` numbers the draws.
  unfoldable pub revoke_matching :
      (Lease → Bool)
      → (Lease → AgentId)
      → RevocationReason
      → Text
      → Env
      → ℕ
      → Map LeaseId Lease
      → AS
      → Map LeaseId Lease × ℕ × AS
  revoke_matching sel who reason peer env i [] log = ([], 0, log)
  revoke_matching sel who reason peer env i ((j, l) ∷ m) log =
      let hit = sel l && not l.revoked in
      let entry =
        entry_new (env.now i) (env.uuid i) (Audit.lease_revoked l.id reason) (who l) peer success in
      let (rest, n, log') =
        revoke_matching sel who reason peer env (if hit then i + 1 else i) m
          (if hit then (b.log.record_entry log entry).1 else log) in
      ((j, if hit then Lease.revoke l else l) ∷ rest, if hit then suc n else n, log')

  unfoldable pub revoke_all_for_agent :
      Env → Vault KS SS AS → AgentId → Text → Result ℕ × Vault KS SS AS
  revoke_all_for_agent env v agent peer =
      let (leases, n, log) =
        revoke_matching (λ l. l.agent == agent) (λ _. agent) admin_revoked peer env 0 v.leases
          v.audit in
      (ok n, record v { leases = leases; audit = log })
