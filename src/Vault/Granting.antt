-- ===== src/Vault/Granting.antt =====
-- src/vault.rs: when `request_lease` grants a lease, and what a refusal leaves.
use zerolease.Prelude.{nat_eq, ◌<◌, ◌≡◌, inl, inr, [], ◌∷◌, Text, arith}
use zerolease.Types.Identity.{AgentId, SecretName, DomainScope}
use zerolease.Types.Secrets.{LeaseGrant, LeaseTerms}
use zerolease.Error.{Error, ok, err, Result-cases}
use zerolease.Env.{Env}
use zerolease.Map.{insert}
use zerolease.Policy.{evaluate}
use zerolease.Lease.{Lease, grant_of}
use zerolease.Lease
use zerolease.Store.{StoredSecret}
use zerolease.Vault.State.{Vault, Backends, trace_and_record}
use zerolease.Vault.Leases.{
  check_request, finish_request, request_lease, deny_lease, issue_lease, active_count,
}

module _ {KS SS AS : Type 0} (b : Backends KS SS AS) (env : Env) (v : Vault KS SS AS)
    (agent : AgentId) (secret : SecretName) (domain : DomainScope) (peer : Text) where
  -- The lease that a request issues on those terms.
  abbrev pub issued : LeaseTerms → Lease
  issued terms = Lease.new (env.now 0) (env.uuid 0) agent secret (domain ∷ []) terms

  -- A request is granted only when the policy allows it, the agent is below the cap and the
  -- secret exists. The grant describes the lease that was stored, on the terms that the
  -- policy gave, for the one domain that was asked for.
  pub request_lease-ok :
      {g : LeaseGrant}
      → (request_lease b env v agent secret domain peer).0 ≡ ok g
      → (terms : LeaseTerms) × (stored : StoredSecret) × (evaluate v.policy agent secret domain
          ≡ ok terms)
        × (active_count agent v.leases < v.max_leases_per_agent)
        × (b.secrets.get v.store secret ≡ ok stored)
        × (g ≡ grant_of (issued terms))
        × ((request_lease b env v agent secret domain peer).1.leases
            ≡ insert v.leases (env.uuid 0) (issued terms))
  unfolding request_lease check_request finish_request deny_lease issue_lease trace_and_record
      Lease.new
  request_lease-ok h = elim (Result-cases (evaluate v.policy agent secret domain)) [
    | inr (e, denied) ↦ absurd (ground arith)
    | inl (terms, granted) ↦ elim (Result-cases (b.secrets.get v.store secret)) [
      | inr (e, missing) ↦ absurd (ground arith)
      | inl (stored, found) ↦
          (terms, stored, granted, ground arith, found, ground arith, ground arith)
    ]
  ]

  -- A request that fails, for whatever reason, the failure of the audit log included, leaves no
  -- lease behind and touches neither the store nor the sessions.
  pub request_lease-err :
      (e : Error)
      → (request_lease b env v agent secret domain peer).0 ≡ err e
      → let w = (request_lease b env v agent secret domain peer).1 in
        (w.leases ≡ v.leases) × (w.store ≡ v.store) × (w.sessions ≡ v.sessions)
  unfolding request_lease check_request finish_request deny_lease issue_lease trace_and_record
  request_lease-err e h = (ground arith, ground arith, ground arith)
