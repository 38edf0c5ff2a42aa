-- ===== src/Vault/Settings.antt =====
-- src/vault.rs: what the operations leave alone, the settings and for most the leases too.
use zerolease.Prelude.{◌≡◌, Option, Text, arith, ℤ, nat_eq, text_eq, ◌==◌}
use zerolease.Types.Identity.{AgentId, SecretName, DomainScope, LeaseId}
use zerolease.Types.Secrets.{LeaseTerms, Bytes, SecretKind, RevocationReason, secret_deleted}
use zerolease.Env.{Env}
use zerolease.Session.{Session, SessionPolicy}
use zerolease.Vault.State.{Vault, Backends, initialize, trace_and_record}
use zerolease.Vault.Leases.{
  check_request, finish_request, request_lease, deny_lease, issue_lease, access_secret,
  revoke_lease, revoke_matching,
}
use zerolease.Vault.Renewal.{renew_lease}
use zerolease.Vault.Secrets.{store_secret, delete_secret, rotate_dek, commit_rotation}
use zerolease.Vault.Sessions.{create_session, check_session}

module _ {KS SS AS : Type 0} where
  abbrev pub SameSettings : Vault KS SS AS → Vault KS SS AS → Type 0
  SameSettings v w = (w.policy ≡ v.policy) × (w.max_leases_per_agent ≡ v.max_leases_per_agent)

module _ {KS SS AS : Type 0} (b : Backends KS SS AS) where
  pub initialize-same :
      (v : Vault KS SS AS)
      → SameSettings v (initialize b v).1 × ((initialize b v).1.leases ≡ v.leases)
  unfolding initialize
  initialize-same v = ((ground arith, ground arith), ground arith)

  module _ (env : Env) (v : Vault KS SS AS) where
    pub check_request-SameSettings :
        (agent : AgentId) (secret : SecretName) (domain : DomainScope) (peer : Text)
        → SameSettings v (check_request b env v agent secret domain peer).1
    unfolding check_request deny_lease trace_and_record
    check_request-SameSettings agent secret domain peer = (ground arith, ground arith)

    pub finish_request-SameSettings :
        (agent : AgentId) (secret : SecretName) (domain : DomainScope) (peer : Text)
        (terms : LeaseTerms)
        → SameSettings v (finish_request b env v agent secret domain peer terms).1
    unfolding finish_request issue_lease trace_and_record
    finish_request-SameSettings agent secret domain peer terms = (ground arith, ground arith)

    pub request_lease-SameSettings :
        (agent : AgentId) (secret : SecretName) (domain : DomainScope) (peer : Text)
        → SameSettings v (request_lease b env v agent secret domain peer).1
    unfolding request_lease check_request finish_request deny_lease issue_lease trace_and_record
    request_lease-SameSettings agent secret domain peer = (ground arith, ground arith)

    pub access_secret-SameSettings :
        (id : LeaseId) (host peer : Text) → SameSettings v (access_secret b env v id host peer).1
    unfolding access_secret trace_and_record
    access_secret-SameSettings id host peer = (ground arith, ground arith)

    pub revoke_lease-SameSettings :
        (id : LeaseId) (reason : RevocationReason) (peer : Text)
        → SameSettings v (revoke_lease b env v id reason peer).1
    unfolding revoke_lease trace_and_record
    revoke_lease-SameSettings id reason peer = (ground arith, ground arith)

    pub renew_lease-SameSettings :
        (id : LeaseId) (secs : ℤ) (peer : Text)
        → SameSettings v (renew_lease b env v id secs peer).1
    unfolding renew_lease trace_and_record
    renew_lease-SameSettings id secs peer = (ground arith, ground arith)

    pub delete_secret-same :
        (name : SecretName) (peer : Text)
        → let w = (delete_secret b env v name peer).1 in
          SameSettings v w
          × (w.leases
              ≡ (revoke_matching b
                  (λ l. l.secret_name == name)
                  (λ l. l.agent)
                  secret_deleted
                  peer
                  env
                  0
                  v.leases
                  v.audit).0)
    unfolding delete_secret trace_and_record
    delete_secret-same name peer = ((ground arith, ground arith), ground arith)

    pub check_session-same :
        (agent : AgentId) (secret : SecretName) (domain : DomainScope) (peer : Text) (s : Session)
        (tool : Text)
        → let w = (check_session b env v agent secret domain peer s tool).1 in
          SameSettings v w × (w.leases ≡ v.leases)
    unfolding check_session trace_and_record
    check_session-same agent secret domain peer s tool =
        ((ground arith, ground arith), ground arith)

    pub store_secret-same :
        (name : SecretName) (plaintext : Bytes) (kind : SecretKind) (description : Option Text)
        (peer : Text)
        → let w = (store_secret b env v name plaintext kind description peer).1 in
          SameSettings v w × (w.leases ≡ v.leases)
    unfolding store_secret trace_and_record
    store_secret-same name plaintext kind description peer =
        ((ground arith, ground arith), ground arith)

    pub rotate_dek-same :
        (peer : Text)
        → SameSettings v (rotate_dek b env v peer).1
          × ((rotate_dek b env v peer).1.leases ≡ v.leases)
    unfolding rotate_dek commit_rotation trace_and_record
    rotate_dek-same peer = ((ground arith, ground arith), ground arith)

    pub create_session-same :
        (user channel : Text) (policy : SessionPolicy) (peer : Text)
        → let w = (create_session b env v user channel policy peer).1 in
          SameSettings v w × (w.leases ≡ v.leases)
    unfolding create_session trace_and_record
    create_session-same user channel policy peer = ((ground arith, ground arith), ground arith)
