-- ===== src/Vault/Steps.antt =====
-- src/vault.rs: the vault as a state machine. A step is one call of an operation, with any
-- surroundings; a run is a sequence of steps.
use zerolease.Prelude.{
  ℕ, ◌≡◌, refl, subst, ◌∙◌, inl, inr, Option, Text, ℤ, Option-cases, nat_eq, text_eq, ◌==◌,
}
use zerolease.Types.Identity.{AgentId, SecretName, DomainScope, LeaseId, SessionId, SessionToken}
use zerolease.Types.Secrets.{Bytes, SecretKind, RevocationReason, secret_deleted, LeaseGrant}
use zerolease.Types.Secrets
use zerolease.Error.{ok}
use zerolease.Env.{Env}
use zerolease.Map.{Map, get}
use zerolease.Policy.{PolicyConfig}
use zerolease.Lease.{Lease}
use zerolease.Session.{SessionPolicy}
use zerolease.Vault.State.{Vault, Backends, initialize, trace_and_record, >>>-keeps}
use zerolease.Vault.Leases.{request_lease, access_secret, revoke_lease, revoke_all_for_agent}
use zerolease.Vault.Renewal.{renew_lease, gc_leases}
use zerolease.Vault.Secrets.{store_secret, delete_secret, rotate_dek}
use zerolease.Vault.Sessions.{
  after, belongs_to, create_session, revoke_session, check_session, link_lease, lease_in_session,
  request_lease_scoped, gc_sessions,
}
use zerolease.Vault.Sessions
use zerolease.Vault.Settings.{
  SameSettings, initialize-same, request_lease-SameSettings, access_secret-SameSettings,
  revoke_lease-SameSettings, renew_lease-SameSettings, delete_secret-same, check_session-same,
  store_secret-same, rotate_dek-same, create_session-same,
}
use zerolease.Vault.Moves
use zerolease.Vault.Moves.{
  LeaseMove, keep, revoke_some, both, revoke_if, revoke_matching-map_values,
  request_lease-LeaseMove, access_secret-LeaseMove, revoke_lease-LeaseMove,
  revoke_all_for_agent-LeaseMove, renew_lease-LeaseMove, gc_leases-LeaseMove,
}

module _ {KS SS AS : Type 0} (b : Backends KS SS AS) (Draws : Env → Type 0) where
  -- The reads `validate_session` and `list_secrets` change nothing and are no steps. What a request
  -- draws satisfies `Draws`, from its first draw and from the one at which it asks the policy.
  pub data Step (v : Vault KS SS AS) : Vault KS SS AS → Type 0 where
    initializes : Step v (initialize b v).1
    requests :
        (env : Env) (agent : AgentId) (secret : SecretName) (domain : DomainScope) (peer : Text)
        → Draws env
        → Step v (request_lease b env v agent secret domain peer).1
    requests_scoped :
        (env : Env) (agent : AgentId) (secret : SecretName) (domain : DomainScope) (peer : Text)
        (token : SessionToken) (tool : Text)
        → Draws (after env 2)
        → Step v (request_lease_scoped b env v agent secret domain peer token tool).1
    accesses :
        (env : Env) (id : LeaseId) (host peer : Text)
        → Step v (access_secret b env v id host peer).1
    revokes :
        (env : Env) (id : LeaseId) (reason : RevocationReason) (peer : Text)
        → Step v (revoke_lease b env v id reason peer).1
    revokes_all :
        (env : Env) (agent : AgentId) (peer : Text)
        → Step v (revoke_all_for_agent b env v agent peer).1
    renews :
        (env : Env) (id : LeaseId) (secs : ℤ) (peer : Text)
        → Step v (renew_lease b env v id secs peer).1
    collects : (env : Env) → Step v (gc_leases env v).1
    stores :
        (env : Env) (name : SecretName) (plaintext : Bytes) (kind : SecretKind)
        (description : Option Text) (peer : Text)
        → Step v (store_secret b env v name plaintext kind description peer).1
    deletes :
        (env : Env) (name : SecretName) (peer : Text) → Step v (delete_secret b env v name peer).1
    rotates : (env : Env) (peer : Text) → Step v (rotate_dek b env v peer).1
    opens_session :
        (env : Env) (user channel : Text) (policy : SessionPolicy) (peer : Text)
        → Step v (create_session b env v user channel policy peer).1
    closes_session :
        (env : Env) (token : SessionToken) (peer : Text)
        → Step v (revoke_session b env v token peer).1
    collects_sessions : (env : Env) → Step v (gc_sessions env v).1

  pub data Run (v : Vault KS SS AS) : Vault KS SS AS → Type 0 where
    done : Run v v
    then_step : {w u : Vault KS SS AS} → Run v w → Step w u → Run v u

  -- The settings are as they were, and the lease table has moved by lease moves.
  abbrev pub Refines : Vault KS SS AS → Vault KS SS AS → Type 0
  Refines v w = SameSettings v w × LeaseMove v.policy v.max_leases_per_agent Draws v.leases w.leases

  module _ (env : Env) (v : Vault KS SS AS) where
    revoke_session-Refines :
        (token : SessionToken) (peer : Text) → Refines v (revoke_session b env v token peer).1
    unfolding revoke_session trace_and_record
    revoke_session-Refines token peer = elim (Option-cases (get v.sessions token)) [
      | inl missing ↦ rw (missing, revoke_session) ((refl, refl), keep refl)
      | inr (s, found) ↦
          rw (found, revoke_session)
            (
              (refl, refl),
              rw
                  (revoke_matching-map_values b (belongs_to s.id) (λ l. l.agent)
                    Secrets.session_revoked peer env 0 v.leases v.audit).0
                  (revoke_some v.leases _),
            )
    ]

  pub link_lease-Refines :
      (v : Vault KS SS AS) (token : SessionToken) (session : SessionId) (grant : LeaseGrant)
      → Refines v (link_lease v token session grant)
  unfolding link_lease
  link_lease-Refines v token session grant = (
    (refl, refl),
    elim (Option-cases (get v.leases grant.lease_id)) [
      | inl missing ↦ rw (missing, Sessions.tie_lease) (keep refl)
      | inr (l, found) ↦
          rw (found, Sessions.tie_lease) (Moves.tie v.leases grant.lease_id l session found)
    ],
  )

  pub same_LeaseMove :
      {p q : PolicyConfig} {c d : ℕ} {m n : Map LeaseId Lease}
      → p ≡ q
      → c ≡ d
      → LeaseMove p c Draws m n
      → LeaseMove q d Draws m n
  same_LeaseMove {p} {q} {c} {d} {m} {n} e f move =
      subst (λ x. LeaseMove q x Draws m n) f (subst (λ x. LeaseMove x c Draws m n) e move)

  Refines-trans : (u v w : Vault KS SS AS) → Refines u v → Refines v w → Refines u w
  Refines-trans u v w ((p, c), m) ((q, d), n) = ((q ∙ p, d ∙ c), both m (same_LeaseMove p c n))

  request_lease-Refines :
      (env : Env) (v : Vault KS SS AS) (agent : AgentId) (secret : SecretName)
      (domain : DomainScope) (peer : Text)
      → Draws env
      → Refines v (request_lease b env v agent secret domain peer).1
  request_lease-Refines env v agent secret domain peer d = (
    request_lease-SameSettings b env v agent secret domain peer,
    request_lease-LeaseMove b Draws env v agent secret domain peer d,
  )

  lease_in_session-Refines :
      (env : Env) (v : Vault KS SS AS) (agent : AgentId) (secret : SecretName)
      (domain : DomainScope) (peer : Text) (token : SessionToken) (session : SessionId)
      → Draws env
      → Refines v (lease_in_session b env v agent secret domain peer token session).1
  unfolding lease_in_session
  lease_in_session-Refines env v agent secret domain peer token session d =
      let r = request_lease b env v agent secret domain peer in
      let m = request_lease-Refines env v agent secret domain peer d in
      >>>-keeps (Refines v) r (λ grant w. (ok grant, link_lease w token session grant)) m
        (λ grant _.
          Refines-trans v r.1 (link_lease r.1 token session grant) m
            (link_lease-Refines r.1 token session grant))

  request_lease_scoped-Refines :
      (env : Env) (v : Vault KS SS AS) (agent : AgentId) (secret : SecretName)
      (domain : DomainScope) (peer : Text) (token : SessionToken) (tool : Text)
      → Draws (after env 2)
      → Refines v (request_lease_scoped b env v agent secret domain peer token tool).1
  unfolding request_lease_scoped
  request_lease_scoped-Refines env v agent secret domain peer token tool d =
      elim (Option-cases (get v.sessions token)) [
        | inl missing ↦ rw (missing, request_lease_scoped) ((refl, refl), keep refl)
        | inr (s, found) ↦
            let r = check_session b env v agent secret domain peer s tool in
            let (same, e) = check_session-same b env v agent secret domain peer s tool in
            let m : Refines v r.1 = (same, keep e) in
            rw (found, request_lease_scoped)
              (>>>-keeps (Refines v) r
                (λ session w.
                  lease_in_session b (after env 2) w agent secret domain peer token session)
                m
                (λ session _.
                  Refines-trans v r.1
                    (lease_in_session b (after env 2) r.1 agent secret domain peer token session).1
                    m
                    (lease_in_session-Refines (after env 2) r.1 agent secret domain peer token
                      session d)))
      ]

  -- Every operation of the vault keeps the policy and the cap on leases, and changes the
  -- lease table by lease moves only: a lease is issued after the policy granted it and
  -- while its agent is below the cap, spent after it was found valid, renewed by
  -- `Lease::renew`, revoked, tied to a session or collected.
  pub Step-Refines : {v w : Vault KS SS AS} → Step v w → Refines v w
  unfolding revoke_all_for_agent gc_leases gc_sessions
  Step-Refines {v} initializes = let (p, e) = initialize-same b v in (p, keep e)
  Step-Refines {v} (requests env agent secret domain peer d) =
      request_lease-Refines env v agent secret domain peer d
  Step-Refines {v} (requests_scoped env agent secret domain peer token tool d) =
      request_lease_scoped-Refines env v agent secret domain peer token tool d
  Step-Refines {v} (accesses env id host peer) = (
    access_secret-SameSettings b env v id host peer,
    access_secret-LeaseMove b Draws env v id host peer,
  )
  Step-Refines {v} (revokes env id reason peer) = (
    revoke_lease-SameSettings b env v id reason peer,
    revoke_lease-LeaseMove b Draws env v id reason peer,
  )
  Step-Refines {v} (revokes_all env agent peer) =
      ((refl, refl), revoke_all_for_agent-LeaseMove b Draws env v agent peer)
  Step-Refines {v} (renews env id secs peer) = (
    renew_lease-SameSettings b env v id secs peer,
    renew_lease-LeaseMove b Draws env v id secs peer,
  )
  Step-Refines {v} (collects env) = ((refl, refl), gc_leases-LeaseMove b Draws env v)
  Step-Refines {v} (stores env name plaintext kind description peer) =
      let (p, e) = store_secret-same b env v name plaintext kind description peer in (p, keep e)
  Step-Refines {v} (deletes env name peer) =
      let (p, e) = delete_secret-same b env v name peer in
      (
        p,
        rw
            (
              e,
              (revoke_matching-map_values b (λ l. l.secret_name == name) (λ l. l.agent)
                  secret_deleted peer env 0 v.leases v.audit).0,
            )
            (revoke_some v.leases _),
      )
  Step-Refines {v} (rotates env peer) = let (p, e) = rotate_dek-same b env v peer in (p, keep e)
  Step-Refines {v} (opens_session env user channel policy peer) =
      let (p, e) = create_session-same b env v user channel policy peer in (p, keep e)
  Step-Refines {v} (closes_session env token peer) = revoke_session-Refines env v token peer
  Step-Refines {v} (collects_sessions env) = ((refl, refl), keep refl)
