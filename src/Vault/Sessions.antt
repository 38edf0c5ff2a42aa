-- ===== src/Vault/Sessions.antt =====
-- src/vault.rs: the operations on sessions.
use zerolease.Prelude.{
  ℕ, ◌+◌, ◌-◌, Bool, false, none, some, [], ◌∷◌, Text, codes, leb, ◌==◌, nat_eq, text_eq,
  if◌then◌else◌, length,
}
use zerolease.Types.Identity.{AgentId, SecretName, DomainScope, SessionToken, SessionId, LeaseId}
use zerolease.Types.Secrets.{LeaseGrant}
use zerolease.Types.Secrets
use zerolease.Types.Time.{num_seconds}
use zerolease.Error.{
  access_denied, session_not_found, session_expired, session_revoked, session_lease_limit_reached,
  Result, ok, err,
}
use zerolease.Env.{Env}
use zerolease.Map.{Map, get, set, insert}
use zerolease.Lease.{Lease, inc_u32}
use zerolease.Session.{Session, SessionPolicy, is_expired, is_active, check_tool_binding}
use zerolease.Session
use zerolease.Audit
use zerolease.Audit.{success, denied, tool_not_bound, binding_denied, explicit_revocation}
use zerolease.Vault.State.{Vault, Backends, ◌>>>◌, trace_and_record}
use zerolease.Vault.Leases.{request_lease, revoke_matching}

-- The surroundings after `k` draws.
abbrev pub after : Env → ℕ → Env
after env k = record {
  now = λ i. env.now (i + k);
  uuid = λ i. env.uuid (i + k);
  random_bytes = λ i n. env.random_bytes (i + k) n;
}

abbrev pub belongs_to : SessionId → Lease → Bool
belongs_to id l = elim l.session_id [ none ↦ false | some s ↦ s == id ]

-- `retain`: the clock is read for each session that is not revoked.
unfoldable pub retain_active : Env → ℕ → Map SessionToken Session → Map SessionToken Session
retain_active env i [] = []
retain_active env i ((j, s) ∷ m) =
    let rest = retain_active env (if s.revoked then i else i + 1) m in
    if is_active s (env.now i) then (j, s) ∷ rest else rest

-- `if let Some(lease) = leases.get_mut(…)`, and the same for the session.
unfoldable pub tie_lease : Map LeaseId Lease → LeaseId → SessionId → Map LeaseId Lease
tie_lease leases lease_id session_id = elim (get leases lease_id) [
  | none ↦ leases
  | some l ↦ set leases lease_id (record l { session_id = some session_id })
]

unfoldable pub count_lease : Map SessionToken Session → SessionToken → Map SessionToken Session
count_lease sessions token = elim (get sessions token) [
  | none ↦ sessions
  | some s ↦ set sessions token (record s { active_lease_count = inc_u32 s.active_lease_count })
]

module _ {KS SS AS : Type 0} where
  unfoldable pub validate_session : Env → Vault KS SS AS → SessionToken → Result Session
  unfolding is_expired
  validate_session env v token = elim (get v.sessions token) [
    | none ↦ err session_not_found
    | some s ↦
        if s.revoked
        then err (session_revoked s.id)
        else if is_expired s (env.now 0)
        then err (session_expired s.id)
        else ok s
  ]

  unfoldable pub gc_sessions : Env → Vault KS SS AS → ℕ × Vault KS SS AS
  unfolding retain_active
  gc_sessions env v =
      let kept = retain_active env 0 v.sessions in
      (length v.sessions - length kept, record v { sessions = kept })

  -- Step 5 of `request_lease_scoped`: the lease is tied to the session, whose count goes up.
  unfoldable pub link_lease :
      Vault KS SS AS → SessionToken → SessionId → LeaseGrant → Vault KS SS AS
  unfolding tie_lease count_lease
  link_lease v token session_id grant = record v {
    leases = tie_lease v.leases grant.lease_id session_id;
    sessions = count_lease v.sessions token;
  }

module _ {KS SS AS : Type 0} (b : Backends KS SS AS) where
  unfoldable pub create_session :
      Env
      → Vault KS SS AS
      → Text
      → Text
      → SessionPolicy
      → Text
      → Result (SessionToken × SessionId) × Vault KS SS AS
  create_session env v user channel policy peer =
      let session = Session.new (env.now 0) (env.uuid 0) user channel policy in
      let duration_secs = num_seconds (Session.time_remaining session (env.now 1)) in
      let token = env.random_bytes 0 16 in
      trace_and_record b env 2 (record v { sessions = insert v.sessions token session })
        (Audit.session_created session.id user channel duration_secs) user peer success
      >>> λ _ w. (ok (token, session.id), w)

  unfoldable pub revoke_session :
      Env → Vault KS SS AS → SessionToken → Text → Result (Unit {0}) × Vault KS SS AS
  revoke_session env v token peer = elim (get v.sessions token) [
    | none ↦ (err session_not_found, v)
    | some s ↦
        let (leases, n, log) =
          revoke_matching b (belongs_to s.id) (λ l. l.agent) Secrets.session_revoked peer env 0
            v.leases v.audit in
        trace_and_record b env n
          (record v {
            sessions = set v.sessions token (Session.revoke s);
            leases = leases;
            audit = log;
          })
          (Audit.session_revoked s.id explicit_revocation n) (codes "session") peer success
  ]

  -- Steps 1 to 3: what the session itself refuses, before the policy is asked.
  unfoldable pub check_session :
      Env
      → Vault KS SS AS
      → AgentId
      → SecretName
      → DomainScope
      → Text
      → Session
      → Text
      → Result SessionId × Vault KS SS AS
  unfolding is_expired check_tool_binding
  check_session env v agent secret_name domain peer s tool_name =
      if s.revoked
      then (err (session_revoked s.id), v)
      else if is_expired s (env.now 0)
      then (err (session_expired s.id), v)
      else elim (check_tool_binding s tool_name secret_name domain) [
        | err _ ↦ (
          err (access_denied tool_name secret_name domain),
          (trace_and_record b env 1 v
              (Audit.tool_binding_denied s.id tool_name secret_name
                (tool_not_bound tool_name secret_name domain))
              agent peer (denied binding_denied)).1,
        )
        | ok _ ↦
            if leb s.policy.max_concurrent_leases s.active_lease_count
            then (err (session_lease_limit_reached s.id s.policy.max_concurrent_leases), v)
            else (ok s.id, v)
      ]

  -- Steps 4 and 5: the common request, then the link.
  unfoldable pub lease_in_session :
      Env
      → Vault KS SS AS
      → AgentId
      → SecretName
      → DomainScope
      → Text
      → SessionToken
      → SessionId
      → Result LeaseGrant × Vault KS SS AS
  lease_in_session env v agent secret_name domain peer token session_id =
      request_lease b env v agent secret_name domain peer >>> λ grant w.
      (ok grant, link_lease w token session_id grant)

  unfoldable pub request_lease_scoped :
      Env
      → Vault KS SS AS
      → AgentId
      → SecretName
      → DomainScope
      → Text
      → SessionToken
      → Text
      → Result LeaseGrant × Vault KS SS AS
  request_lease_scoped env v agent secret_name domain peer token tool_name =
      elim (get v.sessions token) [
        | none ↦ (err session_not_found, v)
        | some s ↦ check_session env v agent secret_name domain peer s tool_name >>> λ session_id w.
            lease_in_session (after env 2) w agent secret_name domain peer token session_id
      ]
