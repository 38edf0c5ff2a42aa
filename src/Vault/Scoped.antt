-- ===== src/Vault/Scoped.antt =====
-- src/vault.rs: when `request_lease_scoped` grants a lease.
use zerolease.Prelude.{
  ◌<◌, ◌≡◌, refl, sym, ap, ◌∙◌, inl, inr, true, some, Text, arith, text_eq, nat_eq, Option-cases,
}
use zerolease.Types.Identity.{LeaseId, AgentId, SecretName, DomainScope, SessionId, SessionToken}
use zerolease.Types.Secrets.{LeaseGrant, LeaseTerms}
use zerolease.Error.{Result, ok, Result-cases}
use zerolease.Env.{Env}
use zerolease.Map.{get, set, insert, get-insert_self, get-set_self, Map}
use zerolease.Policy.{evaluate}
use zerolease.Lease.{Lease, grant_of, inc_u32}
use zerolease.Lease
use zerolease.Session.{Session, is_active, is_expired, check_tool_binding}
use zerolease.Session.Bindings.{Bound, check_tool_binding_iff}
use zerolease.Vault.State.{Vault, Backends, trace_and_record, ◌>>>◌, >>>-eq-ok}
use zerolease.Vault.Leases.{check_request, finish_request, request_lease, deny_lease, issue_lease}
use zerolease.Vault.Sessions.{
  after, check_session, lease_in_session, link_lease, request_lease_scoped, count_lease,
}
use zerolease.Vault.Sessions
use zerolease.Vault.Granting.{issued, request_lease-ok}

module _ {KS SS AS : Type 0} (b : Backends KS SS AS) (env : Env) (v : Vault KS SS AS)
    (agent : AgentId) (secret : SecretName) (domain : DomainScope) (peer : Text)
    (token : SessionToken) (tool : Text) where
  -- The session lets the tool have the lease.
  pub record Lets (s : Session) : Type 0 where
    pub active : is_active s (env.now 0) ≡ true
    pub bound : Bound s.policy.tool_bindings tool secret domain
    pub below : s.active_lease_count < s.policy.max_concurrent_leases

  check_session-ok :
      (s : Session) (id : SessionId)
      → (check_session b env v agent secret domain peer s tool).0 ≡ ok id
      → Lets s × (id ≡ s.id) × ((check_session b env v agent secret domain peer s tool).1 ≡ v)
  unfolding check_session is_active is_expired
  check_session-ok s id h = elim (Result-cases (check_tool_binding s tool secret domain)) [
    | inr (e, unbound) ↦ absurd (ground arith)
    | inl (u, fits) ↦ (
      record {
        active = ground arith;
        bound = (check_tool_binding_iff tool secret domain s).0.0 (ground arith);
        below = ground arith;
      },
      ground arith,
      ground arith,
    )
  ]

  abbrev pub scoped : Result LeaseGrant × Vault KS SS AS
  scoped = request_lease_scoped b env v agent secret domain peer token tool

  abbrev requested : Result LeaseGrant × Vault KS SS AS
  requested = request_lease b (after env 2) v agent secret domain peer

  scoped-eq :
      (s : Session) {g : LeaseGrant}
      → get v.sessions token ≡ some s
      → scoped.0 ≡ ok g
      → Lets s × (scoped ≡ lease_in_session b (after env 2) v agent secret domain peer token s.id)
  unfolding request_lease_scoped
  scoped-eq s found h =
      let r = check_session b env v agent secret domain peer s tool in
      let f = λ (id : SessionId) (w : Vault KS SS AS).
        lease_in_session b (after env 2) w agent secret domain peer token id in
      let e : scoped ≡ (r >>> f) = rw (found, request_lease_scoped) refl in
      let (id, checked, eq) = >>>-eq-ok r f (ap (λ x. x.0) (sym e) ∙ h) in
      let (lets, p, q) = check_session-ok s id checked in (lets, e ∙ eq ∙ (λ i. f (p i) (q i)))

  linked :
      (s : Session) {g : LeaseGrant}
      → (lease_in_session b (after env 2) v agent secret domain peer token s.id).0 ≡ ok g
      → (requested.0 ≡ ok g)
        × (lease_in_session b (after env 2) v agent secret domain peer token s.id
            ≡ (ok g, link_lease requested.1 token s.id g))
  unfolding lease_in_session
  linked s h = (ground arith, ground arith)

  requested-sessions : requested.1.sessions ≡ v.sessions
  unfolding request_lease check_request finish_request deny_lease issue_lease trace_and_record
  requested-sessions = ground arith

  get-tie :
      (m : Map LeaseId Lease) (l : Lease) (s : SessionId)
      → get m l.id ≡ some l
      → get (Sessions.tie_lease m l.id s) l.id ≡ some (record l { session_id = some s })
  unfolding Sessions.tie_lease
  get-tie m l s found = rw (found, Sessions.tie_lease) (get-set_self m l.id _ l found)

  counted :
      (m : Map SessionToken Session) (s : Session)
      → get m token ≡ some s
      → count_lease m token
        ≡ set m token (record s { active_lease_count = inc_u32 s.active_lease_count })
  unfolding count_lease
  counted m s found = rw (found, count_lease) refl

  get-link_lease :
      (w : Vault KS SS AS) (m : Map LeaseId Lease) (l : Lease) (session : SessionId)
      (g : LeaseGrant)
      → w.leases ≡ insert m l.id l
      → g ≡ grant_of l
      → get (link_lease w token session g).leases g.lease_id
        ≡ some (record l { session_id = some session })
  unfolding link_lease grant_of
  get-link_lease w m l session g stored granted =
      let p : g.lease_id ≡ l.id = ap (λ x. x.lease_id) granted in
      rw (p, stored) (get-tie (insert m l.id l) l session (get-insert_self m l.id l))

  link_lease-sessions :
      (w : Vault KS SS AS) (s : Session) (g : LeaseGrant)
      → w.sessions ≡ v.sessions
      → get v.sessions token ≡ some s
      → (link_lease w token s.id g).sessions
        ≡ set v.sessions token (record s { active_lease_count = inc_u32 s.active_lease_count })
  unfolding link_lease
  link_lease-sessions w s g same found = rw same (counted v.sessions s found)

  -- A scoped request is granted only when the session is active, binds the tool to the
  -- secret for the domain and is below its limit of leases, and the policy allows the agent
  -- the secret. The lease that is stored is then tied to the session, and the count of the
  -- session goes up by one.
  pub request_lease_scoped-ok :
      {g : LeaseGrant}
      → scoped.0 ≡ ok g
      → (s : Session) × (terms : LeaseTerms) × (get v.sessions token ≡ some s)
        × Lets s
        × (evaluate v.policy agent secret domain ≡ ok terms)
        × (get scoped.1.leases g.lease_id
            ≡ some (record (issued b (after env 2) v agent secret domain peer terms) {
              session_id = some s.id;
            }))
        × (scoped.1.sessions
            ≡ set v.sessions token (record s { active_lease_count = inc_u32 s.active_lease_count }))
  unfolding request_lease_scoped link_lease grant_of Lease.new
  request_lease_scoped-ok {g} h = elim (Option-cases (get v.sessions token)) [
    | inl missing ↦ absurd (ground arith)
    | inr (s, found) ↦
        let (lets, e) = scoped-eq s found h in
        let (r, e') = linked s (ap (λ x. x.0) (sym e) ∙ h) in
        let (terms, stored, granted, below, exists, grant, leases) =
          request_lease-ok b (after env 2) v agent secret domain peer r in
        let l = issued b (after env 2) v agent secret domain peer terms in
        let w = requested.1 in
        let all : scoped ≡ (ok g, link_lease w token s.id g) = e ∙ e' in
        (
          s,
          terms,
          found,
          lets,
          granted,
          ap (λ x. get x.1.leases g.lease_id) all ∙ get-link_lease w v.leases l s.id g leases grant,
          ap (λ x. x.1.sessions) all ∙ link_lease-sessions w s g requested-sessions found,
        )
  ]
