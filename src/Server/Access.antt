-- ===== src/Server/Access.antt =====
-- src/server.rs: what a connection can make the vault do, by its role.
use zerolease.Prelude.{
  ◌≡◌, refl, ◌⊎◌, inl, inr, Bool, true, false, Option, some, Text, any, ℤ, arith, ◌==◌, text_eq,
  Bool-cases, Option-cases, text_beq, text_beq_iff,
}
use zerolease.Types.Identity.{AgentId, SecretName, DomainScope, LeaseId, Uuid}
use zerolease.Types.Secrets.{Bytes, SecretKind, RevocationReason}
use zerolease.Error.{Result, ok, err}
use zerolease.Env.{Env}
use zerolease.Auth.{Role, admin, agent, orchestrator, ConnectionIdentity}
use zerolease.Protocol.{Request, Response}
use zerolease.Vault.State.{Vault, Backends}
use zerolease.Vault.Leases.{request_lease, access_secret, revoke_lease, revoke_all_for_agent}
use zerolease.Vault.Renewal.{renew_lease}
use zerolease.Vault.Secrets.{store_secret, delete_secret, list_secrets}
use zerolease.Vault.Steps.{
  Run, done, then_step, requests, accesses, revokes, revokes_all, renews, stores, deletes,
}
use zerolease.Server.Dispatch.{
  Codec, dispatch, call_method, is_refused, resolve_agent, json_response, on_store_secret,
  on_request_lease, on_access_secret, on_revoke_lease, on_revoke_all_for_agent, on_list_secrets,
  on_renew_lease, on_delete_secret, admin_methods, store_secret_method, delete_secret_method,
  request_lease_method, access_secret_method, revoke_lease_method, revoke_all_for_agent_method,
  list_secrets_method, renew_lease_method, printable,
}

-- The agents that a connection may act for: any, unless it is bound to one.
abbrev pub ActsFor : ConnectionIdentity → AgentId → Type 0
ActsFor identity who =
    (bound : AgentId) → identity.role ≡ agent → identity.agent_id ≡ some bound → who ≡ bound

module _ {KS SS AS : Type 0} (b : Backends KS SS AS) (Draws : Env → Type 0) where
  -- What a request of a connection may do to the vault.
  pub data Allowed (identity : ConnectionIdentity) (v : Vault KS SS AS)
      : Vault KS SS AS → Type 0 where
    nothing : Allowed identity v v
    a_request :
        (env : Env) (who : AgentId) (secret : SecretName) (domain : DomainScope) (peer : Text)
        → Draws env
        → ActsFor identity who
        → Allowed identity v (request_lease b env v who secret domain peer).1
    an_access :
        (env : Env) (id : LeaseId) (host peer : Text)
        → Allowed identity v (access_secret b env v id host peer).1
    a_revocation :
        (env : Env) (id : LeaseId) (reason : RevocationReason) (peer : Text)
        → Allowed identity v (revoke_lease b env v id reason peer).1
    all_revoked :
        (env : Env) (who : AgentId) (peer : Text)
        → ActsFor identity who
        → Allowed identity v (revoke_all_for_agent b env v who peer).1
    a_renewal :
        (env : Env) (id : LeaseId) (secs : ℤ) (peer : Text)
        → Allowed identity v (renew_lease b env v id secs peer).1
    a_secret :
        (env : Env) (name : SecretName) (plaintext : Bytes) (kind : SecretKind)
        (description : Option Text) (peer : Text)
        → identity.role ≡ admin
        → Allowed identity v (store_secret b env v name plaintext kind description peer).1
    a_deletion :
        (env : Env) (name : SecretName) (peer : Text)
        → identity.role ≡ admin
        → Allowed identity v (delete_secret b env v name peer).1

  pub Allowed-Run :
      (identity : ConnectionIdentity) {v w : Vault KS SS AS}
      → Allowed identity v w
      → Run b Draws v w
  Allowed-Run identity nothing = done
  Allowed-Run identity (a_request env who secret domain peer d _) =
      then_step done (requests env who secret domain peer d)
  Allowed-Run identity (an_access env id host peer) = then_step done (accesses env id host peer)
  Allowed-Run identity (a_revocation env id reason peer) =
      then_step done (revokes env id reason peer)
  Allowed-Run identity (all_revoked env who peer _) = then_step done (revokes_all env who peer)
  Allowed-Run identity (a_renewal env id secs peer) = then_step done (renews env id secs peer)
  Allowed-Run identity (a_secret env name plaintext kind description peer _) =
      then_step done (stores env name plaintext kind description peer)
  Allowed-Run identity (a_deletion env name peer _) = then_step done (deletes env name peer)

resolve_agent-ActsFor :
    (identity : ConnectionIdentity) (requested : Text)
    → ActsFor identity (resolve_agent identity requested)
unfolding resolve_agent
resolve_agent-ActsFor identity requested bound r a = rw (r, a) refl

abbrev needs_admin : Text → Bool
needs_admin method = any (λ m. m == method) admin_methods

store-any : (m : Text) → m == store_secret_method ≡ true → needs_admin m ≡ true
unfolding any text_beq
store-any m h = rw ((text_beq_iff m store_secret_method).0 h) refl

delete-any : (m : Text) → m == delete_secret_method ≡ true → needs_admin m ≡ true
unfolding any text_beq
delete-any m h = rw ((text_beq_iff m delete_secret_method).0 h) refl

role-admin :
    (method : Text) (identity : ConnectionIdentity)
    → is_refused method identity ≡ false
    → needs_admin method ≡ true
    → identity.role ≡ admin
unfolding is_refused
role-admin method identity h m = elim (role-cases identity.role) [
  | inl e ↦ e
  | inr e ↦ absurd (ground arith)
]
  where
    role-cases : (r : Role) → (r ≡ admin) ⊎ ((r ≡ agent) ⊎ (r ≡ orchestrator))
    role-cases admin = inl refl
    role-cases agent = inr (inl refl)
    role-cases orchestrator = inr (inr refl)

module _ {J KS SS AS : Type 0} (c : Codec J) (b : Backends KS SS AS) (Draws : Env → Type 0)
    (identity : ConnectionIdentity) (env : Env) (v : Vault KS SS AS) where
  -- What a request did to the vault is allowed.
  abbrev Fine : Response J × Vault KS SS AS → Type 0
  Fine answer = Allowed b Draws identity v answer.1

  json_response-vault :
      {A : Type 0} (print : A → Option J) (id : Uuid) (r : Result A × Vault KS SS AS)
      → (json_response c b print id r).1 ≡ r.1
  unfolding json_response
  json_response-vault print id (err e, w) = refl
  json_response-vault print id (ok a, w) = elim (Option-cases (print a)) [
    | inl fails ↦ rw (fails, json_response) refl
    | inr (j, prints) ↦ rw (prints, json_response) refl
  ]

  answered :
      {A : Type 0} (print : A → Option J) (id : Uuid) (r : Result A × Vault KS SS AS)
      → Allowed b Draws identity v r.1
      → Fine (json_response c b print id r)
  answered print id r a = rw (json_response-vault print id r) a

  module _ (id : Uuid) (params : J) (peer : Text) where
    on_store_secret-Allowed :
        identity.role ≡ admin → Fine (on_store_secret c b env v id params peer)
    unfolding on_store_secret
    on_store_secret-Allowed r = elim (Option-cases (c.store_params params)) [
      | inl bad ↦ rw (bad, on_store_secret) nothing
      | inr (req, good) ↦ elim (Option-cases (c.base64_decode req.plaintext)) [
        | inl bad ↦ rw (good, on_store_secret, bad) nothing
        | inr (plaintext, decoded) ↦ elim (Option-cases (c.kind_of req.kind)) [
          | inl bad ↦ rw (good, on_store_secret, decoded, bad) nothing
          | inr (kind, known) ↦
              rw (good, on_store_secret, decoded, known)
                (answered c.print_metadata id
                  (store_secret b env v req.name plaintext kind req.description peer)
                  (a_secret env req.name plaintext kind req.description peer r))
        ]
      ]
    ]

    on_request_lease-Allowed : Draws env → Fine (on_request_lease c b env v id params peer identity)
    unfolding on_request_lease
    on_request_lease-Allowed d = elim (Option-cases (c.request_params params)) [
      | inl bad ↦ rw (bad, on_request_lease) nothing
      | inr (req, good) ↦
          let who = resolve_agent identity req.agent in
          rw (good, on_request_lease)
            (answered c.print_grant id (request_lease b env v who req.secret_name req.domain peer) (
              a_request env who req.secret_name req.domain peer d
                (resolve_agent-ActsFor identity req.agent)))
    ]

    on_access_secret-Allowed : Fine (on_access_secret c b env v id params peer)
    unfolding on_access_secret
    on_access_secret-Allowed = elim (Option-cases (c.access_params params)) [
      | inl bad ↦ rw (bad, on_access_secret) nothing
      | inr (req, good) ↦
          rw (good, on_access_secret)
            (answered (λ guard. c.print_secret (c.base64_encode guard.value)) id
              (access_secret b env v req.lease_id req.target_domain peer)
              (an_access env req.lease_id req.target_domain peer))
    ]

    on_revoke_lease-Allowed : Fine (on_revoke_lease c b env v id params peer)
    unfolding on_revoke_lease
    on_revoke_lease-Allowed = elim (Option-cases (c.revoke_params params)) [
      | inl bad ↦ rw (bad, on_revoke_lease) nothing
      | inr (req, good) ↦ elim (Option-cases (c.reason_of req.reason)) [
        | inl bad ↦ rw (good, on_revoke_lease, bad) nothing
        | inr (reason, known) ↦
            rw (good, on_revoke_lease, known)
              (answered (λ _. some c.empty_object) id
                (revoke_lease b env v req.lease_id reason peer)
                (a_revocation env req.lease_id reason peer))
      ]
    ]

    on_revoke_all_for_agent-Allowed :
        Fine (on_revoke_all_for_agent c b env v id params peer identity)
    unfolding on_revoke_all_for_agent
    on_revoke_all_for_agent-Allowed = elim (Option-cases (c.revoke_all_params params)) [
      | inl bad ↦ rw (bad, on_revoke_all_for_agent) nothing
      | inr (requested, good) ↦
          let who = resolve_agent identity requested in
          rw (good, on_revoke_all_for_agent)
            (answered c.print_count id (revoke_all_for_agent b env v who peer)
              (all_revoked env who peer (resolve_agent-ActsFor identity requested)))
    ]

    on_list_secrets-Allowed : Fine (on_list_secrets c b v id)
    unfolding on_list_secrets
    on_list_secrets-Allowed =
        answered (λ secrets. c.print_secrets (printable c secrets)) id (list_secrets b v, v) nothing

    on_renew_lease-Allowed : Fine (on_renew_lease c b env v id params peer)
    unfolding on_renew_lease
    on_renew_lease-Allowed = elim (Option-cases (c.renew_params params)) [
      | inl bad ↦ rw (bad, on_renew_lease) nothing
      | inr ((lease_id, secs), good) ↦
          rw (good, on_renew_lease)
            (answered c.print_grant id (renew_lease b env v lease_id secs peer)
              (a_renewal env lease_id secs peer))
    ]

    on_delete_secret-Allowed :
        identity.role ≡ admin → Fine (on_delete_secret c b env v id params peer)
    unfolding on_delete_secret
    on_delete_secret-Allowed r = elim (Option-cases (c.delete_params params)) [
      | inl bad ↦ rw (bad, on_delete_secret) nothing
      | inr (name, good) ↦
          rw (good, on_delete_secret)
            (answered (λ _. some c.empty_object) id (delete_secret b env v name peer)
              (a_deletion env name peer r))
    ]

  call_method-Allowed :
      (request : Request J) (peer : Text)
      → Draws env
      → is_refused request.method identity ≡ false
      → Fine (call_method c b env v request peer identity)
  unfolding call_method
  call_method-Allowed request peer d free =
      let id = request.id in
      let params = request.params in
      elim (Bool-cases (request.method == store_secret_method)) [
        | inl m ↦ rw m (
            on_store_secret-Allowed id params peer
              (role-admin request.method identity free (store-any request.method m)))
        | inr m1 ↦ rw m1 (elim (Bool-cases (request.method == request_lease_method)) [
          | inl m ↦ rw m (on_request_lease-Allowed id params peer d)
          | inr m2 ↦ rw m2 (elim (Bool-cases (request.method == access_secret_method)) [
            | inl m ↦ rw m (on_access_secret-Allowed id params peer)
            | inr m3 ↦ rw m3 (elim (Bool-cases (request.method == revoke_lease_method)) [
              | inl m ↦ rw m (on_revoke_lease-Allowed id params peer)
              | inr m4 ↦ rw m4 (elim (Bool-cases (request.method == revoke_all_for_agent_method)) [
                | inl m ↦ rw m (on_revoke_all_for_agent-Allowed id params peer)
                | inr m5 ↦ rw m5 (elim (Bool-cases (request.method == list_secrets_method)) [
                  | inl m ↦ rw m (on_list_secrets-Allowed id params peer)
                  | inr m6 ↦ rw m6 (elim (Bool-cases (request.method == renew_lease_method)) [
                    | inl m ↦ rw m (on_renew_lease-Allowed id params peer)
                    | inr m7 ↦ rw m7 (elim (Bool-cases (request.method == delete_secret_method)) [
                      | inl m ↦ rw m (
                          on_delete_secret-Allowed id params peer
                            (role-admin request.method identity free (delete-any request.method m)))
                      | inr m8 ↦ rw m8 (nothing)
                    ])
                  ])
                ])
              ])
            ])
          ])
        ])
      ]

  pub dispatch-Allowed :
      (request : Request J) (peer : Text)
      → Draws env
      → Allowed b Draws identity v (dispatch c b env v request peer identity).1
  unfolding dispatch
  dispatch-Allowed request peer d = elim (Bool-cases (is_refused request.method identity)) [
    | inl refused ↦ rw (refused, dispatch) nothing
    | inr free ↦ rw (free, dispatch) (call_method-Allowed request peer d free)
  ]
