-- ===== src/Server/Dispatch.antt =====
-- src/server.rs: `dispatch`.
use zerolease.Prelude.{
  ℕ, Bool, true, false, not, ◌&&◌, Option, none, some, List, [], ◌∷◌, Text, codes, any, ℤ, ◌==◌,
  text_eq, if◌then◌else◌,
}
use zerolease.Types.Identity.{AgentId, Uuid}
use zerolease.Types.Secrets.{Bytes, SecretKind, RevocationReason, LeaseGrant, SecretMetadata}
use zerolease.Error.{access_denied, Result, ok, err}
use zerolease.Env.{Env}
use zerolease.Auth.{Role, admin, agent, orchestrator, ConnectionIdentity}
use zerolease.Protocol.{
  Request, Response, ClientHello, ServerHello, StoreSecretRequest, RequestLeaseRequest,
  AccessSecretRequest, RevokeLeaseRequest, success, from_error, protocol_error,
  code_invalid_request, Complaint, invalid_params, invalid_base64, invalid_kind, invalid_reason,
  serialization_failed, unknown_method,
}
use zerolease.Vault.State.{Vault, Backends}
use zerolease.Vault.Leases.{request_lease, access_secret, revoke_lease, revoke_all_for_agent}
use zerolease.Vault.Renewal.{renew_lease}
use zerolease.Vault.Secrets.{store_secret, list_secrets, delete_secret}

-- What the code asks of serde_json, per type, and of base64. `none` is an error.
pub record Codec (J : Type 0) : Type 0 where
  pub parse_hello : Bytes → Option ClientHello
  pub print_hello : ServerHello → Option Bytes
  pub parse_request : Bytes → Option (Request J)
  pub print_response : Response J → Option Bytes
  pub store_params : J → Option (StoreSecretRequest J)
  pub request_params : J → Option RequestLeaseRequest
  pub access_params : J → Option AccessSecretRequest
  pub revoke_params : J → Option (RevokeLeaseRequest J)
  pub revoke_all_params : J → Option Text
  pub renew_params : J → Option (Uuid × ℤ)
  pub delete_params : J → Option Text
  pub kind_of : J → Option SecretKind
  pub reason_of : J → Option RevocationReason
  pub print_metadata : SecretMetadata → Option J
  pub print_grant : LeaseGrant → Option J
  pub print_secret : Text → Option J
  pub print_count : ℕ → Option J
  pub print_secrets : List J → Option J
  pub empty_object : J
  pub base64_decode : Text → Option Bytes
  pub base64_encode : Text → Text

-- `methods`
abbrev pub store_secret_method : Text
store_secret_method = codes "store_secret"

abbrev pub request_lease_method : Text
request_lease_method = codes "request_lease"

abbrev pub access_secret_method : Text
access_secret_method = codes "access_secret"

abbrev pub revoke_lease_method : Text
revoke_lease_method = codes "revoke_lease"

abbrev pub revoke_all_for_agent_method : Text
revoke_all_for_agent_method = codes "revoke_all_for_agent"

abbrev pub list_secrets_method : Text
list_secrets_method = codes "list_secrets"

abbrev pub renew_lease_method : Text
renew_lease_method = codes "renew_lease"

abbrev pub delete_secret_method : Text
delete_secret_method = codes "delete_secret"

abbrev pub admin_methods : List Text
admin_methods = store_secret_method ∷ delete_secret_method ∷ list_secrets_method ∷ []

abbrev pub is_admin : Role → Bool
is_admin admin = true
is_admin agent = false
is_admin orchestrator = false

abbrev pub or_else : Option Text → Text → Text
or_else none t = t
or_else (some s) t = s

-- `ADMIN_METHODS.contains(&method) && identity.role != Role::Admin`
unfoldable pub is_refused : Text → ConnectionIdentity → Bool
is_refused method identity = any (λ m. m == method) admin_methods && not (is_admin identity.role)

-- The agent that a request acts for.
unfoldable pub resolve_agent : ConnectionIdentity → Text → AgentId
resolve_agent identity requested = elim identity.role [
  | agent ↦ or_else identity.agent_id requested
  | orchestrator ↦ requested
  | admin ↦ requested
]

-- `filter_map(|s| to_value(s).ok())`
unfoldable pub printable : {J : Type 0} → Codec J → List SecretMetadata → List J
printable c [] = []
printable c (m ∷ ms) = elim (c.print_metadata m) [
  | none ↦ printable c ms
  | some j ↦ j ∷ printable c ms
]

module _ {J KS SS AS : Type 0} (c : Codec J) (b : Backends KS SS AS) where
  -- What a handler answers, with the vault that it leaves.
  abbrev pub Answer : Type 0
  Answer = Response J × Vault KS SS AS

  -- `json_response!`
  unfoldable pub json_response :
      {A : Type 0} → (A → Option J) → Uuid → Result A × Vault KS SS AS → Answer
  json_response print id (err e, v) = (from_error id e, v)
  json_response print id (ok a, v) = elim (print a) [
    | none ↦ (protocol_error id code_invalid_request serialization_failed, v)
    | some j ↦ (success id j, v)
  ]

  -- The `return` of a request that is malformed.
  abbrev pub malformed : Uuid → Complaint → Vault KS SS AS → Answer
  malformed id complaint v = (protocol_error id code_invalid_request complaint, v)

  unfoldable pub on_store_secret : Env → Vault KS SS AS → Uuid → J → Text → Answer
  unfolding json_response
  on_store_secret env v id params peer = elim (c.store_params params) [
    | none ↦ malformed id invalid_params v
    | some req ↦ elim (c.base64_decode req.plaintext) [
      | none ↦ malformed id invalid_base64 v
      | some plaintext ↦ elim (c.kind_of req.kind) [
        | none ↦ malformed id invalid_kind v
        | some kind ↦
            json_response c.print_metadata id
              (store_secret b env v req.name plaintext kind req.description peer)
      ]
    ]
  ]

  unfoldable pub on_request_lease :
      Env → Vault KS SS AS → Uuid → J → Text → ConnectionIdentity → Answer
  unfolding json_response resolve_agent
  on_request_lease env v id params peer identity = elim (c.request_params params) [
    | none ↦ malformed id invalid_params v
    | some req ↦
        json_response c.print_grant id
          (request_lease b env v (resolve_agent identity req.agent) req.secret_name req.domain peer)
  ]

  unfoldable pub on_access_secret : Env → Vault KS SS AS → Uuid → J → Text → Answer
  unfolding json_response
  on_access_secret env v id params peer = elim (c.access_params params) [
    | none ↦ malformed id invalid_params v
    | some req ↦
        json_response (λ guard. c.print_secret (c.base64_encode guard.value)) id
          (access_secret b env v req.lease_id req.target_domain peer)
  ]

  unfoldable pub on_revoke_lease : Env → Vault KS SS AS → Uuid → J → Text → Answer
  unfolding json_response
  on_revoke_lease env v id params peer = elim (c.revoke_params params) [
    | none ↦ malformed id invalid_params v
    | some req ↦ elim (c.reason_of req.reason) [
      | none ↦ malformed id invalid_reason v
      | some reason ↦
          json_response (λ _. some c.empty_object) id
            (revoke_lease b env v req.lease_id reason peer)
    ]
  ]

  unfoldable pub on_revoke_all_for_agent :
      Env → Vault KS SS AS → Uuid → J → Text → ConnectionIdentity → Answer
  unfolding json_response resolve_agent
  on_revoke_all_for_agent env v id params peer identity = elim (c.revoke_all_params params) [
    | none ↦ malformed id invalid_params v
    | some requested ↦
        json_response c.print_count id
          (revoke_all_for_agent b env v (resolve_agent identity requested) peer)
  ]

  unfoldable pub on_list_secrets : Vault KS SS AS → Uuid → Answer
  unfolding json_response printable
  on_list_secrets v id =
      json_response (λ secrets. c.print_secrets (printable c secrets)) id (list_secrets b v, v)

  unfoldable pub on_renew_lease : Env → Vault KS SS AS → Uuid → J → Text → Answer
  unfolding json_response
  on_renew_lease env v id params peer = elim (c.renew_params params) [
    | none ↦ malformed id invalid_params v
    | some (lease_id, extension_secs) ↦
        json_response c.print_grant id (renew_lease b env v lease_id extension_secs peer)
  ]

  unfoldable pub on_delete_secret : Env → Vault KS SS AS → Uuid → J → Text → Answer
  unfolding json_response
  on_delete_secret env v id params peer = elim (c.delete_params params) [
    | none ↦ malformed id invalid_params v
    | some name ↦ json_response (λ _. some c.empty_object) id (delete_secret b env v name peer)
  ]

  -- The match on the method.
  unfoldable pub call_method : Env → Vault KS SS AS → Request J → Text → ConnectionIdentity → Answer
  unfolding on_store_secret on_request_lease on_access_secret on_revoke_lease
      on_revoke_all_for_agent on_list_secrets on_renew_lease on_delete_secret
  call_method env v request peer identity =
      if request.method == store_secret_method
      then on_store_secret env v request.id request.params peer
      else if request.method == request_lease_method
      then on_request_lease env v request.id request.params peer identity
      else if request.method == access_secret_method
      then on_access_secret env v request.id request.params peer
      else if request.method == revoke_lease_method
      then on_revoke_lease env v request.id request.params peer
      else if request.method == revoke_all_for_agent_method
      then on_revoke_all_for_agent env v request.id request.params peer identity
      else if request.method == list_secrets_method
      then on_list_secrets v request.id
      else if request.method == renew_lease_method
      then on_renew_lease env v request.id request.params peer
      else if request.method == delete_secret_method
      then on_delete_secret env v request.id request.params peer
      else malformed request.id (unknown_method request.method) v

  unfoldable pub dispatch : Env → Vault KS SS AS → Request J → Text → ConnectionIdentity → Answer
  unfolding is_refused call_method
  dispatch env v request peer identity =
      if is_refused request.method identity
      then (
        from_error request.id (
            access_denied (or_else identity.agent_id identity.label) request.method
              (codes "admin")),
        v,
      )
      else call_method env v request peer identity
