-- ===== src/Provider.antt =====
-- crates/zerolease-provider/src: credentials for tools. The provider's calls of a vault
-- over a fresh connection are an interface, the channel to the task that revokes is the
-- list of what waits in it, and dropping a guard is an operation of its own.
pub mod Revoked
use zerolease.Prelude.{
  ℕ, Bool, true, false, Option, none, some, List, [], ◌∷◌, ◌++◌, Text, codes, ltb, length, text_eq,
  from_utf8, if◌then◌else◌,
}
use zerolease.Types.Identity.{AgentId, DomainScope, SecretName, SessionToken, Uuid}
use zerolease.Types.Secrets.{Bytes, LeaseGrant, RevocationReason, admin_revoked}
use zerolease.Error.{Error, Result, ok, err}
use zerolease.Map.{Map, get, insert}
use zerolease.Agent.Provision.{VaultCalls}

pub record ToolRequest : Type 0 where
  pub secret_name : SecretName
  pub target_domain : DomainScope
  pub agent_id : AgentId
  pub session_token : Option SessionToken
  pub tool_name : Option Text

pub data ProviderError : Type 0 where
  unavailable_error : Error → ProviderError
  no_such_secret : Text → ProviderError
  connection_failed : Error → ProviderError
  invalid_utf8 : ProviderError

-- A guard, with whether it has a channel to revoke by.
pub record CredentialGuard : Type 0 where
  pub secret : Text
  pub lease_id : Uuid
  pub target_domain : DomainScope
  pub revoke_tx : Bool

-- Either what was acquired or the error
pub data Acquired : Type 0 where
  acquired : CredentialGuard → Acquired
  refused : ProviderError → Acquired

abbrev pub channel_capacity : ℕ
channel_capacity = 64

-- `try_send` on a channel whose other end is there
unfoldable pub try_send : List Uuid → Uuid → List Uuid
try_send waiting id =
    if ltb (length waiting) channel_capacity then waiting ++ (id ∷ []) else waiting

-- `drop`, on the ids that wait in the channel
unfoldable pub drop_guard : CredentialGuard → List Uuid → List Uuid
unfolding try_send
drop_guard guard waiting = if guard.revoke_tx then try_send waiting guard.lease_id else waiting

unfoldable pub expose : {R : Type 0} → CredentialGuard → (Text → R) → R
expose guard f = f guard.secret

module _ {S : Type 0} (connect : S → Result (Unit {0}) × S) (calls : VaultCalls S) where
  -- After the lease was granted.
  unfoldable pub access_granted : ToolRequest → LeaseGrant → S → Acquired × S
  access_granted request grant s =
      let (secret, after) = calls.access_secret s grant.lease_id request.target_domain in
      elim secret [
        | err e ↦ (refused (unavailable_error e), after)
        | ok secret_bytes ↦ elim (from_utf8 secret_bytes) [
          | none ↦ (refused invalid_utf8, after)
          | some secret_str ↦ (
            acquired (record {
              secret = secret_str;
              lease_id = grant.lease_id;
              target_domain = request.target_domain;
              revoke_tx = true;
            }),
            after,
          )
        ]
      ]

  unfoldable pub acquire : ToolRequest → S → Acquired × S
  unfolding access_granted
  acquire request s =
      let (connected, s') = connect s in
      elim connected [
        | err e ↦ (refused (connection_failed e), s')
        | ok _ ↦
            let (granted, s'') =
              calls.request_lease s' request.agent_id request.secret_name request.target_domain in
            elim granted [
              | err e ↦ (refused (unavailable_error e), s'')
              | ok grant ↦ access_granted request grant s''
            ]
      ]

  -- One round of the worker: a connection and a call, whose errors are only logged.
  unfoldable pub revoke_one : Uuid → S → S
  revoke_one id s =
      let (connected, s') = connect s in
      elim connected [ err _ ↦ s' | ok _ ↦ (calls.revoke_lease s' id admin_revoked).1 ]

  -- The worker, until nothing waits
  unfoldable pub revocation_worker : List Uuid → S → S
  unfolding revoke_one
  revocation_worker [] s = s
  revocation_worker (id ∷ waiting) s = revocation_worker waiting (revoke_one id s)

-- The provider for tests
abbrev pub Credentials : Type 0
Credentials = Map SecretName Text

unfoldable pub static_insert : Credentials → SecretName → Text → Credentials
static_insert credentials name value = insert credentials name value

unfoldable pub static_acquire : Credentials → ToolRequest → Uuid → Acquired
static_acquire credentials request id = elim (get credentials request.secret_name) [
  | none ↦ refused (no_such_secret request.secret_name)
  | some secret ↦ acquired (record {
    secret = secret;
    lease_id = id;
    target_domain = request.target_domain;
    revoke_tx = false;
  })
]
