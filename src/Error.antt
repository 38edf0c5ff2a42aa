-- ===== src/Error.antt =====
-- src/error.rs: the one error type, and results. A message that the code formats is held by its
-- format string, a constructor of `Message`, with the values that are put in.
use zerolease.Prelude.{ℕ, Text, ℤ, ◌≡◌, refl, ◌⊎◌, inl, inr}
use zerolease.Types.Identity.{AgentId, DomainScope, LeaseId, SecretName, SessionId}

pub data Message : Type 0 where
  text : Text → Message
  not_renewable : LeaseId → Message
  extension_out_of_range : ℤ → Message
  agent_lease_cap : AgentId → ℕ → Message
  not_initialized : Message
  unknown_algorithm : Text → Message
  unknown_kind : Text → Message
  frame_too_large : ℕ → Message
  eof_frame_length eof_frame_payload : Message

pub data Error : Type 0 where
  lease_expired : LeaseId → Error
  lease_revoked : LeaseId → Error
  lease_not_found : LeaseId → Error
  access_denied : AgentId → SecretName → DomainScope → Error
  no_policy_for_agent : AgentId → Error
  session_not_found : Error
  session_expired : SessionId → Error
  session_revoked : SessionId → Error
  session_lease_limit_reached : SessionId → ℕ → Error
  renewal_limit_reached : LeaseId → ℕ → Error
  secret_not_found : SecretName → Error
  secret_already_exists : SecretName → Error
  encryption_failed : Error
  decryption_failed : Error
  key_source_unavailable : Message → Error
  storage : Message → Error
  transport : Message → Error
  invalid_config : Message → Error
  not_supported : Message → Error
  remote : Text → Text → Error

pub data Result {ℓ} (T : Type ℓ) : Type ℓ where
  ok : T → Result T
  err : Error → Result T

-- `?` on a result, with and without a use of the value.
abbrev pub ◌>>=◌ {ℓ κ} : {T : Type ℓ} {U : Type κ} → Result T → (T → Result U) → Result U
err e >>= next = err e
ok t >>= next = next t

infixl 5 ◌>>=◌
abbrev pub ◌>>◌ {κ} : {U : Type κ} → Result (Unit {0}) → Result U → Result U
err e >> rest = err e
ok _ >> rest = rest

infixl 5 ◌>>◌
pub Result-cases {ℓ} :
    {A : Type ℓ} (r : Result A) → ((a : A) × (r ≡ ok a)) ⊎ ((e : Error) × (r ≡ err e))
Result-cases (ok a) = inl (a, refl)
Result-cases (err e) = inr (e, refl)
