-- ===== src/Protocol.antt =====
-- src/protocol/mod.rs: the messages of the wire protocol. The codec of the messages (serde_json) is
-- a parameter of the server.
pub mod Frame
use zerolease.Prelude.{ℕ, Bool, true, false, Option, none, some, Text, codes}
use zerolease.Types.Identity.{Uuid}
use zerolease.Error.{
  Error, lease_expired, lease_revoked, lease_not_found, access_denied, no_policy_for_agent,
  session_not_found, session_expired, session_revoked, session_lease_limit_reached,
  renewal_limit_reached, secret_not_found, secret_already_exists, encryption_failed,
  decryption_failed, key_source_unavailable, storage, transport, invalid_config, not_supported,
  remote,
}

abbrev pub protocol_name : Text
protocol_name = codes "zerolease"

abbrev pub current_version : ℕ
current_version = 1

pub record ClientHello : Type 0 where
  pub protocol : Text
  pub version : ℕ
  pub token : Option Text

-- The reasons that the code formats.
pub data Refusal : Type 0 where
  unknown_protocol : Text → Refusal
  unsupported_version : ℕ → Refusal

pub record ServerHello : Type 0 where
  pub protocol : Text
  pub version : ℕ
  pub accepted : Bool
  pub error : Option Refusal

unfoldable pub accept : ℕ → ServerHello
accept version = record {
  protocol = protocol_name;
  version = version;
  accepted = true;
  error = none;
}

unfoldable pub reject : Refusal → ServerHello
reject reason = record {
  protocol = protocol_name;
  version = current_version;
  accepted = false;
  error = some reason;
}

-- What the message of an error says: an error of the vault, or what was wrong with the request.
pub data Complaint : Type 0 where
  of_error : Error → Complaint
  frame_error : Error → Complaint
  invalid_request invalid_params invalid_base64 invalid_kind invalid_reason : Complaint
  serialization_failed : Complaint
  unknown_method : Text → Complaint

pub record ErrorPayload : Type 0 where
  pub code : Text
  pub message : Complaint

pub record Request (J : Type 0) : Type 0 where
  pub id : Uuid
  pub method : Text
  pub params : J

pub record Response (J : Type 0) : Type 0 where
  pub id : Uuid
  pub succeeded : Bool
  pub result : Option J
  pub error : Option ErrorPayload

unfoldable pub error_to_code : Error → Text
error_to_code (lease_expired _) = codes "lease_expired"
error_to_code (lease_revoked _) = codes "lease_revoked"
error_to_code (lease_not_found _) = codes "lease_not_found"
error_to_code (access_denied _ _ _) = codes "access_denied"
error_to_code (no_policy_for_agent _) = codes "no_policy_for_agent"
error_to_code (secret_not_found _) = codes "secret_not_found"
error_to_code (secret_already_exists _) = codes "secret_already_exists"
error_to_code encryption_failed = codes "encryption_failed"
error_to_code decryption_failed = codes "decryption_failed"
error_to_code (key_source_unavailable _) = codes "key_source_unavailable"
error_to_code (storage _) = codes "storage"
error_to_code (transport _) = codes "transport"
error_to_code (invalid_config _) = codes "invalid_config"
error_to_code (not_supported _) = codes "not_supported"
error_to_code (remote _ _) = codes "remote"
error_to_code session_not_found = codes "session_not_found"
error_to_code (session_expired _) = codes "session_expired"
error_to_code (session_revoked _) = codes "session_revoked"
error_to_code (session_lease_limit_reached _ _) = codes "session_lease_limit"
error_to_code (renewal_limit_reached _ _) = codes "renewal_limit_reached"

unfoldable pub error_to_payload : Error → ErrorPayload
unfolding error_to_code
error_to_payload e = record { code = error_to_code e; message = of_error e }

abbrev pub code_invalid_request : Text
code_invalid_request = codes "invalid_request"

module _ {J : Type 0} where
  unfoldable pub success : Uuid → J → Response J
  success id result = record { id = id; succeeded = true; result = some result; error = none }

  unfoldable pub from_error : Uuid → Error → Response J
  unfolding error_to_payload
  from_error id e = record {
    id = id;
    succeeded = false;
    result = none;
    error = some (error_to_payload e);
  }

  unfoldable pub protocol_error : Uuid → Text → Complaint → Response J
  protocol_error id code message = record {
    id = id;
    succeeded = false;
    result = none;
    error = some (record { code = code; message = message });
  }

-- The params of the methods, as their fields.
pub record StoreSecretRequest (J : Type 0) : Type 0 where
  pub name : Text
  pub plaintext : Text
  pub kind : J
  pub description : Option Text

pub record RequestLeaseRequest : Type 0 where
  pub agent : Text
  pub secret_name : Text
  pub domain : Text

pub record AccessSecretRequest : Type 0 where
  pub lease_id : Uuid
  pub target_domain : Text

pub record RevokeLeaseRequest (J : Type 0) : Type 0 where
  pub lease_id : Uuid
  pub reason : J
