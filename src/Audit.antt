-- ===== src/Audit.antt =====
-- src/audit/mod.rs: audit events and entries, and the trait of the backends. A backend is a
-- parameter: a type of states and what `record` does to one.
use zerolease.Prelude.{ℕ, Option, none, some, List, Text, ℤ}
use zerolease.Types.Identity.{Uuid, AgentId, SecretName, DomainScope, LeaseId, SessionId}
use zerolease.Types.Time.{DateTime}
use zerolease.Types.Secrets.{RevocationReason}
use zerolease.Error.{Error, Message, Result}

-- The reason of a denial: an error as it prints, or a fixed text.
pub data Reason : Type 0 where
  of_error : Error → Reason
  tool_not_bound : Text → SecretName → DomainScope → Reason
  binding_denied explicit_revocation : Reason

pub data AuditEvent : Type 0 where
  lease_granted : LeaseId → SecretName → List DomainScope → ℤ → AuditEvent
  secret_accessed : LeaseId → SecretName → DomainScope → AuditEvent
  lease_revoked : LeaseId → RevocationReason → AuditEvent
  lease_renewed : LeaseId → ℤ → AuditEvent
  access_denied : SecretName → DomainScope → Reason → AuditEvent
  secret_stored : SecretName → AuditEvent
  secret_rotated : SecretName → ℕ → AuditEvent
  secret_deleted : SecretName → AuditEvent
  dek_rotated : AuditEvent
  policy_reloaded : ℕ → AuditEvent
  session_created : SessionId → Text → Text → ℤ → AuditEvent
  session_revoked : SessionId → Reason → ℕ → AuditEvent
  tool_binding_denied : SessionId → Text → SecretName → Reason → AuditEvent

pub data AuditOutcome : Type 0 where
  success : AuditOutcome
  denied : Reason → AuditOutcome
  error : Message → AuditOutcome

pub record AuditEntry : Type 0 where
  pub timestamp : DateTime
  pub event_id : Uuid
  pub event : AuditEvent
  pub agent : AgentId
  pub peer_identity : Text
  pub outcome : AuditOutcome

-- `AuditEntry::new`, with the reading of the clock and the id that the operation has next.
unfoldable pub entry_new : DateTime → Uuid → AuditEvent → AgentId → Text → AuditOutcome → AuditEntry
entry_new now id event agent peer outcome = record {
  timestamp = now;
  event_id = id;
  event = event;
  agent = agent;
  peer_identity = peer;
  outcome = outcome;
}

-- The names under which a backend indexes an event.
unfoldable pub indexed_fields : AuditEvent → Option Text × Option LeaseId
indexed_fields (lease_granted lease_id secret_name domains ttl) = (some secret_name, some lease_id)
indexed_fields (secret_accessed lease_id secret_name target) = (some secret_name, some lease_id)
indexed_fields (lease_revoked lease_id reason) = (none, some lease_id)
indexed_fields (lease_renewed lease_id extension) = (none, some lease_id)
indexed_fields (access_denied secret_name domain reason) = (some secret_name, none)
indexed_fields (secret_stored secret_name) = (some secret_name, none)
indexed_fields (secret_rotated secret_name version) = (some secret_name, none)
indexed_fields (secret_deleted secret_name) = (some secret_name, none)
indexed_fields dek_rotated = (none, none)
indexed_fields (policy_reloaded n) = (none, none)
indexed_fields (session_created session user channel duration) = (none, none)
indexed_fields (session_revoked session reason n) = (none, none)
indexed_fields (tool_binding_denied session tool secret_name reason) = (some secret_name, none)

-- `AuditLog`: the entry is kept, or the backend fails.
pub record AuditLog (AS : Type 0) : Type 0 where
  pub record_entry : AS → AuditEntry → Result (Unit {0}) × AS
