-- ===== src/Tests/LogQueries.antt =====
-- The theorem on the queries of the audit log, at a concrete input.
use zerolease.Prelude.{
  ℕ, refl, Option, none, some, [], ◌∷◌, Text, codes, pos, any, text_beq, length,
}
use zerolease.Audit.{
  AuditEvent, AuditOutcome, AuditEntry, lease_renewed, dek_rotated, success, indexed_fields,
}
use zerolease.Sqlite.AuditLog.{
  AuditTable, Columns, record_audit, new_audit_row, prev_hash_of, by_timestamp, place_row, text_le,
  last_hash, genesis_hash, compute_entry_hash,
}
use zerolease.Sqlite.AuditLog.Recording.{Recorded, empty, more}
use zerolease.Tests.Aws.{print_instant, read_instant, version_of}

-- Renewals and rotations are printed, and no other events.
abbrev print_event : AuditEvent → Option Text
print_event (lease_renewed id (pos n)) = some (id ∷ n ∷ [])
print_event dek_rotated = some []
print_event _ = none

abbrev parse_event : Text → Option AuditEvent
parse_event [] = some dek_rotated
parse_event (id ∷ n ∷ []) = some (lease_renewed id (pos n))
parse_event _ = none

abbrev print_outcome : AuditOutcome → Option Text
print_outcome success = some []
print_outcome _ = none

abbrev columns : Columns
columns = record {
  print_uuid = λ id. id ∷ [];
  parse_uuid = version_of;
  print_time = λ t. print_instant t [];
  parse_time = λ t. read_instant t (λ d k. some d);
  print_event = print_event;
  parse_event = parse_event;
  print_outcome = print_outcome;
  parse_outcome = λ t. some success;
  sha256 = λ t. length t ∷ [];
}

abbrev entry : ℕ → ℕ → AuditEvent → AuditEntry
entry id time event = record {
  timestamp = pos time;
  event_id = id;
  event = event;
  agent = codes "ci";
  peer_identity = codes "uid=0";
  outcome = success;
}

abbrev one : AuditTable
unfolding new_audit_row
one = new_audit_row columns [] (entry 1 5 (lease_renewed 20 (pos 60))) (20 ∷ 60 ∷ []) [] ∷ []

abbrev two : AuditTable
unfolding new_audit_row
two =
    new_audit_row columns [] (entry 1 5 (lease_renewed 20 (pos 60))) (20 ∷ 60 ∷ []) []
    ∷ new_audit_row columns one (entry 2 5 (lease_renewed 20 (pos 90))) (20 ∷ 90 ∷ []) []
    ∷ []

abbrev two_recorded : Recorded columns two
unfolding record_audit new_audit_row prev_hash_of by_timestamp place_row text_le last_hash
    genesis_hash compute_entry_hash indexed_fields any text_beq
two_recorded =
    more (entry 2 5 (lease_renewed 20 (pos 90)))
      (more (entry 1 5 (lease_renewed 20 (pos 60))) empty tt refl) refl refl
