-- ===== src/Tests/AuditLogs.antt =====
-- The theorems on the audit log in SQLite, at concrete inputs.
use zerolease.Prelude.{
  ℕ, ◌≡◌, ◌≢◌, ◌↔◌, refl, true, none, some, [], ◌∷◌, codes, map, pos, arith, length, any, text_beq,
}
use zerolease.Audit.{AuditEntry, dek_rotated, success, indexed_fields}
use zerolease.Sqlite.AuditLog.{
  AuditTable, Columns, verify_audit_chain, by_timestamp, place_row, text_le, last_hash,
  genesis_hash, compute_entry_hash, record_audit, new_audit_row, prev_hash_of,
}
use zerolease.Sqlite.AuditLog.Chain.{Linked}
use zerolease.Sqlite.AuditLog.Recording.{Recorded, empty, more, verify_audit_chain-Recorded}
use zerolease.Sqlite.AuditLog.Tampering.{Hashed, verify_audit_chain_iff}
use zerolease.Sqlite.AuditLog.Commitment.{forged, verify_audit_chain-forged}

-- Every event is printed as one byte, and a digest is the length of its text.
abbrev columns : Columns
columns = record {
  print_uuid = λ id. id ∷ [];
  parse_uuid = λ t. none;
  print_time = λ t. 7 ∷ [];
  parse_time = λ t. none;
  print_event = λ e. some (1 ∷ []);
  parse_event = λ t. none;
  print_outcome = λ o. some (2 ∷ []);
  parse_outcome = λ t. none;
  sha256 = λ t. length t ∷ [];
}

abbrev entry : ℕ → AuditEntry
entry id = record {
  timestamp = pos 5;
  event_id = id;
  event = dek_rotated;
  agent = codes "vault";
  peer_identity = codes "uid=0";
  outcome = success;
}

abbrev one : AuditTable
unfolding new_audit_row
one = new_audit_row columns [] (entry 1) (1 ∷ []) (2 ∷ []) ∷ []

abbrev two : AuditTable
unfolding new_audit_row
two =
    new_audit_row columns [] (entry 1) (1 ∷ []) (2 ∷ [])
    ∷ new_audit_row columns one (entry 2) (1 ∷ []) (2 ∷ [])
    ∷ []

two-Recorded : Recorded columns two
unfolding record_audit new_audit_row prev_hash_of by_timestamp place_row text_le last_hash
    genesis_hash compute_entry_hash indexed_fields any text_beq
two-Recorded = more (entry 2) (more (entry 1) empty tt refl) refl refl

verify_audit_chain-Recorded_example :
    verify_audit_chain columns two
    ≡ record { total_entries = 2; verified_entries = 2; first_broken_at = none; is_valid = true }
unfolding new_audit_row
verify_audit_chain-Recorded_example = verify_audit_chain-Recorded columns {table = two} two-Recorded

two-Hashed : Hashed two
unfolding new_audit_row
two-Hashed = (
  λ e. absurd (ground arith),
  (λ e. absurd (ground arith), (λ e. absurd (ground arith), (λ e. absurd (ground arith), tt))),
)

verify_audit_chain_iff_example :
    ((verify_audit_chain columns two).is_valid ≡ true)
    ↔ ((two ≢ []) × Linked columns (genesis_hash columns) (by_timestamp two))
verify_audit_chain_iff_example = verify_audit_chain_iff columns two two-Hashed

verify_audit_chain-forged_example :
    verify_audit_chain columns (map (forged (λ r. codes "uid=1") (λ r. none) (λ r. none)) two)
    ≡ verify_audit_chain columns two
verify_audit_chain-forged_example =
    verify_audit_chain-forged columns (λ r. codes "uid=1") (λ r. none) (λ r. none) two
