-- ===== src/Sqlite/AuditLog.antt =====
-- crates/zerolease-store-rusqlite/src/audit.rs: the audit log in SQLite, as a table of rows in the
-- order of insertion, with its hash chain.
--
-- SQLite is modelled by what the statements do to a table of the schema in
-- sql/sqlite_audit_table.sql: event ids are unique, and rows of one timestamp come in the order of
-- their insertion. The crates that print and parse the columns, and SHA-256, are parameters.
-- Failures of the database itself, and the migration of its first schema, are not modelled.
pub mod Chain
pub mod Commitment
pub mod Queries
pub mod Latest
pub mod Answers
pub mod Recording
pub mod Tampering
use mathlib.Core.List.{reverse}
use zerolease.Prelude.{
  ℕ, zero, suc, ◌+◌, Bool, true, false, not, ◌&&◌, Option, none, some, List, [], ◌∷◌, ◌++◌, Text,
  codes, any, filter, take, ltb, ◌==◌, text_eq, nat_eq, if◌then◌else◌,
}
use zerolease.Types.Identity.{Uuid, AgentId, SecretName, LeaseId}
use zerolease.Types.Time.{DateTime}
use zerolease.Error.{Error, storage, text, Result, ok, err, ◌>>=◌}
use zerolease.Audit.{AuditEvent, AuditOutcome, AuditEntry, AuditLog, indexed_fields}

pub record AuditRow : Type 0 where
  pub event_id : Text
  pub timestamp : Text
  pub event : Text
  pub agent : Text
  pub peer_identity : Text
  pub outcome : Text
  pub secret_name : Option Text
  pub lease_id : Option Text
  pub prev_hash : Option Text
  pub entry_hash : Option Text

abbrev pub AuditTable : Type 0
AuditTable = List AuditRow

-- What the code asks of uuid, chrono, serde_json, sha2 and hex. `none` is an error.
pub record Columns : Type 0 where
  pub print_uuid : Uuid → Text
  pub parse_uuid : Text → Option Uuid
  pub print_time : DateTime → Text
  pub parse_time : Text → Option DateTime
  pub print_event : AuditEvent → Option Text
  pub parse_event : Text → Option AuditEvent
  pub print_outcome : AuditOutcome → Option Text
  pub parse_outcome : Text → Option AuditOutcome
  -- the digest in hex
  pub sha256 : Text → Text

-- Texts compare by their bytes.
unfoldable pub text_le : Text → Text → Bool
text_le [] t = true
text_le (c ∷ s) [] = false
text_le (c ∷ s) (d ∷ t) = if ltb c d then true else if c == d then text_le s t else false

-- `ORDER BY timestamp ASC`
unfoldable pub place_row : AuditRow → AuditTable → AuditTable
unfolding text_le
place_row r [] = r ∷ []
place_row r (s ∷ rows) =
    if text_le r.timestamp s.timestamp then r ∷ s ∷ rows else s ∷ place_row r rows

unfoldable pub by_timestamp : AuditTable → AuditTable
unfolding place_row
by_timestamp [] = []
by_timestamp (r ∷ rows) = place_row r (by_timestamp rows)

-- The hash of the last row that has one.
unfoldable pub last_hash : AuditTable → Option Text
last_hash [] = none
last_hash (r ∷ rows) = elim (last_hash rows) [ some h ↦ some h | none ↦ r.entry_hash ]

abbrev pub or_hash : Option Text → Text → Text
or_hash none h = h
or_hash (some g) h = g

pub record AuditChainVerification : Type 0 where
  pub total_entries : ℕ
  pub verified_entries : ℕ
  pub first_broken_at : Option Text
  pub is_valid : Bool

-- The variables of the walk over the rows.
pub record Progress : Type 0 where
  pub total : ℕ
  pub verified : ℕ
  pub first_broken : Option Text
  pub expected_prev_hash : Text

abbrev pub start : Text → Progress
start expected = record {
  total = 0;
  verified = 0;
  first_broken = none;
  expected_prev_hash = expected;
}

abbrev pub first_of : Option Text → Text → Option Text
first_of none id = some id
first_of (some first) id = some first

abbrev pub is_none : Option Text → Bool
is_none none = true
is_none (some _) = false

-- `== Some(value)` on a column that may be NULL
abbrev pub holds : Option Text → Text → Bool
holds none value = false
holds (some t) value = t == value

-- `as i64` of a limit; a negative limit is none.
unfoldable pub at_most : ℕ → AuditTable → AuditTable
at_most limit rows = if ltb limit 9223372036854775808 then take limit rows else rows

-- The primary key is there.
abbrev pub is_taken : AuditTable → Text → Bool
is_taken table id = any (λ r. r.event_id == id) table

module _ (c : Columns) where
  unfoldable pub genesis_hash : Text
  genesis_hash = c.sha256 (codes "sha256:zerolease-audit-genesis")

  unfoldable pub compute_entry_hash : Text → Text → Text → Text → Text → Text → Text
  compute_entry_hash prev_hash event_id timestamp event_json agent outcome_json =
      c.sha256 (prev_hash ++ (event_id ++ (timestamp ++ (event_json ++ (agent ++ outcome_json)))))

  -- The hash of a row's columns after another.
  abbrev pub hash_of : Text → AuditRow → Text
  hash_of prev_hash r =
      compute_entry_hash prev_hash r.event_id r.timestamp r.event r.agent r.outcome

  -- One round of the walk.
  unfoldable pub verify_row : Progress → AuditRow → Progress
  unfolding genesis_hash compute_entry_hash
  verify_row p r = elim r.prev_hash [
    | none ↦ record p { total = p.total + 1; expected_prev_hash = genesis_hash }
    | some stored_prev ↦ elim r.entry_hash [
      | none ↦ record p { total = p.total + 1; expected_prev_hash = genesis_hash }
      | some stored_hash ↦
          if not (stored_prev == p.expected_prev_hash)
          then (record p {
            total = p.total + 1;
            first_broken = first_of p.first_broken r.event_id;
            expected_prev_hash = stored_hash;
          })
          else if hash_of stored_prev r == stored_hash
          then (record p {
            total = p.total + 1;
            verified = p.verified + 1;
            expected_prev_hash = stored_hash;
          })
          else (record p {
            total = p.total + 1;
            first_broken = first_of p.first_broken r.event_id;
            expected_prev_hash = stored_hash;
          })
    ]
  ]

  unfoldable pub verify_rows : Progress → AuditTable → Progress
  unfolding verify_row
  verify_rows p [] = p
  verify_rows p (r ∷ rows) = verify_rows (verify_row p r) rows

  unfoldable pub verify_audit_chain : AuditTable → AuditChainVerification
  unfolding verify_rows by_timestamp genesis_hash
  verify_audit_chain table =
      let p = verify_rows (start genesis_hash) (by_timestamp table) in
      record {
        total_entries = p.total;
        verified_entries = p.verified;
        first_broken_at = p.first_broken;
        is_valid = is_none p.first_broken && ltb 0 p.total;
      }

  -- `query_row(…).unwrap_or_else(|_| genesis_hash())`
  unfoldable pub prev_hash_of : AuditTable → Text
  unfolding by_timestamp last_hash genesis_hash
  prev_hash_of table = or_hash (last_hash (by_timestamp table)) genesis_hash

  abbrev pub print_lease : Option LeaseId → Option Text
  print_lease none = none
  print_lease (some id) = some (c.print_uuid id)

  -- The row of an entry whose event and outcome print so.
  unfoldable pub new_audit_row : AuditTable → AuditEntry → Text → Text → AuditRow
  unfolding prev_hash_of compute_entry_hash indexed_fields
  new_audit_row table entry event outcome = record {
    event_id = c.print_uuid entry.event_id;
    timestamp = c.print_time entry.timestamp;
    event = event;
    agent = entry.agent;
    peer_identity = entry.peer_identity;
    outcome = outcome;
    secret_name = (indexed_fields entry.event).0;
    lease_id = print_lease (indexed_fields entry.event).1;
    prev_hash = some (prev_hash_of table);
    entry_hash = some (
        compute_entry_hash (prev_hash_of table) (c.print_uuid entry.event_id)
          (c.print_time entry.timestamp) event entry.agent outcome);
  }

  unfoldable pub record_audit : AuditTable → AuditEntry → Result (Unit {0}) × AuditTable
  unfolding new_audit_row
  record_audit table entry = elim (c.print_event entry.event) [
    | none ↦ (err (storage (text (codes "failed to serialize event"))), table)
    | some event ↦ elim (c.print_outcome entry.outcome) [
      | none ↦ (err (storage (text (codes "failed to serialize outcome"))), table)
      | some outcome ↦
          if is_taken table (c.print_uuid entry.event_id)
          then (err (storage (text (codes "failed to insert audit event"))), table)
          else (ok tt, table ++ (new_audit_row table entry event outcome ∷ []))
    ]
  ]

  -- The log as the vault sees it.
  abbrev pub rusqlite_audit : AuditLog AuditTable
  rusqlite_audit = record { record_entry = record_audit }
