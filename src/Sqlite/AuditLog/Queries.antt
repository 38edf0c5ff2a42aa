-- ===== src/Sqlite/AuditLog/Queries.antt =====
-- crates/zerolease-store-rusqlite/src/audit.rs: the queries of the log.
use zerolease.Prelude.{
  ℕ, Bool, Option, none, some, List, [], ◌∷◌, Text, codes, filter, ◌==◌, text_eq, nat_eq,
  if◌then◌else◌,
}
use zerolease.Types.Identity.{AgentId, SecretName, LeaseId}
use zerolease.Error.{storage, text, Result, ok, err, ◌>>=◌}
use zerolease.Audit.{AuditEntry}
use zerolease.Sqlite.AuditLog.{AuditRow, AuditTable, Columns, text_le, at_most, holds}

module _ {A : Type 0} (key : A → Text) where
  -- A row goes before those that are not later than it.
  unfoldable pub place_latest : A → List A → List A
  place_latest a [] = a ∷ []
  place_latest a (s ∷ rest) =
      if text_le (key s) (key a) then a ∷ s ∷ rest else s ∷ place_latest a rest

  -- `ORDER BY timestamp DESC` of rows that an index on another column selects: rows of the same
  -- time keep the order of the index, in which they were inserted.
  unfoldable pub newest_first : List A → List A
  unfolding place_latest
  newest_first [] = []
  newest_first (a ∷ rest) = place_latest a (newest_first rest)

module _ (c : Columns) where
  -- A column that parses, or the error of the message.
  abbrev pub parsed : {A : Type 0} → Text → Option A → Result A
  parsed message none = err (storage (text message))
  parsed message (some a) = ok a

  unfoldable pub row_to_audit_entry : AuditRow → Result AuditEntry
  row_to_audit_entry r = parsed (codes "invalid event_id") (c.parse_uuid r.event_id) >>= λ event_id.
      parsed (codes "invalid timestamp") (c.parse_time r.timestamp) >>= λ timestamp.
      parsed (codes "invalid event JSON") (c.parse_event r.event) >>= λ event.
      parsed (codes "invalid outcome JSON") (c.parse_outcome r.outcome) >>= λ outcome. ok (record {
        timestamp = timestamp;
        event_id = event_id;
        event = event;
        agent = r.agent;
        peer_identity = r.peer_identity;
        outcome = outcome;
      })

  -- `query_rows`: the entries of the rows, or the error of the first that is malformed.
  unfoldable pub query_rows : AuditTable → Result (List AuditEntry)
  unfolding row_to_audit_entry
  query_rows [] = ok []
  query_rows (r ∷ rows) = elim (row_to_audit_entry r) [
    | err _ ↦ err (storage (text (codes "row extraction failed")))
    | ok entry ↦ query_rows rows >>= λ entries. ok (entry ∷ entries)
  ]

  -- `WHERE … ORDER BY timestamp DESC`
  abbrev pub latest_first : (AuditRow → Bool) → AuditTable → AuditTable
  latest_first p table = newest_first (λ r. r.timestamp) (filter p table)

  unfoldable pub query_by_agent : AuditTable → AgentId → ℕ → Result (List AuditEntry)
  unfolding query_rows newest_first filter at_most
  query_by_agent table agent limit =
      query_rows (at_most limit (latest_first (λ r. r.agent == agent) table))

  unfoldable pub query_by_secret : AuditTable → SecretName → ℕ → Result (List AuditEntry)
  unfolding query_rows newest_first filter at_most
  query_by_secret table secret limit =
      query_rows (at_most limit (latest_first (λ r. holds r.secret_name secret) table))

  unfoldable pub query_by_lease : AuditTable → LeaseId → Result (List AuditEntry)
  unfolding query_rows newest_first filter
  query_by_lease table lease =
      query_rows (latest_first (λ r. holds r.lease_id (c.print_uuid lease)) table)
