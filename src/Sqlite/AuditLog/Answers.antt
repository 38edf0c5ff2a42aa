-- ===== src/Sqlite/AuditLog/Answers.antt =====
-- crates/zerolease-store-rusqlite/src/audit.rs: what the query by lease answers on a log
-- that calls of `record` wrote.
use zerolease.Prelude.{
  ◌≡◌, Bool, false, Option, none, some, List, [], ◌∷◌, ◌++◌, Text, ◌==◌, text_eq, nat_eq,
}
use zerolease.Types.Identity.{Uuid, LeaseId}
use zerolease.Types.Time.{DateTime}
use zerolease.Error.{ok}
use zerolease.Audit.{AuditEvent, AuditOutcome, AuditEntry, indexed_fields}
use zerolease.Sqlite.AuditLog.{AuditRow, AuditTable, Columns, print_lease}
use zerolease.Sqlite.AuditLog.Queries.{row_to_audit_entry}
use zerolease.Sqlite.AuditLog.Recording.{Recorded, empty, more}

-- What is printed is parsed back.
pub record AreColumns (c : Columns) : Type 0 where
  pub uuids : (u : Uuid) → c.parse_uuid (c.print_uuid u) ≡ some u
  pub times : (t : DateTime) → c.parse_time (c.print_time t) ≡ some t
  pub events : (e : AuditEvent) (t : Text) → c.print_event e ≡ some t → c.parse_event t ≡ some e
  pub outcomes :
      (o : AuditOutcome) (t : Text) → c.print_outcome o ≡ some t → c.parse_outcome t ≡ some o

abbrev pub is_lease : LeaseId → Option LeaseId → Bool
is_lease lease none = false
is_lease lease (some id) = id == lease

-- The entry is about the lease.
abbrev pub is_about : LeaseId → AuditEntry → Bool
is_about lease entry = is_lease lease (indexed_fields entry.event).1

abbrev pub printed_time : Columns → AuditEntry → Text
printed_time c e = c.print_time e.timestamp

module _ (c : Columns) (sound : AreColumns c) where
  -- The rows hold the entries.
  pub data Logged : List AuditEntry → AuditTable → Type 0 where
    nothing : Logged [] []
    row :
        (e : AuditEntry) (r : AuditRow) (es : List AuditEntry) (rows : AuditTable)
        → row_to_audit_entry c r ≡ ok e
        → r.lease_id ≡ print_lease c (indexed_fields e.event).1
        → r.timestamp ≡ printed_time c e
        → Logged es rows
        → Logged (e ∷ es) (r ∷ rows)

  -- The entries that were recorded, in their order.
  abbrev pub entries : {table : AuditTable} → Recorded c table → List AuditEntry
  entries empty = []
  entries (more entry before n e) = entries before ++ (entry ∷ [])
