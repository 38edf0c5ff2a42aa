-- ===== src/Sqlite/AuditLog/Recording.antt =====
-- crates/zerolease-store-rusqlite/src/audit.rs: what `record` writes, `verify_audit_chain` accepts.
use zerolease.Prelude.{
  ◌≡◌, refl, ap, inl, inr, true, none, some, [], ◌∷◌, ◌++◌, Text, arith, length, ltb, Bool-cases,
  Option-cases,
}
use zerolease.Error.{ok}
use zerolease.Audit.{AuditEntry}
use zerolease.Sqlite.AuditLog.{
  AuditRow, AuditTable, Columns, text_le, place_row, by_timestamp, start, genesis_hash,
  verify_audit_chain, prev_hash_of, new_audit_row, record_audit, is_taken,
}
use zerolease.Sqlite.AuditLog.Chain.{
  Linked, end_of, verify_rows-Linked, last_hash-Linked, Linked-append,
}

-- The rows come in the order of their timestamps.
abbrev pub Ascending : AuditTable → Type 0
Ascending [] = Unit {0}
Ascending (r ∷ []) = Unit {0}
Ascending (r ∷ s ∷ rows) = (text_le r.timestamp s.timestamp ≡ true) × Ascending (s ∷ rows)

-- The last row, if there is one, is not later than the time.
abbrev pub NotAfter : AuditTable → Text → Type 0
NotAfter [] time = Unit {0}
NotAfter (r ∷ []) time = text_le r.timestamp time ≡ true
NotAfter (r ∷ s ∷ rows) time = NotAfter (s ∷ rows) time

by_timestamp-Ascending : (table : AuditTable) → Ascending table → by_timestamp table ≡ table
unfolding by_timestamp
by_timestamp-Ascending [] a = refl
by_timestamp-Ascending (r ∷ []) a = refl
by_timestamp-Ascending (r ∷ s ∷ rows) (le, a) =
    rw (by_timestamp-Ascending (s ∷ rows) a, le, place_row) refl

Ascending-append :
    (table : AuditTable) (r : AuditRow)
    → Ascending table
    → NotAfter table r.timestamp
    → Ascending (table ++ (r ∷ []))
Ascending-append [] r a n = tt
Ascending-append (s ∷ []) r a n = (n, tt)
Ascending-append (s ∷ t ∷ rows) r (le, a) n = (le, Ascending-append (t ∷ rows) r a n)

module _ (c : Columns) where
  -- The tables that calls of `record` make, the clock not going back.
  pub data Recorded : AuditTable → Type 0 where
    empty : Recorded []
    more :
        {table after : AuditTable} (entry : AuditEntry)
        → Recorded table
        → NotAfter table (c.print_time entry.timestamp)
        → record_audit c table entry ≡ (ok tt, after)
        → Recorded after

  abbrev IsChain : AuditTable → Type 0
  IsChain table = Ascending table × Linked c (genesis_hash c) table

  prev_hash_of-IsChain :
      (table : AuditTable) → IsChain table → prev_hash_of c table ≡ end_of c (genesis_hash c) table
  unfolding prev_hash_of
  prev_hash_of-IsChain table (a, l) =
      rw (by_timestamp-Ascending table a) (last_hash-Linked c (genesis_hash c) table l)

  new_audit_row-IsChain :
      (table : AuditTable) (entry : AuditEntry) (event outcome : Text)
      → NotAfter table (c.print_time entry.timestamp)
      → IsChain table
      → IsChain (table ++ (new_audit_row c table entry event outcome ∷ []))
  unfolding new_audit_row
  new_audit_row-IsChain table entry event outcome n (a, l) =
      let last = prev_hash_of-IsChain table (a, l) in
      (
        Ascending-append table (new_audit_row c table entry event outcome) a n,
        Linked-append c (genesis_hash c) table (new_audit_row c table entry event outcome) l
            (ap some last) (rw last refl),
      )

  -- What a successful `record` has done.
  pub record_audit-ok :
      (table after : AuditTable) (entry : AuditEntry)
      → record_audit c table entry ≡ (ok tt, after)
      → (event : Text) × (outcome : Text) × (after
          ≡ table ++ (new_audit_row c table entry event outcome ∷ []))
  unfolding record_audit
  record_audit-ok table after entry e = elim (Option-cases (c.print_event entry.event)) [
    | inl bad ↦ absurd (ground arith)
    | inr (event, p) ↦ elim (Option-cases (c.print_outcome entry.outcome)) [
      | inl bad ↦ absurd (ground arith)
      | inr (outcome, q) ↦ elim (Bool-cases (is_taken table (c.print_uuid entry.event_id))) [
        | inl taken ↦ absurd (ground arith)
        | inr free ↦ (event, outcome, ground arith)
      ]
    ]
  ]

  pub Recorded-IsChain : {table : AuditTable} → Recorded table → IsChain table
  Recorded-IsChain empty = (tt, tt)
  Recorded-IsChain (more {table} {after} entry before n e) =
      let (event, outcome, same) = record_audit-ok table after entry e in
      rw same (new_audit_row-IsChain table entry event outcome n (Recorded-IsChain before))

  -- A table that calls of `record` made, in which each timestamp prints to a text that is not
  -- less than the one before, passes the verification: every row is counted as verified, none
  -- as broken, and the chain is valid unless the table is empty.
  pub verify_audit_chain-Recorded :
      {table : AuditTable}
      → Recorded table
      → verify_audit_chain c table ≡ record {
        total_entries = length table;
        verified_entries = length table;
        first_broken_at = none;
        is_valid = ltb 0 (length table);
      }
  unfolding verify_audit_chain
  verify_audit_chain-Recorded {table} made =
      let (a, l) = Recorded-IsChain made in
      rw (by_timestamp-Ascending table a, verify_rows-Linked c (start (genesis_hash c)) table l)
        (ground arith)
