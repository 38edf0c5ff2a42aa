-- ===== src/Sqlite/AuditLog/Commitment.antt =====
-- crates/zerolease-store-rusqlite/src/audit.rs: what the last hash of a valid chain fixes, and the
-- columns that it does not cover.
use zerolease.Prelude.{
  ◌≡◌, ◌≢◌, refl, inl, inr, Option, [], ◌∷◌, ◌++◌, Text, map, text_eq, Bool-cases,
}
use zerolease.Sqlite.AuditLog.{
  AuditRow, AuditTable, Columns, text_le, place_row, by_timestamp, start, Progress, genesis_hash,
  verify_row, verify_rows, verify_audit_chain,
}

-- The columns of a row that the hash covers, as they stand in it.
abbrev pub content : AuditRow → Text
content r = r.event_id ++ (r.timestamp ++ (r.event ++ (r.agent ++ r.outcome)))

-- Two texts of one digest.
abbrev pub Collides : (Text → Text) → Type 0
Collides digest = (x : Text) × (y : Text) × (x ≢ y) × (digest x ≡ digest y)

-- A row with other values in the columns of the peer, the secret and the lease.
abbrev pub forged :
    (AuditRow → Text) → (AuditRow → Option Text) → (AuditRow → Option Text) → AuditRow → AuditRow
forged peer secret lease r = record r {
  peer_identity = peer r;
  secret_name = secret r;
  lease_id = lease r;
}

module _ (c : Columns) (peer : AuditRow → Text) (secret lease : AuditRow → Option Text) where
  place_row-forged :
      (r : AuditRow) (rows : AuditTable)
      → place_row (forged peer secret lease r) (map (forged peer secret lease) rows)
        ≡ map (forged peer secret lease) (place_row r rows)
  unfolding place_row
  place_row-forged r [] = refl
  place_row-forged r (s ∷ rows) = elim (Bool-cases (text_le r.timestamp s.timestamp)) [
    | inl before ↦ rw before refl
    | inr after ↦ rw (after, place_row-forged r rows) refl
  ]

  by_timestamp-forged :
      (table : AuditTable)
      → by_timestamp (map (forged peer secret lease) table)
        ≡ map (forged peer secret lease) (by_timestamp table)
  unfolding by_timestamp
  by_timestamp-forged [] = refl
  by_timestamp-forged (r ∷ rows) =
      rw (by_timestamp-forged rows) (place_row-forged r (by_timestamp rows))

  verify_rows-forged :
      (p : Progress) (rows : AuditTable)
      → verify_rows c p (map (forged peer secret lease) rows) ≡ verify_rows c p rows
  unfolding verify_rows verify_row
  verify_rows-forged p [] = refl
  verify_rows-forged p (r ∷ rows) = verify_rows-forged (verify_row c p r) rows

  -- The hash does not cover the peer, nor the names that the queries select by: whatever is
  -- written into these columns of the rows of a table, its verification is the same.
  pub verify_audit_chain-forged :
      (table : AuditTable)
      → verify_audit_chain c (map (forged peer secret lease) table) ≡ verify_audit_chain c table
  unfolding verify_audit_chain
  verify_audit_chain-forged table =
      rw
        (
          by_timestamp-forged table,
          verify_rows-forged (start (genesis_hash c)) (by_timestamp table),
        )
        refl
