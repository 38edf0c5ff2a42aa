-- ===== src/Sqlite/AuditLog/Tampering.antt =====
-- crates/zerolease-store-rusqlite/src/audit.rs: what the verification of the hash chain detects.
use zerolease.Prelude.{
  suc, ◌+◌, ◌<◌, ◌≡◌, ◌≢◌, refl, sym, ap, ◌∙◌, ◌↔◌, inl, inr, true, Option, none, some, [], ◌∷◌,
  Text, arith, length, ◌==◌, text_eq, text_beq_iff, Bool-cases, Option-cases,
}
use zerolease.Sqlite.AuditLog.{
  AuditRow, AuditTable, Columns, Progress, text_le, start, place_row, by_timestamp, is_none,
  genesis_hash, hash_of, verify_row, verify_rows, verify_audit_chain,
}
use zerolease.Sqlite.AuditLog.Chain.{verify_row-linked, Linked, verify_rows-Linked}

-- Every row has both hashes.
abbrev pub Hashed : AuditTable → Type 0
Hashed [] = Unit {0}
Hashed (r ∷ rows) = (r.prev_hash ≢ none) × ((r.entry_hash ≢ none) × Hashed rows)

length-pos : (table : AuditTable) → table ≢ [] → 0 < length table
length-pos [] ne = absurd (ne refl)
length-pos (r ∷ rows) ne = omega arith

is_none_sound : (o : Option Text) → is_none o ≡ true → o ≡ none
is_none_sound none e = refl
is_none_sound (some t) e = absurd (ground arith)

length-place_row :
    (r : AuditRow) (rows : AuditTable) → length (place_row r rows) ≡ suc (length rows)
unfolding place_row
length-place_row r [] = refl
length-place_row r (s ∷ rows) = ground (arith, length-place_row r rows)

pub length-by_timestamp : (table : AuditTable) → length (by_timestamp table) ≡ length table
unfolding by_timestamp
length-by_timestamp [] = refl
length-by_timestamp (r ∷ rows) =
    length-place_row r (by_timestamp rows) ∙ ap suc (length-by_timestamp rows)

place_row-Hashed :
    (r : AuditRow) (rows : AuditTable)
    → r.prev_hash ≢ none
    → r.entry_hash ≢ none
    → Hashed rows
    → Hashed (place_row r rows)
unfolding place_row
place_row-Hashed r [] p h rest = (p, (h, tt))
place_row-Hashed r (s ∷ rows) p h (q, (k, rest)) =
    elim (Bool-cases (text_le r.timestamp s.timestamp)) [
      | inl before ↦ rw before (p, (h, (q, (k, rest))))
      | inr after ↦ rw after (q, (k, place_row-Hashed r rows p h rest))
    ]

by_timestamp-Hashed : (table : AuditTable) → Hashed table → Hashed (by_timestamp table)
unfolding by_timestamp
by_timestamp-Hashed [] h = tt
by_timestamp-Hashed (r ∷ rows) (p, (h, rest)) =
    place_row-Hashed r (by_timestamp rows) p h (by_timestamp-Hashed rows rest)

module _ (c : Columns) where
  -- A round that leaves no break found none before, and met the next link.
  verify_row_sound :
      (p : Progress) (r : AuditRow)
      → r.prev_hash ≢ none
      → r.entry_hash ≢ none
      → (verify_row c p r).first_broken ≡ none
      → (p.first_broken ≡ none)
        × ((r.prev_hash ≡ some p.expected_prev_hash)
            × (r.entry_hash ≡ some (hash_of c p.expected_prev_hash r)))
  unfolding verify_row
  verify_row_sound p r np nh e = elim (Option-cases r.prev_hash) [
    | inl missing ↦ absurd (np missing)
    | inr (prev, has_prev) ↦ elim (Option-cases r.entry_hash) [
      | inl missing ↦ absurd (nh missing)
      | inr (hash, has_hash) ↦ elim (Bool-cases (prev == p.expected_prev_hash)) [
        | inr wrong ↦ absurd (ground arith)
        | inl right ↦
            let same : prev ≡ p.expected_prev_hash = (text_beq_iff _ _).0 right in
            elim (Bool-cases (hash_of c prev r == hash)) [
              | inr wrong ↦ absurd (ground arith)
              | inl good ↦
                  let equal : hash_of c prev r ≡ hash = (text_beq_iff _ _).0 good in
                  (
                    ground arith,
                    (
                      has_prev ∙ ap some same,
                      has_hash ∙ ap some (sym equal ∙ ap (λ x. hash_of c x r) same),
                    ),
                  )
            ]
      ]
    ]
  ]

  verify_row-kept :
      (p : Progress) (r : AuditRow) → (verify_row c p r).first_broken ≡ none → p.first_broken ≡ none
  unfolding verify_row
  verify_row-kept p r e = ground arith

  verify_rows-kept :
      (p : Progress) (rows : AuditTable)
      → (verify_rows c p rows).first_broken ≡ none
      → p.first_broken ≡ none
  unfolding verify_rows
  verify_rows-kept p [] e = e
  verify_rows-kept p (r ∷ rows) e = verify_row-kept p r (verify_rows-kept (verify_row c p r) rows e)

  verify_rows_sound :
      (p : Progress) (rows : AuditTable)
      → Hashed rows
      → (verify_rows c p rows).first_broken ≡ none
      → Linked c p.expected_prev_hash rows
  unfolding verify_rows
  verify_rows_sound p [] h e = tt
  verify_rows_sound p (r ∷ rows) (np, (nh, h)) e =
      let (none_before, (prev, hash)) =
        verify_row_sound p r np nh (verify_rows-kept (verify_row c p r) rows e) in
      let l = verify_rows_sound (verify_row c p r) rows h e in
      (prev, (hash, rw (verify_row-linked c p r prev hash) at l))

  verify_rows-total :
      (p : Progress) (rows : AuditTable) → (verify_rows c p rows).total ≡ p.total + length rows
  unfolding verify_rows verify_row
  verify_rows-total p [] = omega arith
  verify_rows-total p (r ∷ rows) =
      let ih = verify_rows-total (verify_row c p r) rows in
      let step : (verify_row c p r).total ≡ p.total + 1 = ground arith in omega arith

  -- In a table whose rows all have their hashes, the chain is valid exactly when there is a row
  -- and, in the order of the timestamps, the first row links to the genesis hash and every
  -- other row to the hash of the row before it, each with the hash of its own columns.
  pub verify_audit_chain_iff :
      (table : AuditTable)
      → Hashed table
      → ((verify_audit_chain c table).is_valid ≡ true)
        ↔ ((table ≢ []) × Linked c (genesis_hash c) (by_timestamp table))
  unfolding verify_audit_chain
  verify_audit_chain_iff table h =
      let rows = by_timestamp table in
      let total = verify_rows-total (start (genesis_hash c)) rows in
      let len = length-by_timestamp table in
      (
        λ valid. (
          λ empty. absurd (let none_left = ap length empty in ground arith),
          verify_rows_sound (start (genesis_hash c)) rows (by_timestamp-Hashed table h)
              (is_none_sound _ (ground arith)),
        ),
        λ (ne, l).
            rw (verify_rows-Linked c (start (genesis_hash c)) rows l)
              (ground (arith, length-pos table ne)),
      )
