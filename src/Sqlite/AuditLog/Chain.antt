-- ===== src/Sqlite/AuditLog/Chain.antt =====
-- crates/zerolease-store-rusqlite/src/audit.rs: what the verification of the hash chain accepts.
use zerolease.Prelude.{
  ◌+◌, ◌≡◌, refl, ◌∙◌, inl, inr, some, [], ◌∷◌, ◌++◌, Text, arith, length, text_eq, text_beq_iff,
  Option-cases,
}
use zerolease.Sqlite.AuditLog.{
  AuditRow, AuditTable, Columns, Progress, last_hash, or_hash, hash_of, verify_row, verify_rows,
}

module _ (c : Columns) where
  -- Each row holds the hash before it, and its own.
  abbrev pub Linked : Text → AuditTable → Type 0
  Linked prev [] = Unit {0}
  Linked prev (r ∷ rows) =
      (r.prev_hash ≡ some prev)
      × ((r.entry_hash ≡ some (hash_of c prev r)) × Linked (hash_of c prev r) rows)

  -- The hash of the last row, or the one before all.
  abbrev pub end_of : Text → AuditTable → Text
  end_of prev [] = prev
  end_of prev (r ∷ rows) = end_of (hash_of c prev r) rows

  pub verify_row-linked :
      (p : Progress) (r : AuditRow)
      → r.prev_hash ≡ some p.expected_prev_hash
      → r.entry_hash ≡ some (hash_of c p.expected_prev_hash r)
      → verify_row c p r ≡ record p {
        total = p.total + 1;
        verified = p.verified + 1;
        expected_prev_hash = hash_of c p.expected_prev_hash r;
      }
  unfolding verify_row
  verify_row-linked p r e h =
      let same = (text_beq_iff p.expected_prev_hash p.expected_prev_hash).1 refl in
      let equal =
        (text_beq_iff (hash_of c p.expected_prev_hash r) (hash_of c p.expected_prev_hash r)).1
          refl in
      rw (e, h, same, equal, verify_row) refl

  pub verify_rows-Linked :
      (p : Progress) (rows : AuditTable)
      → Linked p.expected_prev_hash rows
      → verify_rows c p rows ≡ record p {
        total = p.total + length rows;
        verified = p.verified + length rows;
        expected_prev_hash = end_of p.expected_prev_hash rows;
      }
  unfolding verify_rows
  verify_rows-Linked p [] l = ground arith
  verify_rows-Linked p (r ∷ rows) (e, (h, l)) =
      let ih = verify_rows-Linked (verify_row c p r) rows (rw (verify_row-linked p r e h) l) in
      ih ∙ (rw (verify_row-linked p r e h) (ground arith))

  pub last_hash-Linked :
      (prev : Text) (rows : AuditTable)
      → Linked prev rows
      → or_hash (last_hash rows) prev ≡ end_of prev rows
  unfolding last_hash
  last_hash-Linked prev [] l = refl
  last_hash-Linked prev (r ∷ rows) (e, (h, l)) =
      let ih = last_hash-Linked (hash_of c prev r) rows l in
      elim (Option-cases (last_hash rows)) [
        | inl end ↦ rw (end, h) (rw end at ih)
        | inr (g, found) ↦ rw found (rw found at ih)
      ]

  pub Linked-append :
      (prev : Text) (rows : AuditTable) (r : AuditRow)
      → Linked prev rows
      → r.prev_hash ≡ some (end_of prev rows)
      → r.entry_hash ≡ some (hash_of c (end_of prev rows) r)
      → Linked prev (rows ++ (r ∷ []))
  Linked-append prev [] r l e h = (e, (h, tt))
  Linked-append prev (s ∷ rows) r (f, (g, l)) e h =
      (f, (g, Linked-append (hash_of c prev s) rows r l e h))
