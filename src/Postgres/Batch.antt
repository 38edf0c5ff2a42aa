-- ===== src/Postgres/Batch.antt =====
-- crates/zerolease-store-postgres/src/store.rs: a batch is whole or nothing.
use zerolease.Prelude.{
  ℕ, ◌+◌, ◌≡◌, refl, ap, ◌∙◌, inl, inr, Option, none, some, List, [], ◌∷◌, arith, leb, ◌==◌,
  text_eq, text_beq_iff, if◌then◌else◌, find, Bool-cases, Option-cases, Text, codes,
}
use zerolease.Types.Identity.{SecretName}
use zerolease.Types.Time.{DateTime}
use zerolease.Error.{Result, ok, err, Result-cases}
use zerolease.Env.{Env}
use zerolease.Store.{StoredSecret, BatchUpdateItem}
use zerolease.Store.Names.{parse_cipher_algorithm-algorithm_as_str}
use zerolease.Sqlite.{Table, Row, row_of}
use zerolease.Postgres.{
  get, read_row, row_to_stored_secret, update_row, update_rows, execute_update, update_items,
  batch_update,
}

module _ (to_column : DateTime → DateTime) where
  -- What an update of the secrets of a name makes of a secret that is read by another.
  abbrev pub overlay_item : DateTime → BatchUpdateItem → SecretName → StoredSecret → StoredSecret
  overlay_item now item name s =
      if item.name == name
      then (record s {
        ciphertext = item.ciphertext;
        nonce = item.nonce;
        algorithm = item.algorithm;
        updated_at = to_column now;
        version = s.version + 1;
      })
      else s

  -- What the updates make of it, one after another.
  abbrev pub overlay : Env → ℕ → List BatchUpdateItem → SecretName → StoredSecret → StoredSecret
  overlay env i [] name s = s
  overlay env i (item ∷ items) name s =
      overlay env (i + 1) items name (overlay_item (env.now i) item name s)

  -- What a batch makes of it, whose result is given.
  abbrev pub overlay_if : Result (Unit {0}) → StoredSecret → StoredSecret → StoredSecret
  overlay_if (ok _) updated s = updated
  overlay_if (err _) updated s = s

  abbrev update_if : DateTime → BatchUpdateItem → SecretName → Row → Row
  update_if now item name r = if item.name == name then update_row to_column now item r else r

  abbrev map_row : (Row → Row) → Option Row → Option Row
  map_row f none = none
  map_row f (some r) = some (f r)

  row_of-update_rows :
      (table : Table) (now : DateTime) (item : BatchUpdateItem) (name : SecretName)
      → row_of (update_rows to_column table now item) name
        ≡ map_row (update_if now item name) (row_of table name)
  unfolding row_of find update_rows update_row
  row_of-update_rows [] now item name = refl
  row_of-update_rows (r ∷ table) now item name = ground (
    arith,
    row_of-update_rows table now item name,
    text_beq_iff r.name item.name,
    text_beq_iff r.name name,
    text_beq_iff item.name name,
  )

  read_row-update_if :
      (r : Row) (now : DateTime) (item : BatchUpdateItem) (name : SecretName) (s : StoredSecret)
      → row_to_stored_secret r ≡ ok s
      → row_to_stored_secret (update_if now item name r) ≡ ok (overlay_item now item name s)
  unfolding row_to_stored_secret update_row
  read_row-update_if r now item name s e =
      ground (arith, parse_cipher_algorithm-algorithm_as_str item.algorithm)

  get-update_rows :
      (table : Table) (now : DateTime) (item : BatchUpdateItem) (name : SecretName)
      (s : StoredSecret)
      → get table name ≡ ok s
      → get (update_rows to_column table now item) name ≡ ok (overlay_item now item name s)
  unfolding get read_row
  get-update_rows table now item name s e = elim (Option-cases (row_of table name)) [
    | inl missing ↦ absurd (ground arith)
    | inr (r, there) ↦
        ap (read_row name)
          (row_of-update_rows table now item name ∙ ap (map_row (update_if now item name)) there)
        ∙ read_row-update_if r now item name s (ground arith)
  ]

  execute_update-ok :
      (what : Text) (table updated : Table) (now : DateTime) (item : BatchUpdateItem)
      → execute_update to_column what table now item ≡ ok updated
      → updated ≡ update_rows to_column table now item
  unfolding execute_update
  execute_update-ok what table updated now item e = elim (Option-cases (row_of table item.name)) [
    | inl missing ↦ absurd (ground arith)
    | inr (r, there) ↦ elim (Bool-cases (leb 2147483647 r.version)) [
      | inl full ↦ absurd (ground arith)
      | inr fits ↦ ground arith
    ]
  ]

  update_items-get :
      (items : List BatchUpdateItem) (table updated : Table) (env : Env) (i : ℕ) (name : SecretName)
      (s : StoredSecret)
      → update_items to_column table env i items ≡ ok updated
      → get table name ≡ ok s
      → get updated name ≡ ok (overlay env i items name s)
  unfolding update_items
  update_items-get [] table updated env i name s e h = ap (λ t. get t name) (ground arith) ∙ h
  update_items-get (item ∷ items) table updated env i name s e h =
      let what = codes "batch update failed" in
      elim (Result-cases (execute_update to_column what table (env.now i) item)) [
        | inr (x, bad) ↦ absurd (ground arith)
        | inl (between, good) ↦
            let same = execute_update-ok what table between (env.now i) item good in
            update_items-get items between updated env (i + 1) name
              (overlay_item (env.now i) item name s) (ground arith)
              (ap (λ t. get t name) same ∙ get-update_rows table (env.now i) item name s h)
      ]

  pub batch_update-get :
      (table : Table) (env : Env) (items : List BatchUpdateItem) (name : SecretName)
      (s : StoredSecret)
      → get table name ≡ ok s
      → get (batch_update to_column table env items).1 name
        ≡ ok (overlay_if (batch_update to_column table env items).0 (overlay env 0 items name s) s)
  unfolding batch_update
  batch_update-get table env items name s h =
      elim (Result-cases (update_items to_column table env 0 items)) [
        | inr (x, bad) ↦ rw (batch_update, bad) h
        | inl (updated, good) ↦
            rw (batch_update, good) (update_items-get items table updated env 0 name s good h)
      ]
