-- ===== src/Sqlite.antt =====
-- crates/zerolease-store-rusqlite/src/store.rs: the SQLite store, as a table of rows in the order
-- of insertion.
--
-- SQLite is modelled by what the statements of the code do to a table of the schema in
-- sql/sqlite_secrets.sql: names and ids are unique, and a transaction that is not committed
-- leaves no trace. Uuids and times stand in the rows as values, since their printed forms
-- are read back as they were written. Failures of the database itself are not modelled.
pub mod AuditLog
pub mod Rows
pub mod Stored
use zerolease.Prelude.{
  ℕ, zero, suc, ◌+◌, Bool, true, false, not, ◌||◌, Option, none, some, List, [], ◌∷◌, ◌++◌, Text,
  codes, any, find, filter, leb, ◌==◌, nat_eq, text_eq, if◌then◌else◌,
}
use zerolease.Types.Identity.{SecretId, SecretName}
use zerolease.Types.Time.{DateTime}
use zerolease.Types.Secrets.{Bytes, SecretMetadata, algorithm_as_str, kind_as_str}
use zerolease.Error.{
  Error, Message, text, storage, secret_not_found, secret_already_exists, Result, ok, err, ◌>>=◌,
}
use zerolease.Env.{Env}
use zerolease.Store.{
  StoredSecret, StoreSecretParams, BatchUpdateItem, SecretStore, metadata_of,
  parse_cipher_algorithm, parse_secret_kind,
}

pub record Row : Type 0 where
  pub id : SecretId
  pub name : SecretName
  pub ciphertext : Bytes
  pub nonce : Bytes
  pub algorithm : Text
  pub kind : Text
  pub description : Option Text
  pub created_at : DateTime
  pub updated_at : DateTime
  pub version : ℕ

abbrev pub Table : Type 0
Table = List Row

-- The column is read as an `i32`.
abbrev pub read_version : ℕ → Result ℕ
read_version version =
    if leb version 2147483647 then ok version else err (storage (text (codes "version")))

unfoldable pub row_to_stored_secret : Row → Result StoredSecret
row_to_stored_secret r = parse_cipher_algorithm r.algorithm >>= λ algorithm.
    parse_secret_kind r.kind >>= λ kind. read_version r.version >>= λ version. ok (record {
      id = r.id;
      name = r.name;
      ciphertext = r.ciphertext;
      nonce = r.nonce;
      algorithm = algorithm;
      kind = kind;
      description = r.description;
      created_at = r.created_at;
      updated_at = r.updated_at;
      version = version;
    })

unfoldable pub row_to_metadata : Row → Result SecretMetadata
row_to_metadata r = parse_secret_kind r.kind >>= λ kind. read_version r.version >>= λ version.
    ok (record {
      id = r.id;
      name = r.name;
      kind = kind;
      description = r.description;
      created_at = r.created_at;
      updated_at = r.updated_at;
      version = version;
    })

-- `WHERE name = ?`
unfoldable pub row_of : Table → SecretName → Option Row
row_of table name = find (λ r. r.name == name) table

-- `query_row` and the mapping of its errors
unfoldable pub read_row : SecretName → Option Row → Result StoredSecret
unfolding row_to_stored_secret
read_row name none = err (secret_not_found name)
read_row name (some r) = elim (row_to_stored_secret r) [
  | err _ ↦ err (storage (text (codes "query failed")))
  | ok s ↦ ok s
]

unfoldable pub get : Table → SecretName → Result StoredSecret
unfolding row_of read_row
get table name = read_row name (row_of table name)

unfoldable pub new_row : Env → StoreSecretParams → Row
unfolding algorithm_as_str kind_as_str
new_row env p = record {
  id = env.uuid 0;
  name = p.name;
  ciphertext = p.ciphertext;
  nonce = p.nonce;
  algorithm = algorithm_as_str p.algorithm;
  kind = kind_as_str p.kind;
  description = p.description;
  created_at = env.now 0;
  updated_at = env.now 0;
  version = 1;
}

unfoldable pub put : Table → Env → StoreSecretParams → Result StoredSecret × Table
unfolding new_row
put table env p =
    if any (λ r. r.name == p.name || r.id == env.uuid 0) table
    then (err (secret_already_exists p.name), table)
    else (
      ok (record {
        id = env.uuid 0;
        name = p.name;
        ciphertext = p.ciphertext;
        nonce = p.nonce;
        algorithm = p.algorithm;
        kind = p.kind;
        description = p.description;
        created_at = env.now 0;
        updated_at = env.now 0;
        version = 1;
      }),
      table ++ (new_row env p ∷ []),
    )

-- `UPDATE secrets SET … WHERE name = ?`; no row may be touched.
unfoldable pub update_rows : Table → DateTime → BatchUpdateItem → Table
update_rows [] now item = []
update_rows (r ∷ table) now item =
    (if r.name == item.name
      then record r {
        ciphertext = item.ciphertext;
        nonce = item.nonce;
        algorithm = algorithm_as_str item.algorithm;
        updated_at = now;
        version = r.version + 1;
      }
      else r)
    ∷ update_rows table now item

-- The second query of `update`
unfoldable pub reread : Option Row → Result StoredSecret
unfolding row_to_stored_secret
reread none = err (storage (text (codes "query failed")))
reread (some r) = elim (row_to_stored_secret r) [
  | err _ ↦ err (storage (text (codes "query failed")))
  | ok s ↦ ok s
]

-- `update`, whose arguments are those of an item. The vault never calls it.
unfoldable pub update : Table → Env → BatchUpdateItem → Result StoredSecret × Table
unfolding row_of update_rows reread
update table env item =
    let updated = update_rows table (env.now 0) item in
    elim (row_of table item.name) [
      | none ↦ (err (secret_not_found item.name), table)
      | some _ ↦ (reread (row_of updated item.name), updated)
    ]

-- The loop inside the transaction; the clock is read for each item.
unfoldable pub update_items : Table → Env → ℕ → List BatchUpdateItem → Result Table
unfolding row_of update_rows
update_items table env i [] = ok table
update_items table env i (item ∷ items) =
    let rest = update_items (update_rows table (env.now i) item) env (i + 1) items in
    elim (row_of table item.name) [ none ↦ err (secret_not_found item.name) | some _ ↦ rest ]

unfoldable pub batch_update : Table → Env → List BatchUpdateItem → Result (Unit {0}) × Table
unfolding update_items
batch_update table env items = elim (update_items table env 0 items) [
  | err e ↦ (err e, table)
  | ok updated ↦ (ok tt, updated)
]

unfoldable pub delete : Table → SecretName → Result (Unit {0}) × Table
unfolding row_of
delete table name = elim (row_of table name) [
  | none ↦ (err (secret_not_found name), table)
  | some _ ↦ (ok tt, filter (λ r. not (r.name == name)) table)
]

unfoldable pub list : Table → Result (List SecretMetadata)
unfolding row_to_metadata
list [] = ok []
list (r ∷ table) =
    let rest = list table in
    elim (row_to_metadata r) [
      | err _ ↦ err (storage (text (codes "row extraction failed")))
      | ok m ↦ rest >>= λ ms. ok (m ∷ ms)
    ]

unfoldable pub rusqlite : SecretStore Table
rusqlite = record {
  put = put;
  get = get;
  batch_update = batch_update;
  delete = delete;
  list = list;
}
