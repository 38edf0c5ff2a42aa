-- ===== src/Postgres.antt =====
-- crates/zerolease-store-postgres/src/store.rs: the store on Postgres, as a table of rows with the
-- columns of sql/postgres_secrets.sql, which are those of the SQLite store.
--
-- Postgres is modelled by what the statements of the code do to the table: names and ids
-- are unique, an INTEGER that grows past its range is an error, and a transaction that is
-- not committed leaves no trace. A column of type TIMESTAMPTZ keeps less of a time than the
-- code has; what it keeps is a parameter. Failures of the connection are not modelled.
pub mod Rows
pub mod Batch
pub mod Batches
pub mod Backend
use zerolease.Prelude.{
  ℕ, ◌+◌, Bool, true, false, not, ◌||◌, Option, none, some, List, [], ◌∷◌, ◌++◌, Text, codes, any,
  find, filter, leb, ◌==◌, nat_eq, text_eq, if◌then◌else◌,
}
use zerolease.Types.Identity.{SecretName}
use zerolease.Types.Time.{DateTime}
use zerolease.Types.Secrets.{SecretMetadata, algorithm_as_str, kind_as_str}
use zerolease.Error.{
  text, storage, secret_not_found, secret_already_exists, Result, ok, err, ◌>>=◌, ◌>>◌,
}
use zerolease.Env.{Env}
use zerolease.Store.{
  StoredSecret, StoreSecretParams, BatchUpdateItem, SecretStore, parse_cipher_algorithm,
  parse_secret_kind,
}
use zerolease.Sqlite.{Row, Table, row_of}

unfoldable pub row_to_stored_secret : Row → Result StoredSecret
row_to_stored_secret r = parse_cipher_algorithm r.algorithm >>= λ algorithm.
    parse_secret_kind r.kind >>= λ kind. ok (record {
      id = r.id;
      name = r.name;
      ciphertext = r.ciphertext;
      nonce = r.nonce;
      algorithm = algorithm;
      kind = kind;
      description = r.description;
      created_at = r.created_at;
      updated_at = r.updated_at;
      version = r.version;
    })

unfoldable pub row_to_metadata : Row → Result SecretMetadata
row_to_metadata r = parse_secret_kind r.kind >>= λ kind. ok (record {
  id = r.id;
  name = r.name;
  kind = kind;
  description = r.description;
  created_at = r.created_at;
  updated_at = r.updated_at;
  version = r.version;
})

-- `fetch_optional`, then `ok_or_else`
unfoldable pub read_row : SecretName → Option Row → Result StoredSecret
unfolding row_to_stored_secret
read_row name none = err (secret_not_found name)
read_row name (some r) = row_to_stored_secret r

unfoldable pub get : Table → SecretName → Result StoredSecret
unfolding row_of read_row
get table name = read_row name (row_of table name)

unfoldable pub delete : Table → SecretName → Result (Unit {0}) × Table
unfolding row_of
delete table name = elim (row_of table name) [
  | none ↦ (err (secret_not_found name), table)
  | some _ ↦ (ok tt, filter (λ r. not (r.name == name)) table)
]

-- The first row that cannot be read is the error.
unfoldable pub list : Table → Result (List SecretMetadata)
unfolding row_to_metadata
list [] = ok []
list (r ∷ table) = let rest = list table in row_to_metadata r >>= λ m. rest >>= λ ms. ok (m ∷ ms)

module _ (to_column : DateTime → DateTime) where
  unfoldable pub new_row : Env → StoreSecretParams → Row
  unfolding algorithm_as_str kind_as_str
  new_row env p = record {
    id = env.uuid 0;
    name = p.name;
    ciphertext = p.ciphertext;
    nonce = p.nonce;
    algorithm = algorithm_as_str p.algorithm;
    kind = kind_as_str p.kind;
    description = p.description;
    created_at = to_column (env.now 0);
    updated_at = to_column (env.now 0);
    version = 1;
  }

  unfoldable pub put : Table → Env → StoreSecretParams → Result StoredSecret × Table
  unfolding new_row
  put table env p =
      if any (λ r. r.name == p.name || r.id == env.uuid 0) table
      then (err (secret_already_exists p.name), table)
      else (
        ok (record {
          id = env.uuid 0;
          name = p.name;
          ciphertext = p.ciphertext;
          nonce = p.nonce;
          algorithm = p.algorithm;
          kind = p.kind;
          description = p.description;
          created_at = env.now 0;
          updated_at = env.now 0;
          version = 1;
        }),
        table ++ (new_row env p ∷ []),
      )

  -- `UPDATE secrets SET … WHERE name = …` of a row with that name
  unfoldable pub update_row : DateTime → BatchUpdateItem → Row → Row
  unfolding algorithm_as_str
  update_row now item r = record r {
    ciphertext = item.ciphertext;
    nonce = item.nonce;
    algorithm = algorithm_as_str item.algorithm;
    updated_at = to_column now;
    version = r.version + 1;
  }

  unfoldable pub update_rows : Table → DateTime → BatchUpdateItem → Table
  unfolding update_row
  update_rows [] now item = []
  update_rows (r ∷ table) now item =
      (if r.name == item.name then update_row now item r else r) ∷ update_rows table now item

  -- The statement: no row, a version out of range, or the rows updated.
  unfoldable pub execute_update : Text → Table → DateTime → BatchUpdateItem → Result Table
  unfolding row_of update_rows
  execute_update what table now item = elim (row_of table item.name) [
    | none ↦ err (secret_not_found item.name)
    | some r ↦
        if leb 2147483647 r.version
        then err (storage (text what))
        else ok (update_rows table now item)
  ]

  -- `update`, whose arguments are those of an item
  unfoldable pub update : Table → Env → BatchUpdateItem → Result StoredSecret × Table
  unfolding execute_update get
  update table env item = elim (execute_update (codes "update failed") table (env.now 0) item) [
    | err e ↦ (err e, table)
    | ok updated ↦ (get updated item.name, updated)
  ]

  -- The loop inside the transaction; the clock is read for each item.
  unfoldable pub update_items : Table → Env → ℕ → List BatchUpdateItem → Result Table
  unfolding execute_update
  update_items table env i [] = ok table
  update_items table env i (item ∷ items) =
      execute_update (codes "batch update failed") table (env.now i) item >>= λ updated.
      update_items updated env (i + 1) items

  unfoldable pub batch_update : Table → Env → List BatchUpdateItem → Result (Unit {0}) × Table
  unfolding update_items
  batch_update table env items = elim (update_items table env 0 items) [
    | err e ↦ (err e, table)
    | ok updated ↦ (ok tt, updated)
  ]

  unfoldable pub postgres : SecretStore Table
  postgres = record {
    put = put;
    get = get;
    batch_update = batch_update;
    delete = delete;
    list = list;
  }
