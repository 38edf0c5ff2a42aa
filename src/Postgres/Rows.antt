-- ===== src/Postgres/Rows.antt =====
-- crates/zerolease-store-postgres/src/store.rs: what is put is what is got, up to the
-- precision of the times.
use zerolease.Prelude.{
  ◌≡◌, refl, ap, ◌∙◌, inl, inr, false, Option, some, [], ◌∷◌, ◌++◌, arith, any, ◌||◌, ◌==◌, text_eq,
  nat_eq, if◌then◌else◌, Bool-cases,
}
use zerolease.Types.Identity.{SecretName}
use zerolease.Types.Time.{DateTime}
use zerolease.Error.{ok}
use zerolease.Env.{Env}
use zerolease.Store.{StoredSecret, StoreSecretParams}
use zerolease.Store.Names.{
  bare_kind, parse_cipher_algorithm-algorithm_as_str, parse_secret_kind-kind_as_str,
}
use zerolease.Sqlite.{Table, Row, row_of}
use zerolease.Sqlite.Rows.{row_of-append, names_new}
use zerolease.Postgres.{get, put, new_row, read_row, row_to_stored_secret}

module _ (to_column : DateTime → DateTime) where
  -- A secret as the table has it
  abbrev pub in_table : StoredSecret → StoredSecret
  in_table s = record s {
    kind = bare_kind s.kind;
    created_at = to_column s.created_at;
    updated_at = to_column s.updated_at;
  }

  row_to_stored_secret-new_row :
      (env : Env) (p : StoreSecretParams) (s : StoredSecret) (table : Table)
      → (put to_column table env p).0 ≡ ok s
      → row_to_stored_secret (new_row to_column env p) ≡ ok (in_table s)
  unfolding put row_to_stored_secret new_row
  row_to_stored_secret-new_row env p s table h =
      let a = parse_cipher_algorithm-algorithm_as_str p.algorithm in
      let k = parse_secret_kind-kind_as_str p.kind in ground (arith, a, k)

  put-ok :
      (table : Table) (env : Env) (p : StoreSecretParams) (s : StoredSecret)
      → (put to_column table env p).0 ≡ ok s
      → (any (λ r. r.name == p.name) table ≡ false)
        × ((put to_column table env p).1 ≡ table ++ (new_row to_column env p ∷ []))
  unfolding put
  put-ok table env p s h =
      elim (Bool-cases (any (λ r. r.name == p.name || r.id == env.uuid 0) table)) [
        | inl taken ↦ absurd (ground arith)
        | inr free ↦ (names_new table p.name (env.uuid 0) free, ground arith)
      ]

  read_new :
      (r : Row) (new name : SecretName) (o : Option Row) (s : StoredSecret)
      → row_to_stored_secret r ≡ ok s
      → read_row name (if new == name then some r else o)
        ≡ (if new == name then ok s else read_row name o)
  unfolding read_row
  read_new r new name o s e = elim (Bool-cases (new == name)) [
    | inl same ↦ rw same e
    | inr other ↦ rw other refl
  ]

  -- After a `put` that succeeds, `get` finds under its name the secret that `put` returned, but for
  -- the refresh token of an OAuth2 kind and for what the columns do not keep of the times; and
  -- under every other name what it found before.
  pub get-put :
      (table : Table) (env : Env) (p : StoreSecretParams) (s : StoredSecret) (name : SecretName)
      → (put to_column table env p).0 ≡ ok s
      → get (put to_column table env p).1 name
        ≡ (if p.name == name then ok (in_table s) else get table name)
  unfolding get new_row
  get-put table env p s name h =
      let (free, e) = put-ok table env p s h in
      let row = row_to_stored_secret-new_row env p s table h in
      let at = row_of-append table name (new_row to_column env p) free in
      ap (read_row name) (ap (λ t. row_of t name) e ∙ at)
      ∙ read_new (new_row to_column env p) p.name name (row_of table name) _ row
