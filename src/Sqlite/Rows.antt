-- ===== src/Sqlite/Rows.antt =====
-- crates/zerolease-store-rusqlite/src/store.rs: what is put is what is got.
use zerolease.Prelude.{
  ℕ, ◌≡◌, refl, ap, ◌∙◌, inl, inr, false, Option, some, [], ◌∷◌, ◌++◌, arith, any, find, ◌||◌, ◌==◌,
  text_eq, nat_eq, if◌then◌else◌, Bool-cases, text_beq_iff,
}
use zerolease.Types.Identity.{SecretName}
use zerolease.Error.{ok}
use zerolease.Env.{Env}
use zerolease.Store.{StoredSecret, StoreSecretParams}
use zerolease.Store.Names.{
  bare_kind, parse_cipher_algorithm-algorithm_as_str, parse_secret_kind-kind_as_str,
}
use zerolease.Sqlite.{Table, Row, get, put, new_row, read_row, row_of, row_to_stored_secret}

pub row_of-append :
    (table : Table) (name : SecretName) (row : Row)
    → any (λ r. r.name == row.name) table ≡ false
    → row_of (table ++ (row ∷ [])) name ≡ (if row.name == name then some row else row_of table name)
unfolding row_of any find
row_of-append [] name row h = refl
row_of-append (r ∷ table) name row h = ground (
  arith,
  row_of-append table name row,
  text_beq_iff r.name row.name,
  text_beq_iff r.name name,
  text_beq_iff row.name name,
)

pub names_new :
    (table : Table) (name : SecretName) (id : ℕ)
    → any (λ r. r.name == name || r.id == id) table ≡ false
    → any (λ r. r.name == name) table ≡ false
unfolding any
names_new [] name id h = refl
names_new (r ∷ table) name id h = ground (arith, names_new table name id)

row_to_stored_secret-new_row :
    (env : Env) (p : StoreSecretParams) (s : StoredSecret) (table : Table)
    → (put table env p).0 ≡ ok s
    → row_to_stored_secret (new_row env p) ≡ ok (record s { kind = bare_kind p.kind })
unfolding put row_to_stored_secret new_row
row_to_stored_secret-new_row env p s table h =
    let a = parse_cipher_algorithm-algorithm_as_str p.algorithm in
    let k = parse_secret_kind-kind_as_str p.kind in ground (arith, a, k)

put-ok :
    (table : Table) (env : Env) (p : StoreSecretParams) (s : StoredSecret)
    → (put table env p).0 ≡ ok s
    → (any (λ r. r.name == p.name) table ≡ false)
      × ((put table env p).1 ≡ table ++ (new_row env p ∷ []))
unfolding put
put-ok table env p s h =
    elim (Bool-cases (any (λ r. r.name == p.name || r.id == env.uuid 0) table)) [
      | inl taken ↦ absurd (ground arith)
      | inr free ↦ (names_new table p.name (env.uuid 0) free, ground arith)
    ]

read_new :
    (r : Row) (new name : SecretName) (o : Option Row) (s : StoredSecret)
    → row_to_stored_secret r ≡ ok s
    → read_row name (if new == name then some r else o)
      ≡ (if new == name then ok s else read_row name o)
unfolding read_row
read_new r new name o s e = elim (Bool-cases (new == name)) [
  | inl same ↦ rw same (rw (e, read_row) refl)
  | inr other ↦ rw other refl
]

-- After a `put` that succeeds, `get` finds under its name the secret that `put` returned,
-- but for the refresh token of an OAuth2 kind, which the table does not hold; and under
-- every other name what it found before.
pub get-put :
    (table : Table) (env : Env) (p : StoreSecretParams) (s : StoredSecret) (name : SecretName)
    → (put table env p).0 ≡ ok s
    → get (put table env p).1 name
      ≡ (if p.name == name then ok (record s { kind = bare_kind p.kind }) else get table name)
unfolding get new_row
get-put table env p s name h =
    let (free, e) = put-ok table env p s h in
    let row = row_to_stored_secret-new_row env p s table h in
    let at = row_of-append table name (new_row env p) free in
    let q = ap (read_row name) (ap (λ t. row_of t name) e ∙ at) in
    q ∙ read_new (new_row env p) p.name name (row_of table name) _ row
