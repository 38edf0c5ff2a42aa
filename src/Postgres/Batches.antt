-- ===== src/Postgres/Batches.antt =====
-- crates/zerolease-store-postgres/src/store.rs: what the vault relies on when it rotates its key.
use zerolease.Prelude.{
  ℕ, ◌+◌, ◌≡◌, refl, ◌∙◌, ◌⊎◌, inl, inr, true, some, List, [], ◌∷◌, arith, Member, here, there,
  Bool-cases, Option-cases, text_beq_iff, text_eq, ◌==◌, find,
}
use zerolease.Types.Identity.{SecretName}
use zerolease.Types.Time.{DateTime}
use zerolease.Types.Secrets.{SecretMetadata}
use zerolease.Error.{ok, Result-cases}
use zerolease.Env.{Env}
use zerolease.Store.{StoredSecret, BatchUpdateItem}
use zerolease.Sqlite.{Table, Row, row_of}
use zerolease.Postgres.{row_to_metadata, get, read_row, list, postgres}
use zerolease.Postgres.Batch.{overlay_item, overlay, batch_update-get}
use zerolease.Vault.Rotation.{stored_seal, item_seal}
use zerolease.Vault.Stranding.{TakesBatches}

named_row : (r : Row) (m : SecretMetadata) → row_to_metadata r ≡ ok m → m.name ≡ r.name
unfolding row_to_metadata
named_row r m h = ground arith

listed_row :
    (table : Table) (metas : List SecretMetadata) (name : SecretName) (r : Row)
    → list table ≡ ok metas
    → row_of table name ≡ some r
    → (meta : SecretMetadata) × Member meta metas × (meta.name ≡ name)
unfolding list row_of find
listed_row [] metas name r h found = absurd (ground arith)
listed_row (q ∷ table) metas name r h found = elim (Result-cases (row_to_metadata q)) [
  | inr (e, bad) ↦ absurd (ground arith)
  | inl (m, good) ↦ elim (Result-cases (list table)) [
    | inr (e, bad) ↦ absurd (ground arith)
    | inl (ms, goods) ↦
        let all : metas ≡ m ∷ ms = ground arith in
        elim (Bool-cases (q.name == name)) [
          | inl same ↦
              let e : q.name ≡ name = (text_beq_iff q.name name).0 same in
              let named : m.name ≡ q.name = named_row q m good in rw all (m, here ms, named ∙ e)
          | inr other ↦
              let (meta, at, named) = listed_row table ms name r goods (ground arith) in
              rw all (meta, there m ms at, named)
        ]
  ]
]

module _ (to_column : DateTime → DateTime) where
  -- The seal of the secret, or of an item of the batch.
  overlay-seal :
      (env : Env) (i : ℕ) (items : List BatchUpdateItem) (name : SecretName) (s : StoredSecret)
      → let t = overlay to_column env i items name s in
        (stored_seal t ≡ stored_seal s)
        ⊎ ((last : BatchUpdateItem) × Member last items × (stored_seal t ≡ item_seal last))
  overlay-seal env i [] name s = inl refl
  overlay-seal env i (item ∷ items) name s =
      elim (overlay-seal env (i + 1) items name (overlay_item to_column (env.now i) item name s)) [
        | inr (last, at, seal) ↦ inr (last, there item items at, seal)
        | inl kept ↦ elim (Bool-cases (item.name == name)) [
          | inl same ↦ inr (item, here items, kept ∙ (rw same refl))
          | inr other ↦ inl (kept ∙ (rw other refl))
        ]
      ]

  overlay-taken :
      (env : Env) (item : BatchUpdateItem) (i : ℕ) (items : List BatchUpdateItem) (s : StoredSecret)
      → Member item items
      → (last : BatchUpdateItem) × Member last items
        × (stored_seal (overlay to_column env i items item.name s) ≡ item_seal last)
  overlay-taken env item i _ s (there x items at) =
      let (last, m, seal) =
        overlay-taken env item (i + 1) items (overlay_item to_column (env.now i) x item.name s)
          at in
      (last, there x items m, seal)
  overlay-taken env item i _ s (here items) =
      elim (overlay-seal env (i + 1) items item.name
        (overlay_item to_column (env.now i) item item.name s)) [
          | inr (last, at, seal) ↦ (last, there item items at, seal)
          | inl kept ↦
              let same : (item.name == item.name) ≡ true =
                (text_beq_iff item.name item.name).1 refl in
              (item, here items, kept ∙ (rw same refl))
        ]

  pub postgres-TakesBatches : TakesBatches (postgres to_column)
  unfolding postgres get read_row
  postgres-TakesBatches = record {
    listed = λ table metas name s h found. elim (Option-cases (row_of table name)) [
      | inl missing ↦ absurd (ground arith)
      | inr (r, row) ↦ listed_row table metas name r h row
    ];
    taken = λ table env items item s good found at.
        let (last, m, seal) = overlay-taken env item 0 items s at in
        (
          last,
          overlay to_column env 0 items item.name s,
          m,
          batch_update-get to_column table env items item.name s found ∙ (rw good refl),
          seal,
        );
    left = λ table env items name s e bad found.
        batch_update-get to_column table env items name s found ∙ (rw bad refl);
  }
