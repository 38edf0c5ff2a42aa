-- ===== src/Postgres/Backend.antt =====
-- crates/zerolease-store-postgres/src/store.rs under src/vault.rs: what the vault stores in
-- Postgres, it reads back.
use zerolease.Prelude.{
  ◌≡◌, refl, ◌∙◌, true, Option, some, Text, arith, ◌==◌, text_eq, text_beq_iff, from_utf8,
}
use zerolease.Types.Identity.{SecretName}
use zerolease.Types.Time.{DateTime}
use zerolease.Types.Secrets.{Bytes, SecretKind, SecretMetadata}
use zerolease.Error.{ok}
use zerolease.Env.{Env, FillsBuffer}
use zerolease.Audit.{AuditLog}
use zerolease.Crypto.{Aead}
use zerolease.Crypto.RoundTrip.{IsAead}
use zerolease.Store.{StoredSecret, StoreSecretParams}
use zerolease.Sqlite.{Table}
use zerolease.Postgres.{put, postgres}
use zerolease.Postgres.Rows.{in_table, get-put}
use zerolease.Vault.State.{KeySource, Backends, Vault}
use zerolease.Vault.Leases.{read_secret}
use zerolease.Vault.Secrets.{store_secret}
use zerolease.Vault.Stored.{Keeps, read_back}

module _ (to_column : DateTime → DateTime) where
  put-params :
      (table : Table) (env : Env) (p : StoreSecretParams) (s : StoredSecret)
      → (put to_column table env p).0 ≡ ok s
      → (s.ciphertext ≡ p.ciphertext) × (s.nonce ≡ p.nonce) × (s.algorithm ≡ p.algorithm)
  unfolding put
  put-params table env p s h = (ground arith, ground arith, ground arith)

  postgres-Keeps : Keeps (postgres to_column)
  unfolding postgres
  postgres-Keeps = record {
    got = λ table env p s h.
        let (c, n, a) = put-params table env p s h in
        let itself : (p.name == p.name) ≡ true = (text_beq_iff p.name p.name).1 refl in
        (in_table to_column s, get-put to_column table env p s p.name h ∙ rw itself refl, c, n, a);
  }

module _ {KS AS : Type 0} (keys : KeySource KS) (log : AuditLog AS) (aead : Aead)
    (sound : IsAead aead) (to_column : DateTime → DateTime) where
  abbrev postgres_backends : Backends KS Table AS
  postgres_backends = record { keys = keys; secrets = postgres to_column; log = log; aead = aead }

  -- A secret that `store_secret` has stored in Postgres is read back, by its name and under
  -- the same key, as the text that was stored, when that text is UTF-8.
  store_secret-read_back :
      (env : Env)
      → FillsBuffer env
      → (v : Vault KS Table AS) (name : SecretName) (plaintext : Bytes) (kind : SecretKind)
        (description : Option Text) (peer : Text) {meta : SecretMetadata}
      → (store_secret postgres_backends env v name plaintext kind description peer).0 ≡ ok meta
      → from_utf8 plaintext ≡ some plaintext
      → read_secret postgres_backends
          (store_secret postgres_backends env v name plaintext kind description peer).1
          name
        ≡ ok plaintext
  store_secret-read_back env fills v name plaintext kind description peer h valid =
      read_back postgres_backends (postgres-Keeps to_column) sound env fills v name plaintext kind
        description peer h valid
