-- ===== src/Sqlite/Stored.antt =====
-- crates/zerolease-store-rusqlite/src/store.rs under src/vault.rs: what the vault stores in
-- SQLite, it reads back.
use zerolease.Prelude.{
  ◌≡◌, refl, ◌∙◌, true, Option, some, Text, arith, ◌==◌, text_eq, text_beq_iff, from_utf8,
}
use zerolease.Types.Identity.{SecretName}
use zerolease.Types.Secrets.{Bytes, SecretKind, SecretMetadata}
use zerolease.Error.{ok}
use zerolease.Env.{Env, FillsBuffer}
use zerolease.Audit.{AuditLog}
use zerolease.Crypto.{Aead}
use zerolease.Crypto.RoundTrip.{IsAead}
use zerolease.Store.{StoredSecret, StoreSecretParams}
use zerolease.Store.Names.{bare_kind}
use zerolease.Sqlite.{Table, put, rusqlite}
use zerolease.Sqlite.Rows.{get-put}
use zerolease.Vault.State.{KeySource, Backends, Vault}
use zerolease.Vault.Leases.{read_secret}
use zerolease.Vault.Secrets.{store_secret}
use zerolease.Vault.Stored.{Keeps, read_back}

module _ {KS AS : Type 0} (keys : KeySource KS) (log : AuditLog AS) (aead : Aead)
    (sound : IsAead aead) where
  unfoldable pub sqlite_backends : Backends KS Table AS
  unfolding rusqlite
  sqlite_backends = record { keys = keys; secrets = rusqlite; log = log; aead = aead }

  put-params :
      (table : Table) (env : Env) (p : StoreSecretParams) (s : StoredSecret)
      → (put table env p).0 ≡ ok s
      → (s.ciphertext ≡ p.ciphertext) × (s.nonce ≡ p.nonce) × (s.algorithm ≡ p.algorithm)
  unfolding put
  put-params table env p s h = (ground arith, ground arith, ground arith)

  sqlite_backends-Keeps : Keeps sqlite_backends.secrets
  unfolding sqlite_backends rusqlite
  sqlite_backends-Keeps = record {
    got = λ table env p s h.
        let (c, n, a) = put-params table env p s h in
        let itself : (p.name == p.name) ≡ true = (text_beq_iff p.name p.name).1 refl in
        (
          record s { kind = bare_kind p.kind },
          get-put table env p s p.name h ∙ rw itself refl,
          c,
          n,
          a,
        );
  }

  -- A secret that `store_secret` has stored in SQLite is read back, by its name and under the
  -- same key, as the text that was stored, when that text is UTF-8.
  pub store_secret-read_secret :
      (env : Env)
      → FillsBuffer env
      → (v : Vault KS Table AS) (name : SecretName) (plaintext : Bytes) (kind : SecretKind)
        (description : Option Text) (peer : Text) {meta : SecretMetadata}
      → (store_secret sqlite_backends env v name plaintext kind description peer).0 ≡ ok meta
      → from_utf8 plaintext ≡ some plaintext
      → read_secret sqlite_backends
          (store_secret sqlite_backends env v name plaintext kind description peer).1
          name
        ≡ ok plaintext
  unfolding sqlite_backends
  store_secret-read_secret env fills v name plaintext kind description peer h valid =
      read_back sqlite_backends sqlite_backends-Keeps sound env fills v name plaintext kind
        description peer h valid
