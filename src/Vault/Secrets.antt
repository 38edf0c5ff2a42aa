-- ===== src/Vault/Secrets.antt =====
-- src/vault.rs: the operations on secrets: storing, listing, deleting, and the rotation of the key.
use zerolease.Prelude.{ℕ, ◌+◌, Option, some, List, [], ◌∷◌, Text, codes, ◌==◌, text_eq, length}
use zerolease.Types.Identity.{SecretName, AgentId}
use zerolease.Types.Secrets.{Bytes, SecretKind, SecretMetadata, secret_deleted}
use zerolease.Error.{Result, ok, err, ◌>>=◌}
use zerolease.Env.{Env}
use zerolease.Audit
use zerolease.Audit.{success}
use zerolease.Crypto
use zerolease.Crypto.{Sealed}
use zerolease.Store.{StoreSecretParams, BatchUpdateItem, metadata_of}
use zerolease.Vault.State.{Vault, Backends, ◌>>>◌, trace_and_record, current_dek, encrypt}
use zerolease.Vault.Leases.{revoke_matching}

abbrev pub admin : AgentId
admin = codes "admin"

module _ {KS SS AS : Type 0} (b : Backends KS SS AS) where
  unfoldable pub store_secret :
      Env
      → Vault KS SS AS
      → SecretName
      → Bytes
      → SecretKind
      → Option Text
      → Text
      → Result SecretMetadata × Vault KS SS AS
  store_secret env v name plaintext kind description peer = elim (encrypt b env 0 v plaintext) [
    | err e ↦ (err e, v)
    | ok sealed ↦
        let params : StoreSecretParams = record {
          name = name;
          ciphertext = sealed.ciphertext;
          nonce = sealed.nonce;
          algorithm = sealed.algorithm;
          kind = kind;
          description = description;
        } in
        let (r, store) = b.secrets.put v.store env params in
        (r, record v { store = store }) >>> λ stored w.
        trace_and_record b env 1 w (Audit.secret_stored name) admin peer success >>> λ _ w.
        (ok (metadata_of stored), w)
  ]

  unfoldable pub list_secrets : Vault KS SS AS → Result (List SecretMetadata)
  list_secrets v = b.secrets.list v.store

  unfoldable pub delete_secret :
      Env → Vault KS SS AS → SecretName → Text → Result (Unit {0}) × Vault KS SS AS
  delete_secret env v name peer =
      let (leases, n, log) =
        revoke_matching b (λ l. l.secret_name == name) (λ l. l.agent) secret_deleted peer env 0
          v.leases v.audit in
      let (r, store) = b.secrets.delete v.store name in
      (r, record v { leases = leases; audit = log; store = store }) >>> λ _ w.
      trace_and_record b env n w (Audit.secret_deleted name) admin peer success

  -- One secret of step 3: decrypted with the old key and sealed with the new one.
  unfoldable pub reencrypt :
      Env → ℕ → Vault KS SS AS → Bytes → Bytes → SecretName → Result BatchUpdateItem
  reencrypt env draw v old_dek new_dek name = b.secrets.get v.store name >>= λ stored.
      Crypto.decrypt b.aead
        (record {
          ciphertext = stored.ciphertext;
          nonce = stored.nonce;
          algorithm = stored.algorithm;
        })
        old_dek
      >>= λ plaintext. Crypto.encrypt b.aead v.cipher env draw plaintext new_dek >>= λ sealed.
          ok (record {
            name = name;
            ciphertext = sealed.ciphertext;
            nonce = sealed.nonce;
            algorithm = sealed.algorithm;
          })

  -- Step 3: the loop over the metadata. The draw 0 is the new key.
  unfoldable pub reencrypt_all :
      Env → ℕ → Vault KS SS AS → Bytes → Bytes → List SecretMetadata → Result (List BatchUpdateItem)
  reencrypt_all env draw v old_dek new_dek [] = ok []
  reencrypt_all env draw v old_dek new_dek (meta ∷ rest) =
      reencrypt env draw v old_dek new_dek meta.name >>= λ item.
      reencrypt_all env (draw + 1) v old_dek new_dek rest >>= λ items. ok (item ∷ items)

  -- Steps 4 to 7: the store first, then the key source, then the key in memory.
  unfoldable pub commit_rotation :
      Env
      → Vault KS SS AS
      → Bytes
      → List BatchUpdateItem
      → Text
      → Result (Unit {0}) × Vault KS SS AS
  commit_rotation env v new_dek updates peer =
      let (r, store) = b.secrets.batch_update v.store env updates in
      (r, record v { store = store }) >>> λ _ w.
      (let (q, ks) = b.keys.rotate_dek w.key_source new_dek in
        (q, record w { key_source = ks }) >>> λ _ w.
        trace_and_record b env (length updates) (record w { dek = some new_dek }) Audit.dek_rotated
          admin peer success)

  unfoldable pub rotate_dek : Env → Vault KS SS AS → Text → Result (Unit {0}) × Vault KS SS AS
  rotate_dek env v peer =
      let new_dek = env.random_bytes 0 32 in
      elim (current_dek b v >>= λ old_dek.
      b.secrets.list v.store >>= λ secrets. reencrypt_all env 1 v old_dek new_dek secrets) [
        | err e ↦ (err e, v)
        | ok updates ↦ commit_rotation env v new_dek updates peer
      ]
