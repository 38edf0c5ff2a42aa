-- ===== src/SecretsManager/Backend.antt =====
-- crates/zerolease-store-aws-sm/src/store.rs under src/vault.rs: what the vault stores in Secrets
-- Manager, it reads back. A listing draws its ids from an environment of its own.
use zerolease.Prelude.{
  ℕ, ◌≡◌, refl, ap, ◌∙◌, inl, inr, Bool, true, Option, some, Text, codes, arith, ◌==◌, text_eq,
  text_beq_iff, from_utf8,
}
use zerolease.Types.Identity.{SecretName}
use zerolease.Types.Secrets.{Bytes, SecretKind, SecretMetadata}
use zerolease.Error.{ok, Result-cases}
use zerolease.Env.{Env, FillsBuffer}
use zerolease.Audit.{AuditLog}
use zerolease.Crypto.{Aead}
use zerolease.Crypto.RoundTrip.{IsAead}
use zerolease.Store.{StoredSecret, StoreSecretParams, SecretStore}
use zerolease.Store.Names.{bare_kind}
use zerolease.SecretsManager.{PayloadCodec, Service, from_stored, serialize_payload}
use zerolease.SecretsManager.Operations.{failed_with, new_secret, put, get, batch_update, delete}
use zerolease.SecretsManager.Listing.{value_or, list}
use zerolease.SecretsManager.Stored.{IsPayloadCodec, IsService, create-ok, get-put}
use zerolease.Vault.State.{KeySource, Backends, Vault}
use zerolease.Vault.Leases.{read_secret}
use zerolease.Vault.Secrets.{store_secret}
use zerolease.Vault.Stored.{Keeps, read_back}

module _ (c : PayloadCodec) {W : Type 0} (service : Service W) (prefix : Text) (force : Bool)
    (pages : ℕ) (ids : Env) where
  unfoldable pub secrets_manager : SecretStore W
  secrets_manager = record {
    put = put c service prefix;
    get = get c service prefix;
    batch_update = batch_update c service prefix;
    delete = delete c service prefix force;
    list = λ w. value_or (failed_with (codes "too many pages")) (list c prefix service pages w ids);
  }

  put-params :
      (w : W) (env : Env) (p : StoreSecretParams) (s : StoredSecret)
      → (put c service prefix w env p).0 ≡ ok s
      → s ≡ new_secret env p
  unfolding put
  put-params w env p s h =
      elim (Result-cases (serialize_payload c (from_stored c (new_secret env p)))) [
        | inr (x, bad) ↦ absurd (ground arith)
        | inl (t, good) ↦
            (create-ok c service prefix w (put c service prefix w env p).1 (new_secret env p) s t
              (ground arith)).0
      ]

  secrets_manager-Keeps : IsPayloadCodec c → IsService service → Keeps secrets_manager
  unfolding secrets_manager new_secret
  secrets_manager-Keeps sound keeps = record {
    got = λ w env p s h.
        let after = (put c service prefix w env p).1 in
        let same = put-params w env p s h in
        let itself : (p.name == p.name) ≡ true = (text_beq_iff p.name p.name).1 refl in
        (
          record s { kind = bare_kind s.kind },
          get-put c sound service keeps prefix w after env p s p.name (ap (λ x. (x, after)) h)
              ∙ rw itself refl,
          ap (λ x. x.ciphertext) same,
          ap (λ x. x.nonce) same,
          ap (λ x. x.algorithm) same,
        );
  }

module _ {KS W AS : Type 0} (keys : KeySource KS) (log : AuditLog AS) (aead : Aead)
    (opens : IsAead aead) (c : PayloadCodec) (sound : IsPayloadCodec c) (service : Service W)
    (keeps : IsService service) (prefix : Text) (force : Bool) (pages : ℕ) (ids : Env) where
  unfoldable pub aws_backends : Backends KS W AS
  aws_backends = record {
    keys = keys;
    secrets = secrets_manager c service prefix force pages ids;
    log = log;
    aead = aead;
  }

  -- Over a service that keeps its values, a secret that `store_secret` has stored in
  -- Secrets Manager is read back, by its name and under the same key, as the text that was
  -- stored, when that text is UTF-8.
  pub read_secret-store_secret :
      (env : Env)
      → FillsBuffer env
      → (v : Vault KS W AS) (name : SecretName) (plaintext : Bytes) (kind : SecretKind)
        (description : Option Text) (peer : Text) {meta : SecretMetadata}
      → (store_secret aws_backends env v name plaintext kind description peer).0 ≡ ok meta
      → from_utf8 plaintext ≡ some plaintext
      → read_secret aws_backends
          (store_secret aws_backends env v name plaintext kind description peer).1
          name
        ≡ ok plaintext
  unfolding aws_backends
  read_secret-store_secret env fills v name plaintext kind description peer h valid =
      read_back aws_backends (secrets_manager-Keeps c service prefix force pages ids sound keeps)
        opens env fills v name plaintext kind description peer h valid
