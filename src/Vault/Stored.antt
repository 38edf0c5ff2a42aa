-- ===== src/Vault/Stored.antt =====
-- src/vault.rs: what the vault stores in a store that keeps it, it reads back.
use zerolease.Prelude.{
  ◌≡◌, ap, ◌∙◌, inl, inr, Option, some, Text, arith, text_eq, from_utf8, Option-cases,
}
use zerolease.Types.Identity.{SecretName}
use zerolease.Types.Secrets.{Bytes, SecretKind, SecretMetadata}
use zerolease.Error.{Result, ok, Result-cases}
use zerolease.Env.{Env, FillsBuffer}
use zerolease.Crypto.{Aead, Sealed}
use zerolease.Crypto
use zerolease.Crypto.RoundTrip.{IsAead, opens-encrypt}
use zerolease.Store.{StoredSecret, StoreSecretParams, SecretStore}
use zerolease.Vault.State.{Backends, Vault, trace_and_record, encrypt, decrypt}
use zerolease.Vault.Leases.{read_secret}
use zerolease.Vault.Secrets.{store_secret}

-- What the vault relies on: what was put is got by its name, with the ciphertext, the nonce and
-- the algorithm that it was put with.
pub record Keeps {SS : Type 0} (store : SecretStore SS) : Type 0 where
  pub got :
      (w : SS) (env : Env) (p : StoreSecretParams) (s : StoredSecret)
      → (store.put w env p).0 ≡ ok s
      → (found : StoredSecret) × (store.get (store.put w env p).1 p.name ≡ ok found)
        × (found.ciphertext ≡ p.ciphertext)
        × (found.nonce ≡ p.nonce)
        × (found.algorithm ≡ p.algorithm)

module _ {KS SS AS : Type 0} (b : Backends KS SS AS) (keeps : Keeps b.secrets)
    (sound : IsAead b.aead) where
  abbrev params_of : SecretName → SecretKind → Option Text → Sealed → StoreSecretParams
  params_of name kind description sealed = record {
    name = name;
    ciphertext = sealed.ciphertext;
    nonce = sealed.nonce;
    algorithm = sealed.algorithm;
    kind = kind;
    description = description;
  }

  module _ (env : Env) (fills : FillsBuffer env) (v : Vault KS SS AS) (name : SecretName)
      (plaintext : Bytes) (kind : SecretKind) (description : Option Text) (peer : Text) where
    abbrev stored : Result SecretMetadata × Vault KS SS AS
    stored = store_secret b env v name plaintext kind description peer

    -- What a successful call has done.
    stored-state :
        {meta : SecretMetadata}
        → stored.0 ≡ ok meta
        → (dek : Bytes) × (sealed : Sealed) × (s : StoredSecret) × (v.dek ≡ some dek)
          × (Crypto.encrypt b.aead v.cipher env 0 plaintext dek ≡ ok sealed)
          × ((b.secrets.put v.store env (params_of name kind description sealed)).0 ≡ ok s)
          × (stored.1.dek ≡ some dek)
          × (stored.1.store
              ≡ (b.secrets.put v.store env (params_of name kind description sealed)).1)
    unfolding store_secret trace_and_record encrypt
    stored-state h = elim (Option-cases v.dek) [
      | inl locked ↦ absurd (ground arith)
      | inr (dek, unlocked) ↦
          elim (Result-cases (Crypto.encrypt b.aead v.cipher env 0 plaintext dek)) [
            | inr (e, bad) ↦ absurd (ground arith)
            | inl (sealed, seals) ↦
                elim (Result-cases
                  (b.secrets.put v.store env (params_of name kind description sealed)).0) [
                    | inr (e, bad) ↦ absurd (ground arith)
                    | inl (s, puts) ↦
                        (dek, sealed, s, unlocked, seals, puts, ground arith, ground arith)
                  ]
          ]
    ]

    -- Reading needs the key, the row of the name and the bytes of the secret.
    read-state :
        (w : Vault KS SS AS) (dek : Bytes) (s : StoredSecret) (sealed : Sealed)
        → w.dek ≡ some dek
        → b.secrets.get w.store name ≡ ok s
        → (s.ciphertext ≡ sealed.ciphertext)
          × (s.nonce ≡ sealed.nonce)
          × (s.algorithm ≡ sealed.algorithm)
        → Crypto.decrypt b.aead sealed dek ≡ ok plaintext
        → from_utf8 plaintext ≡ some plaintext
        → read_secret b w name ≡ ok plaintext
    unfolding decrypt
    read-state w dek s sealed unlocked found (c, n, a) opens valid =
        let same : Crypto.decrypt b.aead
              (record { ciphertext = s.ciphertext; nonce = s.nonce; algorithm = s.algorithm }) dek
            ≡ ok plaintext =
          ap (λ x. Crypto.decrypt b.aead x dek)
            (λ i. record { ciphertext = c i; nonce = n i; algorithm = a i })
          ∙ opens in
        ground arith

    -- A secret that `store_secret` has stored is read back, by its name and under the same key, as
    -- the text that was stored, when that text is UTF-8.
    pub read_back :
        {meta : SecretMetadata}
        → stored.0 ≡ ok meta
        → from_utf8 plaintext ≡ some plaintext
        → read_secret b stored.1 name ≡ ok plaintext
    read_back h valid =
        let (dek, sealed, s, unlocked, seals, puts, kept, rows) = stored-state h in
        let p = params_of name kind description sealed in
        let (found, there, c, n, a) = keeps.got v.store env p s puts in
        read-state stored.1 dek found sealed kept (ap (λ t. b.secrets.get t name) rows ∙ there)
          (c, n, a) (opens-encrypt b.aead sound env fills v.cipher 0 plaintext dek sealed seals)
          valid
