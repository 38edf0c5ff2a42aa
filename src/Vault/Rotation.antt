-- ===== src/Vault/Rotation.antt =====
-- src/vault.rs: the rotation of the key.
use zerolease.Prelude.{
  ℕ, ◌+◌, ◌≡◌, ◌≢◌, refl, sym, ap, ◌∙◌, inl, inr, some, List, [], ◌∷◌, Text, arith,
}
use zerolease.Types.Identity.{SecretName}
use zerolease.Types.Secrets.{Bytes, SecretMetadata}
use zerolease.Error.{decryption_failed, ok, err, Result-cases}
use zerolease.Env.{Env, FillsBuffer}
use zerolease.Store.{StoredSecret, BatchUpdateItem}
use zerolease.Crypto.{Sealed}
use zerolease.Crypto
use zerolease.Crypto.RoundTrip.{IsAead, decrypt-encrypt}
use zerolease.Vault.State.{Vault, Backends, trace_and_record}
use zerolease.Vault.Secrets.{reencrypt, reencrypt_all, commit_rotation, rotate_dek}

abbrev pub stored_seal : StoredSecret → Sealed
stored_seal s = record { ciphertext = s.ciphertext; nonce = s.nonce; algorithm = s.algorithm }

abbrev pub item_seal : BatchUpdateItem → Sealed
item_seal s = record { ciphertext = s.ciphertext; nonce = s.nonce; algorithm = s.algorithm }

ok-inj : {A : Type 0} (x y : A) → ok x ≡ ok y → x ≡ y
ok-inj x y e = ground arith

module _ {KS SS AS : Type 0} (b : Backends KS SS AS) (sound : IsAead b.aead) (env : Env)
    (fills : FillsBuffer env) (v : Vault KS SS AS) (old new : Bytes) (differ : new ≢ old) where
  -- The item holds, under the new key, the plaintext that the stored secret of its name
  -- holds under the old one.
  pub record Moved (name : SecretName) (item : BatchUpdateItem) : Type 0 where
    pub stored : StoredSecret
    pub plain : Bytes
    pub named : item.name ≡ name
    pub found : b.secrets.get v.store name ≡ ok stored
    pub before : Crypto.decrypt b.aead (stored_seal stored) old ≡ ok plain
    pub after : Crypto.decrypt b.aead (item_seal item) new ≡ ok plain
    pub lost : Crypto.decrypt b.aead (item_seal item) old ≡ err decryption_failed

  -- One item for each secret, in order.
  abbrev pub MovedAll : List SecretMetadata → List BatchUpdateItem → Type 0
  MovedAll [] [] = Unit {0}
  MovedAll (meta ∷ metas) (item ∷ items) = Moved meta.name item × MovedAll metas items
  MovedAll _ _ = ⊥

  reencrypt-eq :
      (draw : ℕ) (name : SecretName) (s : StoredSecret) (plain : Bytes) (sealed : Sealed)
      → b.secrets.get v.store name ≡ ok s
      → Crypto.decrypt b.aead (stored_seal s) old ≡ ok plain
      → Crypto.encrypt b.aead v.cipher env draw plain new ≡ ok sealed
      → reencrypt b env draw v old new name
        ≡ ok (record {
          name = name;
          ciphertext = sealed.ciphertext;
          nonce = sealed.nonce;
          algorithm = sealed.algorithm;
        })
  unfolding reencrypt
  reencrypt-eq draw name s plain sealed found opened seals =
      rw (found, reencrypt, opened, seals) refl

  reencrypt-Moved :
      (draw : ℕ) (name : SecretName) (item : BatchUpdateItem)
      → reencrypt b env draw v old new name ≡ ok item
      → Moved name item
  unfolding reencrypt
  reencrypt-Moved draw name item h = elim (Result-cases (b.secrets.get v.store name)) [
    | inr (e, missing) ↦ absurd (ground arith)
    | inl (s, found) ↦ elim (Result-cases (Crypto.decrypt b.aead (stored_seal s) old)) [
      | inr (e, bad) ↦ absurd (ground arith)
      | inl (plain, opened) ↦
          elim (Result-cases (Crypto.encrypt b.aead v.cipher env draw plain new)) [
            | inr (e, bad) ↦ absurd (ground arith)
            | inl (sealed, seals) ↦
                let p = reencrypt-eq draw name s plain sealed found opened seals in
                let q : item ≡ record {
                  name = name;
                  ciphertext = sealed.ciphertext;
                  nonce = sealed.nonce;
                  algorithm = sealed.algorithm;
                } =
                  ok-inj _ _ (sym h ∙ p) in
                let (opens, refuses) =
                  decrypt-encrypt b.aead sound env fills v.cipher draw plain new old sealed differ
                    seals in
                record {
                  stored = s;
                  plain = plain;
                  named = ap (λ x. x.name) q;
                  found = found;
                  before = opened;
                  after = ap (λ x. Crypto.decrypt b.aead (item_seal x) new) q ∙ opens;
                  lost = ap (λ x. Crypto.decrypt b.aead (item_seal x) old) q ∙ refuses;
                }
          ]
    ]
  ]

  pub reencrypt_all-MovedAll :
      (draw : ℕ) (metas : List SecretMetadata) (items : List BatchUpdateItem)
      → reencrypt_all b env draw v old new metas ≡ ok items
      → MovedAll metas items
  unfolding reencrypt_all
  reencrypt_all-MovedAll draw [] [] h = tt
  reencrypt_all-MovedAll draw [] (item ∷ items) h = absurd (ground arith)
  reencrypt_all-MovedAll draw (meta ∷ metas) items h =
      elim (Result-cases (reencrypt b env draw v old new meta.name)) [
        | inr (e, bad) ↦ absurd (ground arith)
        | inl (item, good) ↦ elim (Result-cases (reencrypt_all b env (draw + 1) v old new metas)) [
          | inr (e, bad) ↦ absurd (ground arith)
          | inl (rest, goods) ↦
              let q : items ≡ item ∷ rest = ground arith in
              rw q (
                reencrypt-Moved draw meta.name item good,
                reencrypt_all-MovedAll (draw + 1) metas rest goods,
              )
        ]
      ]

module _ {KS SS AS : Type 0} (b : Backends KS SS AS) (sound : IsAead b.aead) (env : Env)
    (fills : FillsBuffer env) (v : Vault KS SS AS) (peer : Text) (old : Bytes)
    (initialized : v.dek ≡ some old) (differ : env.random_bytes 0 32 ≢ old) where
  abbrev new_dek : Bytes
  new_dek = env.random_bytes 0 32

  abbrev AllMoved : List SecretMetadata → List BatchUpdateItem → Type 0
  AllMoved = MovedAll b sound env fills v old new_dek differ

  -- What the loop of the rotation found.
  pub rotated-items :
      (metas : List SecretMetadata) (items : List BatchUpdateItem)
      → b.secrets.list v.store ≡ ok metas
      → reencrypt_all b env 1 v old new_dek metas ≡ ok items
      → rotate_dek b env v peer ≡ commit_rotation b env v new_dek items peer
  unfolding rotate_dek
  rotated-items metas items listed sealed = ground (arith, initialized)

  -- A rotation that succeeds has replaced each secret that the store listed, in one batch,
  -- by the same plaintext sealed under the new key, which the old key opens no more, and
  -- the new key is the one in memory.
  pub rotate_dek-ok :
      (rotate_dek b env v peer).0 ≡ ok tt
      → let w = (rotate_dek b env v peer).1 in
        (metas : List SecretMetadata) × (items : List BatchUpdateItem) × (b.secrets.list v.store
          ≡ ok metas)
        × AllMoved metas items
        × ((b.secrets.batch_update v.store env items).0 ≡ ok tt)
        × (w.store ≡ (b.secrets.batch_update v.store env items).1)
        × (w.dek ≡ some new_dek)
        × (w.leases ≡ v.leases)
  unfolding rotate_dek commit_rotation trace_and_record
  rotate_dek-ok h = elim (Result-cases (b.secrets.list v.store)) [
    | inr (e, bad) ↦ absurd (ground (arith, initialized))
    | inl (metas, listed) ↦ elim (Result-cases (reencrypt_all b env 1 v old new_dek metas)) [
      | inr (e, bad) ↦ absurd (ground (arith, initialized))
      | inl (items, sealed) ↦ (
        metas,
        items,
        listed,
        reencrypt_all-MovedAll b sound env fills v old new_dek differ 1 metas items sealed,
        ground (arith, initialized),
        ground (arith, initialized),
        ground (arith, initialized),
        ground (arith, initialized),
      )
    ]
  ]
