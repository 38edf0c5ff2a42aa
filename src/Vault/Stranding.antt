-- ===== src/Vault/Stranding.antt =====
-- src/vault.rs: a rotation that the key source refuses. The store has taken the batch by then.
use zerolease.Prelude.{
  ◌≡◌, ◌≢◌, refl, sym, ap, ◌∙◌, ◌⊎◌, inl, inr, some, List, [], ◌∷◌, Text, arith, Member, here,
  there, not-Member-nil,
}
use zerolease.Types.Identity.{SecretName}
use zerolease.Types.Secrets.{Bytes, SecretMetadata}
use zerolease.Error.{Error, decryption_failed, ok, err, Result-cases}
use zerolease.Env.{Env, FillsBuffer}
use zerolease.Store.{StoredSecret, BatchUpdateItem, SecretStore}
use zerolease.Crypto
use zerolease.Crypto.RoundTrip.{IsAead}
use zerolease.Vault.State.{Vault, Backends, decrypt}
use zerolease.Vault.Leases.{read_secret}
use zerolease.Vault.Secrets.{reencrypt_all, commit_rotation, rotate_dek}
use zerolease.Vault.Rotation.{
  stored_seal, item_seal, MovedAll, reencrypt_all-MovedAll, rotated-items,
}

-- What a store with transactions promises: a secret that can be read is listed, a batch that
-- succeeds leaves a secret that it has items for under the seal of one of its items, and a batch
-- that fails leaves what can be read.
pub record TakesBatches {SS : Type 0} (store : SecretStore SS) : Type 0 where
  pub listed :
      (w : SS) (metas : List SecretMetadata) (name : SecretName) (s : StoredSecret)
      → store.list w ≡ ok metas
      → store.get w name ≡ ok s
      → (meta : SecretMetadata) × Member meta metas × (meta.name ≡ name)
  pub taken :
      (w : SS) (env : Env) (items : List BatchUpdateItem) (item : BatchUpdateItem)
      (s : StoredSecret)
      → (store.batch_update w env items).0 ≡ ok tt
      → store.get w item.name ≡ ok s
      → Member item items
      → (last : BatchUpdateItem) × (t : StoredSecret) × Member last items
        × (store.get (store.batch_update w env items).1 item.name ≡ ok t)
        × (stored_seal t ≡ item_seal last)
  pub left :
      (w : SS) (env : Env) (items : List BatchUpdateItem) (name : SecretName) (s : StoredSecret)
      (e : Error)
      → (store.batch_update w env items).0 ≡ err e
      → store.get w name ≡ ok s
      → store.get (store.batch_update w env items).1 name ≡ ok s

Member-cases : {A : Type 0} (a x : A) (xs : List A) → Member a (x ∷ xs) → (x ≡ a) ⊎ Member a xs
Member-cases a _ _ (here xs) = inl refl
Member-cases a _ _ (there x xs m) = inr m

module _ {KS SS AS : Type 0} (b : Backends KS SS AS) where
  read_secret-found :
      (v : Vault KS SS AS) (name : SecretName) (plain : Text)
      → read_secret b v name ≡ ok plain
      → (s : StoredSecret) × (b.secrets.get v.store name ≡ ok s)
  read_secret-found v name plain h = elim (Result-cases (b.secrets.get v.store name)) [
    | inl found ↦ found
    | inr (e, missing) ↦ absurd (ground arith)
  ]

  read_secret-same :
      (v w : Vault KS SS AS) (name : SecretName)
      → b.secrets.get w.store name ≡ b.secrets.get v.store name
      → w.dek ≡ v.dek
      → read_secret b w name ≡ read_secret b v name
  unfolding decrypt
  read_secret-same v w name found key = rw (found, key) refl

  read_secret-lost :
      (w : Vault KS SS AS) (name : SecretName) (s : StoredSecret) (key : Bytes)
      → b.secrets.get w.store name ≡ ok s
      → w.dek ≡ some key
      → Crypto.decrypt b.aead (stored_seal s) key ≡ err decryption_failed
      → read_secret b w name ≡ err decryption_failed
  unfolding decrypt
  read_secret-lost w name s key found kept lost = rw (found, kept, lost) refl

module _ {KS SS AS : Type 0} (b : Backends KS SS AS) (sound : IsAead b.aead) (env : Env)
    (fills : FillsBuffer env) (v : Vault KS SS AS) (peer : Text) (old : Bytes)
    (initialized : v.dek ≡ some old) (differ : env.random_bytes 0 32 ≢ old) where
  abbrev AllMoved : List SecretMetadata → List BatchUpdateItem → Type 0
  AllMoved = MovedAll b sound env fills v old (env.random_bytes 0 32) differ

  item_of :
      (metas : List SecretMetadata) (items : List BatchUpdateItem) (meta : SecretMetadata)
      → AllMoved metas items
      → Member meta metas
      → (item : BatchUpdateItem) × Member item items × (item.name ≡ meta.name)
  item_of [] items meta moved at = absurd (not-Member-nil at)
  item_of (m ∷ metas) [] meta moved at = absurd moved
  item_of (m ∷ metas) (item ∷ items) meta (h, moved) at = elim (Member-cases meta m metas at) [
    | inl same ↦ (item, here items, h.named ∙ ap (λ x. x.name) same)
    | inr later ↦
        let (i, k, named) = item_of metas items meta moved later in (i, there item items k, named)
  ]

  item-lost :
      (metas : List SecretMetadata) (items : List BatchUpdateItem) (item : BatchUpdateItem)
      → AllMoved metas items
      → Member item items
      → Crypto.decrypt b.aead (item_seal item) old ≡ err decryption_failed
  item-lost metas [] item moved at = absurd (not-Member-nil at)
  item-lost [] (x ∷ items) item moved at = absurd moved
  item-lost (m ∷ metas) (x ∷ items) item (h, moved) at = elim (Member-cases item x items at) [
    | inl same ↦ ap (λ z. Crypto.decrypt b.aead (item_seal z) old) (sym same) ∙ h.lost
    | inr later ↦ item-lost metas items item moved later
  ]

  -- Over a store that takes batches as above, with a sound cipher and a new key that is not the old
  -- one: when the key source refuses the new key, a rotation that has re-encrypted what the store
  -- lists fails in one of two ways. Either the store refused the batch: a secret that could be read
  -- is read as before. Or the rotation answers with the error of the key source, and then no secret
  -- that could be read before can be decrypted by the vault, which has kept the old key.
  pub rotate_dek-strands :
      (keeps : TakesBatches b.secrets) (metas : List SecretMetadata) (items : List BatchUpdateItem)
      (e : Error) (name : SecretName) (plain : Text)
      → b.secrets.list v.store ≡ ok metas
      → reencrypt_all b env 1 v old (env.random_bytes 0 32) metas ≡ ok items
      → (b.keys.rotate_dek v.key_source (env.random_bytes 0 32)).0 ≡ err e
      → read_secret b v name ≡ ok plain
      → let r = rotate_dek b env v peer in
        let batch = b.secrets.batch_update v.store env items in
        ((x : Error) × (batch.0 ≡ err x) × (r.0 ≡ err x) × (read_secret b r.1 name ≡ ok plain))
        ⊎ ((batch.0 ≡ ok tt) × (r.0 ≡ err e) × (read_secret b r.1 name ≡ err decryption_failed))
  unfolding commit_rotation
  rotate_dek-strands keeps metas items e name plain listed sealed refused readable =
      let w = (rotate_dek b env v peer).1 in
      let batch = b.secrets.batch_update v.store env items in
      let run =
        rotated-items b sound env fills v peer old initialized differ metas items listed sealed in
      let (s, found) = read_secret-found b v name plain readable in
      let key : w.dek ≡ v.dek = ap (λ x. x.1.dek) run ∙ ground arith in
      let store : w.store ≡ batch.1 = ap (λ x. x.1.store) run ∙ ground arith in
      elim (Result-cases batch.0) [
        | inr (x, failed) ↦
            let kept = keeps.left v.store env items name s x failed found in
            inl (
              x,
              failed,
              ap (λ x. x.0) run ∙ ground arith,
              read_secret-same b v w name (ap (λ t. b.secrets.get t name) store ∙ kept ∙ sym found)
                    key
                  ∙ readable,
            )
        | inl (_, good) ↦
            let moved =
              reencrypt_all-MovedAll b sound env fills v old (env.random_bytes 0 32) differ 1 metas
                items sealed in
            let (meta, listed_at, named) = keeps.listed v.store metas name s listed found in
            let (item, in_batch, of_meta) = item_of metas items meta moved listed_at in
            let same = of_meta ∙ named in
            let (last, t, at, got, seal) =
              keeps.taken v.store env items item s good (ap (b.secrets.get v.store) same ∙ found)
                in_batch in
            let got' : b.secrets.get w.store name ≡ ok t =
              ap (λ t. b.secrets.get t name) store ∙ ap (b.secrets.get batch.1) (sym same) ∙ got in
            inr (
              good,
              ap (λ x. x.0) run ∙ ground arith,
              read_secret-lost b w name t old got' (key ∙ initialized) (
                  ap (λ z. Crypto.decrypt b.aead z old) seal ∙ item-lost metas items last moved at),
            )
      ]
