-- ===== src/KeySources/Kms/Loading.antt =====
-- src/keysource/kms.rs: the key that was sealed last is the key that is loaded.
use zerolease.Prelude.{
  ◌≡◌, ◌∙◌, inl, inr, true, none, some, Text, arith, ◌==◌, nat_eq, length, Bool-cases, Option-cases,
}
use zerolease.Types.Secrets.{Bytes}
use zerolease.Error.{Result, ok, err}
use zerolease.KeySources.Kms.{
  KmsClient, DekFile, EncryptedDek, load_dek, seal_dek, given, sealed_under, load_or_create_dek,
  rotate_dek,
}

-- What the service documents: a ciphertext that it made opens to the plaintext.
abbrev pub Opens : KmsClient → Type 0
Opens client =
    (key ciphertext : Bytes)
    → client.encrypt key ≡ some ciphertext
    → client.decrypt ciphertext ≡ some key

module _ (client : KmsClient) (key_id : Text) (opens : Opens client) where
  -- The file holds the key.
  abbrev pub HoldsKey : DekFile → Bytes → Type 0
  HoldsKey file key =
      (ciphertext : Bytes) × (file.blob ≡ some ciphertext) × (client.decrypt ciphertext ≡ some key)

  seal_dek-HoldsKey :
      (file after : DekFile) (key ciphertext : Bytes)
      → seal_dek client key_id file key ≡ (ok ciphertext, after)
      → HoldsKey after key × (after.readable ≡ file.readable)
  unfolding seal_dek
  seal_dek-HoldsKey file after key ciphertext e = elim (Option-cases (client.encrypt key)) [
    | inl bad ↦ absurd (ground arith)
    | inr (sealed, good) ↦ elim (Bool-cases file.writable) [
      | inr shut ↦ absurd (ground arith)
      | inl written ↦ ((sealed, ground arith, opens key sealed good), ground arith)
    ]
  ]

  load_or_create_dek-HoldsKey :
      (file : DekFile) (key fresh : Bytes)
      → HoldsKey file key
      → file.readable ≡ true
      → length key ≡ 32
      → load_or_create_dek client key_id file fresh ≡ (ok key, file)
  unfolding load_or_create_dek load_dek
  load_or_create_dek-HoldsKey file key fresh (ciphertext, has, plain) r size =
      let len : (length key == 32) ≡ true = ground arith in ground arith

  given-ok :
      (key : Bytes) (r : Result Bytes × DekFile) (got : Bytes) (after : DekFile)
      → given client key_id key r ≡ (ok got, after)
      → (ciphertext : Bytes) × (r ≡ (ok ciphertext, after)) × (got ≡ key)
  given-ok key (err e, file) got after h = absurd (ground arith)
  given-ok key (ok ciphertext, file) got after h = (ciphertext, ground arith, ground arith)

  sealed_under-ok :
      (r : Result Bytes × DekFile) (dek : EncryptedDek) (after : DekFile)
      → sealed_under client key_id r ≡ (ok dek, after)
      → r ≡ (ok dek.ciphertext, after)
  sealed_under-ok (err e, file) dek after h = absurd (ground arith)
  sealed_under-ok (ok ciphertext, file) dek after h = ground arith

  -- With a file that can be read and a service that opens what it sealed: where there is no file, a
  -- call of `load_or_create_dek` that succeeds gives the fresh key of 32 bytes, and every later
  -- call gives that key again and leaves the file as it is.
  pub load_or_create_dek-again :
      (file after : DekFile) (fresh key other : Bytes)
      → file.blob ≡ none
      → file.readable ≡ true
      → length fresh ≡ 32
      → load_or_create_dek client key_id file fresh ≡ (ok key, after)
      → (key ≡ fresh) × (load_or_create_dek client key_id after other ≡ (ok key, after))
  unfolding load_or_create_dek
  load_or_create_dek-again file after fresh key other none_yet r size e =
      let (ciphertext, sealed, same) =
        given-ok fresh (seal_dek client key_id file fresh) key after
          (rw (none_yet, load_or_create_dek) at e) in
      let (holds, kept) = seal_dek-HoldsKey file after fresh ciphertext sealed in
      (same, rw same (load_or_create_dek-HoldsKey after fresh other holds (kept ∙ r) size))

  -- With the same file and service: after a rotation that succeeds, every call of
  -- `load_or_create_dek` gives the new key of 32 bytes, and leaves the file as it is.
  pub load_or_create_dek-rotate_dek :
      (file after : DekFile) (new_dek other : Bytes) (dek : EncryptedDek)
      → file.readable ≡ true
      → length new_dek ≡ 32
      → rotate_dek client key_id file new_dek ≡ (ok dek, after)
      → load_or_create_dek client key_id after other ≡ (ok new_dek, after)
  unfolding rotate_dek
  load_or_create_dek-rotate_dek file after new_dek other dek r size e =
      let sealed = sealed_under-ok (seal_dek client key_id file new_dek) dek after e in
      let (holds, kept) = seal_dek-HoldsKey file after new_dek dek.ciphertext sealed in
      load_or_create_dek-HoldsKey after new_dek other holds (kept ∙ r) size
