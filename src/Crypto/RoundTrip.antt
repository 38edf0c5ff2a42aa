-- ===== src/Crypto/RoundTrip.antt =====
-- src/crypto.rs: what is sealed under a key opens under that key, and under no other.
use zerolease.Prelude.{ℕ, ◌≡◌, ◌≢◌, none, some, arith, Option-cases, inl, inr}
use zerolease.Types.Secrets.{Bytes, CipherAlgorithm}
use zerolease.Error.{decryption_failed, ok, err}
use zerolease.Env.{Env, FillsBuffer}
use zerolease.Crypto.{Aead, Sealed, nonce_size, encrypt, decrypt}

-- What the crates document: a sealed text opens under its key and nonce, and the tag is refused
-- under another key.
pub record IsAead (a : Aead) : Type 0 where
  pub opens :
      (alg : CipherAlgorithm) (key nonce plain cipher : Bytes)
      → a.seal alg key nonce plain ≡ some cipher
      → a.unseal alg key nonce cipher ≡ some plain
  pub refuses :
      (alg : CipherAlgorithm) (key other nonce plain cipher : Bytes)
      → a.seal alg key nonce plain ≡ some cipher
      → key ≢ other
      → a.unseal alg other nonce cipher ≡ none

module _ (aead : Aead) (sound : IsAead aead) (env : Env) (fills : FillsBuffer env) where
  pub opens-encrypt :
      (default : CipherAlgorithm) (draw : ℕ) (plain key : Bytes) (sealed : Sealed)
      → encrypt aead default env draw plain key ≡ ok sealed
      → decrypt aead sealed key ≡ ok plain
  unfolding encrypt decrypt
  opens-encrypt default draw plain key sealed h =
      let nonce = env.random_bytes draw (nonce_size default) in
      elim (Option-cases (aead.seal default key nonce plain)) [
        | inl e ↦ absurd (ground arith)
        | inr (c, e) ↦
            ground (arith, fills draw (nonce_size default), sound.opens default key nonce plain c)
      ]

  -- Whatever the default algorithms of the two ciphers are, what one has encrypted the other
  -- decrypts to the plaintext under the same key, and under any other key decryption fails.
  pub decrypt-encrypt :
      (default : CipherAlgorithm) (draw : ℕ) (plain key other : Bytes) (sealed : Sealed)
      → key ≢ other
      → encrypt aead default env draw plain key ≡ ok sealed
      → (decrypt aead sealed key ≡ ok plain) × (decrypt aead sealed other ≡ err decryption_failed)
  unfolding encrypt decrypt
  decrypt-encrypt default draw plain key other sealed ne h =
      let nonce = env.random_bytes draw (nonce_size default) in
      elim (Option-cases (aead.seal default key nonce plain)) [
        | inl e ↦ absurd (ground arith)
        | inr (c, e) ↦ (
          ground (arith, fills draw (nonce_size default), sound.opens default key nonce plain c),
          ground (
            arith,
            fills draw (nonce_size default),
            sound.refuses default key other nonce plain c,
          ),
        )
      ]
