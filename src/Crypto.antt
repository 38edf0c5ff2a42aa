-- ===== src/Crypto.antt =====
-- src/crypto.rs: the cipher dispatcher. The two AEAD ciphers themselves are crates, a parameter:
-- what sealing and opening do under a key and a nonce, and whether a key is taken at all.
pub mod RoundTrip
use zerolease.Prelude.{ℕ, Option, none, some, Text, length, ◌==◌, nat_eq, if◌then◌else◌}
use zerolease.Types.Secrets.{Bytes, CipherAlgorithm, aes256_gcm, xchacha20_poly1305}
use zerolease.Error.{Error, encryption_failed, decryption_failed, Result, ok, err, ◌>>=◌}
use zerolease.Env.{Env}

pub record Aead : Type 0 where
  -- `new_from_slice(key)` then `encrypt(nonce, plaintext)`; `none` is an error of either
  pub seal : CipherAlgorithm → Bytes → Bytes → Bytes → Option Bytes
  pub unseal : CipherAlgorithm → Bytes → Bytes → Bytes → Option Bytes

pub record Sealed : Type 0 where
  pub ciphertext : Bytes
  pub nonce : Bytes
  pub algorithm : CipherAlgorithm

abbrev pub nonce_size : CipherAlgorithm → ℕ
nonce_size aes256_gcm = 12
nonce_size xchacha20_poly1305 = 24

abbrev pub or_fail : Option Bytes → Error → Result Bytes
or_fail none e = err e
or_fail (some a) e = ok a

module _ (aead : Aead) where
  -- `encrypt_aes_gcm` and `encrypt_xchacha`, under the nonce that was generated.
  unfoldable pub seal_with : CipherAlgorithm → Bytes → Bytes → Bytes → Result (Bytes × Bytes)
  seal_with algorithm plaintext key nonce =
      or_fail (aead.seal algorithm key nonce plaintext) encryption_failed >>= λ ciphertext.
      ok (ciphertext, nonce)

  -- `decrypt_aes_gcm` and `decrypt_xchacha`: the length of the nonce is checked first.
  unfoldable pub open_with : CipherAlgorithm → Bytes → Bytes → Bytes → Result Bytes
  open_with algorithm ciphertext nonce key =
      if length nonce == nonce_size algorithm
      then or_fail (aead.unseal algorithm key nonce ciphertext) decryption_failed
      else err decryption_failed

  -- `Cipher::encrypt`, with the default algorithm of the cipher; `draw` numbers the nonce.
  unfoldable pub encrypt : CipherAlgorithm → Env → ℕ → Bytes → Bytes → Result Sealed
  unfolding seal_with
  encrypt default env draw plaintext key =
      seal_with default plaintext key (env.random_bytes draw (nonce_size default)) >>= λ (c, n).
      ok (record { ciphertext = c; nonce = n; algorithm = default })

  -- `Cipher::decrypt`, by the algorithm of the sealed value.
  unfoldable pub decrypt : Sealed → Bytes → Result Bytes
  unfolding open_with
  decrypt sealed key = open_with sealed.algorithm sealed.ciphertext sealed.nonce key
