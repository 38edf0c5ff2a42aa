-- ===== src/KeySources/Kms.antt =====
-- src/keysource/kms.rs: the key in a file, sealed by the AWS service. The service is a parameter,
-- the file is a state: its bytes if it exists, and whether it can be read and written.
pub mod Loading
use zerolease.Prelude.{
  ℕ, Bool, true, false, not, Option, none, some, Text, codes, ◌==◌, nat_eq, if◌then◌else◌, length,
}
use zerolease.Types.Secrets.{Bytes}
use zerolease.Error.{Message, key_source_unavailable, invalid_config, text, Result, ok, err}
use zerolease.Vault.State.{KeySource}

-- The calls of the service under the key's id. `none` is an error, or an answer without bytes.
pub record KmsClient : Type 0 where
  pub encrypt : Bytes → Option Bytes
  pub decrypt : Bytes → Option Bytes

pub record DekFile : Type 0 where
  pub blob : Option Bytes
  pub readable : Bool
  pub writable : Bool

pub record EncryptedDek : Type 0 where
  pub ciphertext : Bytes
  pub key_id : Text

module _ (client : KmsClient) (key_id : Text) where
  -- The branch of a file that exists.
  unfoldable pub load_dek : DekFile → Bytes → Result Bytes
  load_dek file ciphertext =
      if not file.readable
      then err (key_source_unavailable (text (codes "failed to read encrypted DEK")))
      else elim (client.decrypt ciphertext) [
        | none ↦ err (key_source_unavailable (text (codes "KMS decrypt failed")))
        | some key ↦
            if length key == 32
            then ok key
            else err (invalid_config (text (codes "KMS decrypted DEK has wrong length")))
      ]

  -- A key is sealed and written over the file.
  unfoldable pub seal_dek : DekFile → Bytes → Result Bytes × DekFile
  seal_dek file key = elim (client.encrypt key) [
    | none ↦ (err (key_source_unavailable (text (codes "KMS encrypt failed"))), file)
    | some ciphertext ↦
        if not file.writable
        then (err (key_source_unavailable (text (codes "failed to write encrypted DEK"))), file)
        else (ok ciphertext, record file { blob = some ciphertext })
  ]

  -- The key, when it was sealed.
  abbrev pub given : Bytes → Result Bytes × DekFile → Result Bytes × DekFile
  given key (err e, file) = (err e, file)
  given key (ok _, file) = (ok key, file)

  -- `fresh` is what OsRng fills the new key with.
  unfoldable pub load_or_create_dek : DekFile → Bytes → Result Bytes × DekFile
  unfolding load_dek seal_dek
  load_or_create_dek file fresh = elim file.blob [
    | some ciphertext ↦ (load_dek file ciphertext, file)
    | none ↦ given fresh (seal_dek file fresh)
  ]

  abbrev pub sealed_under : Result Bytes × DekFile → Result EncryptedDek × DekFile
  sealed_under (err e, file) = (err e, file)
  sealed_under (ok ciphertext, file) =
      (ok (record { ciphertext = ciphertext; key_id = key_id }), file)

  unfoldable pub rotate_dek : DekFile → Bytes → Result EncryptedDek × DekFile
  unfolding seal_dek
  rotate_dek file new_dek = sealed_under (seal_dek file new_dek)
