-- ===== src/KeySources/Keychain.antt =====
-- src/keysource/keychain.rs: the key in an entry of the operating system's keychain. The crate
-- `keyring` is the state of one entry: what it holds, and whether it can be read and written.
use zerolease.Prelude.{Bool, not, Option, none, some, codes, ◌==◌, nat_eq, if◌then◌else◌, length}
use zerolease.Types.Secrets.{Bytes}
use zerolease.Error.{key_source_unavailable, invalid_config, text, Result, ok, err}

pub record Entry : Type 0 where
  pub secret : Option Bytes
  pub readable : Bool
  pub writable : Bool

-- `load_or_create_blocking`; `fresh` is what OsRng fills the new key with.
unfoldable pub load_or_create_blocking : Entry → Bytes → Result Bytes × Entry
load_or_create_blocking entry fresh =
    if not entry.readable
    then (err (key_source_unavailable (text (codes "keychain error"))), entry)
    else elim entry.secret [
      | some key ↦
          if length key == 32
          then (ok key, entry)
          else (err (invalid_config (text (codes "keychain entry has wrong key length"))), entry)
      | none ↦
          if not entry.writable
          then (
            err (key_source_unavailable (text (codes "failed to store DEK in keychain"))),
            entry,
          )
          else (ok fresh, record entry { secret = some fresh })
    ]

unfoldable pub rotate_dek : Entry → Bytes → Result Bytes × Entry
rotate_dek entry new_dek =
    (err (key_source_unavailable (text (codes "DEK rotation not yet supported"))), entry)
