-- ===== src/Tests/Strandings.antt =====
-- A rotation over Postgres that the key source refuses.
use zerolease.Prelude.{
  ℕ, ◌≡◌, ◌≢◌, ◌⊎◌, refl, ap, some, none, List, [], ◌∷◌, Text, codes, pos, arith, any, find,
  text_beq, from_utf8, utf8_run, continuation,
}
use zerolease.Types.Secrets.{Bytes, aes256_gcm, pat, SecretMetadata, algorithm_as_str, kind_as_str}
use zerolease.Error.{Error, not_supported, text, decryption_failed, ok, err}
use zerolease.Env.{Env}
use zerolease.Audit.{AuditEntry}
use zerolease.Crypto
use zerolease.Store.{StoreSecretParams, BatchUpdateItem, parse_cipher_algorithm, parse_secret_kind}
use zerolease.Sqlite.{Table, row_of}
use zerolease.Postgres
use zerolease.Postgres.Batches.{postgres-TakesBatches}
use zerolease.Vault.State.{Vault, Backends, KeySource, decrypt}
use zerolease.Vault.Leases.{read_secret}
use zerolease.Vault.Secrets.{rotate_dek, reencrypt, reencrypt_all}
use zerolease.Vault.Stranding.{rotate_dek-strands}
use zerolease.Tests.Sample.{
  list_log, toy_aead, toy_aead-IsAead, at_time, at_time-FillsBuffer, policy, seal_key, zeros,
}

abbrev gh : Text
gh = codes "gh"

-- A key source that cannot keep a new key, as the one that reads an environment variable.
abbrev no_rotation : Error
no_rotation = not_supported (text (codes "rotation"))

abbrev fixed_keys : KeySource Bytes
fixed_keys = record {
  load_or_create_dek = λ k. (ok k, k);
  rotate_dek = λ k new. (err no_rotation, k);
}

abbrev fixed : Backends Bytes Table (List AuditEntry)
fixed = record {
  keys = fixed_keys;
  secrets = Postgres.postgres (λ t. t);
  log = list_log;
  aead = toy_aead;
}

abbrev old : Bytes
old = 1 ∷ []

abbrev params : StoreSecretParams
params = record {
  name = gh;
  ciphertext = seal_key old (codes "pw");
  nonce = zeros 12;
  algorithm = aes256_gcm;
  kind = pat;
  description = none;
}

abbrev table : Table
unfolding Postgres.put Postgres.new_row
table = (Postgres.put (λ t. t) [] (at_time 3 8) params).1

abbrev ready : Vault Bytes Table (List AuditEntry)
ready = record {
  key_source = old;
  store = table;
  audit = [];
  policy = policy;
  leases = [];
  sessions = [];
  dek = some old;
  cipher = aes256_gcm;
  max_leases_per_agent = 100;
}

abbrev env : Env
env = at_time 10 30

abbrev metas : List SecretMetadata
metas =
    record {
      id = 8;
      name = gh;
      kind = pat;
      description = none;
      created_at = pos 3000000000;
      updated_at = pos 3000000000;
      version = 1;
    }
    ∷ []

abbrev items : List BatchUpdateItem
items =
    record {
      name = gh;
      ciphertext = seal_key (zeros 32) (codes "pw");
      nonce = zeros 12;
      algorithm = aes256_gcm;
    }
    ∷ []

abbrev first : Bytes → ℕ
first [] = 0
first (b ∷ s) = b

fresh_key : env.random_bytes 0 32 ≢ old
fresh_key e = let h = ap first e in omega arith

rotate_dek-strands_example :
    let r = rotate_dek fixed env ready (codes "root") in
    let batch = Postgres.batch_update (λ t. t) table env items in
    ((x : Error) × (batch.0 ≡ err x) × (r.0 ≡ err x) × (read_secret fixed r.1 gh ≡ ok (codes "pw")))
    ⊎ ((batch.0 ≡ ok tt)
        × (r.0 ≡ err no_rotation)
        × (read_secret fixed r.1 gh ≡ err decryption_failed))
unfolding table Postgres.postgres Postgres.put Postgres.new_row Postgres.get Postgres.list
    Postgres.read_row Postgres.row_to_stored_secret Postgres.row_to_metadata row_of find any
    text_beq algorithm_as_str kind_as_str parse_cipher_algorithm parse_secret_kind reencrypt_all
    reencrypt Crypto.decrypt Crypto.encrypt Crypto.open_with Crypto.seal_with decrypt from_utf8
    utf8_run continuation
rotate_dek-strands_example =
    rotate_dek-strands fixed toy_aead-IsAead env (at_time-FillsBuffer 10 30) ready (codes "root")
      old refl fresh_key (postgres-TakesBatches (λ t. t)) metas items no_rotation gh (codes "pw")
      refl refl refl refl
