-- ===== src/Tests/Stores.antt =====
-- The theorems on stored names and the SQLite store, at concrete inputs.
use zerolease.Prelude.{
  ◌≡◌, refl, none, some, List, [], ◌∷◌, Text, codes, pos, any, from_utf8, utf8_run, continuation,
}
use zerolease.Types.Secrets.{Bytes, aes256_gcm, pat, SecretMetadata}
use zerolease.Error.{ok}
use zerolease.Audit.{AuditEntry, entry_new}
use zerolease.Crypto
use zerolease.Store.{StoredSecret, StoreSecretParams, BatchUpdateItem, metadata_of}
use zerolease.Sqlite.{Table, put, rusqlite}
use zerolease.Postgres
use zerolease.Sqlite.Stored.{sqlite_backends, store_secret-read_secret}
use zerolease.Vault.State.{Vault, encrypt, trace_and_record}
use zerolease.Vault.Leases.{read_secret}
use zerolease.Vault.Secrets.{store_secret}
use zerolease.Tests.Sample.{
  plain_keys, list_log, toy_aead, toy_aead-IsAead, at_time, at_time-FillsBuffer, policy,
}

abbrev gh : Text
gh = codes "gh"

abbrev params : StoreSecretParams
params = record {
  name = gh;
  ciphertext = 1 ∷ [];
  nonce = 2 ∷ [];
  algorithm = aes256_gcm;
  kind = pat;
  description = none;
}

abbrev put_secret : StoredSecret
put_secret = record {
  id = 8;
  name = gh;
  ciphertext = 1 ∷ [];
  nonce = 2 ∷ [];
  algorithm = aes256_gcm;
  kind = pat;
  description = none;
  created_at = pos 3000000000;
  updated_at = pos 3000000000;
  version = 1;
}

abbrev ready : Vault Bytes Table (List AuditEntry)
ready = record {
  key_source = 1 ∷ [];
  store = [];
  audit = [];
  policy = policy;
  leases = [];
  sessions = [];
  dek = some (1 ∷ []);
  cipher = aes256_gcm;
  max_leases_per_agent = 100;
}

abbrev metadata : SecretMetadata
metadata = record {
  id = 8;
  name = gh;
  kind = pat;
  description = none;
  created_at = pos 3000000000;
  updated_at = pos 3000000000;
  version = 1;
}

store_secret-read_secret_example :
    let b = sqlite_backends plain_keys list_log toy_aead toy_aead-IsAead in
    read_secret b (store_secret b (at_time 3 8) ready gh (codes "pw") pat none (codes "root")).1 gh
    ≡ ok (codes "pw")
unfolding sqlite_backends rusqlite store_secret put any encrypt Crypto.encrypt Crypto.seal_with
    trace_and_record entry_new metadata_of from_utf8 utf8_run continuation
store_secret-read_secret_example =
    store_secret-read_secret plain_keys list_log toy_aead toy_aead-IsAead (at_time 3 8)
      (at_time-FillsBuffer 3 8) ready gh (codes "pw") pat none (codes "root") {meta = metadata} refl
      refl

-- A table of Postgres with the secret, whose times it keeps in full
abbrev kept : Table
unfolding Postgres.put Postgres.new_row
kept = (Postgres.put (λ t. t) [] (at_time 3 8) params).1

abbrev both : List BatchUpdateItem
both =
    record { name = gh; ciphertext = 5 ∷ []; nonce = 6 ∷ []; algorithm = aes256_gcm }
    ∷ record { name = gh; ciphertext = 7 ∷ []; nonce = 8 ∷ []; algorithm = aes256_gcm }
    ∷ []
