-- ===== src/Tests/SecretsManagers.antt =====
-- The theorems on the store on Secrets Manager, at concrete inputs.
use zerolease.Prelude.{
  ◌≡◌, refl, false, Option, none, some, List, [], ◌∷◌, ◌++◌, codes, pos, arith, Text, from_utf8,
  utf8_run, continuation, text_beq,
}
use zerolease.Types.Secrets.{Bytes, aes256_gcm, pat, kind_as_str, algorithm_as_str}
use zerolease.Error.{ok, err, secret_not_found}
use zerolease.Audit.{AuditEntry, entry_new}
use zerolease.Crypto
use zerolease.Store.{
  StoredSecret, BatchUpdateItem, metadata_of, parse_cipher_algorithm, parse_secret_kind,
}
use zerolease.SecretsManager.{
  Service, ListedSecret, Page, answer, from_stored, metadata_tags, serialize_payload, sm_name,
}
use zerolease.SecretsManager.Operations.{
  get, update, update_all, put_value, put, create, new_secret, batch_update,
}
use zerolease.SecretsManager.Listing.{entry_metadata, read_entries, list}
use zerolease.SecretsManager.Listed.{
  IsListed, entry_metadata-IsListed, Paged, last, more, list-Paged,
}
use zerolease.SecretsManager.Backend.{aws_backends, secrets_manager, read_secret-store_secret}
use zerolease.Vault.State.{Vault, encrypt, trace_and_record}
use zerolease.Vault.Leases.{read_secret}
use zerolease.Vault.Secrets.{store_secret}
use zerolease.Tests.Sample.{
  plain_keys, list_log, toy_aead, toy_aead-IsAead, at_time, at_time-FillsBuffer, policy,
}
use zerolease.Tests.Aws.{codec, codec-IsPayloadCodec, Values, service, service-IsService}

abbrev gh : Text
gh = codes "gh"

abbrev prefix : Text
prefix = codes "z"

abbrev secret : StoredSecret
secret = record {
  id = 8;
  name = gh;
  ciphertext = 1 ∷ [];
  nonce = 2 ∷ [];
  algorithm = aes256_gcm;
  kind = pat;
  description = none;
  created_at = pos 3;
  updated_at = pos 3;
  version = 1;
}

abbrev listed : ListedSecret
listed = record {
  name = some (sm_name prefix gh);
  description = some (codes "zerolease secret: gh");
  tags = metadata_tags codec (from_stored codec secret);
  created_date = none;
  last_changed_date = none;
}

listed-IsListed : IsListed codec codec-IsPayloadCodec prefix secret listed
listed-IsListed = record { named = refl; tagged = refl }

entry_metadata-IsListed_example :
    entry_metadata codec prefix 9 listed
    ≡ some (record (metadata_of secret) {
      id = 9;
      kind = pat;
      description = some (codes "zerolease secret: gh");
    })
entry_metadata-IsListed_example =
    entry_metadata-IsListed codec codec-IsPayloadCodec prefix secret listed 9 listed-IsListed
      (omega arith)

-- Two pages, of which the first has a secret of another prefix.
abbrev pages : Option Text → Page
pages none = record {
  secret_list = record listed { name = some (codes "other/gh") } ∷ listed ∷ [];
  next_token = some (codes "2");
}
pages (some _) = record { secret_list = listed ∷ []; next_token = none }

abbrev paging : Service Values
paging = record service { list_secrets = λ w filter token. answer (pages token) }

two_pages : Paged paging prefix [] none 2 ((pages none).secret_list ++ (listed ∷ []))
two_pages =
    more none (pages none) (codes "2") 1 (listed ∷ []) refl refl
      (last (some (codes "2")) (pages (some (codes "2"))) refl refl)

list-Paged_example :
    list codec prefix paging 2 [] (at_time 3 20)
    ≡ some (
        ok (read_entries codec prefix (at_time 3 20) 0 ((pages none).secret_list ++ (listed ∷ []))))
list-Paged_example =
    list-Paged codec prefix paging [] (at_time 3 20) 2 2 ((pages none).secret_list ++ (listed ∷ []))
      two_pages (omega arith)

abbrev item : Text → BatchUpdateItem
item name = record { name = name; ciphertext = 5 ∷ []; nonce = 6 ∷ []; algorithm = aes256_gcm }

-- The second item is not there.
abbrev half : List BatchUpdateItem
half = item gh ∷ item (codes "no") ∷ []

abbrev values : Values
unfolding put create new_secret serialize_payload sm_name from_stored kind_as_str algorithm_as_str
values =
    (put codec service prefix [] (at_time 3 8) (record {
      name = gh;
      ciphertext = 1 ∷ [];
      nonce = 2 ∷ [];
      algorithm = aes256_gcm;
      kind = pat;
      description = none;
    })).1

half_applied : batch_update codec service prefix values (at_time 4 8) half ≡ (
  err (secret_not_found (codes "no")),
  (batch_update codec service prefix values (at_time 4 8) (item gh ∷ [])).1,
)
unfolding values batch_update update_all update put_value text_beq parse_cipher_algorithm
    parse_secret_kind
half_applied = refl

half_changed :
    get codec service prefix (batch_update codec service prefix values (at_time 4 8) half).1 gh
    ≡ ok (record secret {
      ciphertext = 5 ∷ [];
      nonce = 6 ∷ [];
      created_at = pos 3000000000;
      updated_at = pos 4000000000;
      version = 2;
    })
unfolding values batch_update update_all update put_value text_beq parse_cipher_algorithm
    parse_secret_kind
half_changed = refl

abbrev ready : Vault Bytes Values (List AuditEntry)
ready = record {
  key_source = 1 ∷ [];
  store = [];
  audit = [];
  policy = policy;
  leases = [];
  sessions = [];
  dek = some (1 ∷ []);
  cipher = aes256_gcm;
  max_leases_per_agent = 100;
}

read_secret-store_secret_example :
    let b =
      aws_backends plain_keys list_log toy_aead toy_aead-IsAead codec codec-IsPayloadCodec service
        service-IsService prefix false 1
        (at_time 3 20) in
    read_secret b (store_secret b (at_time 3 8) ready gh (codes "pw") pat none (codes "root")).1 gh
    ≡ ok (codes "pw")
unfolding aws_backends secrets_manager store_secret put create new_secret serialize_payload sm_name
    encrypt Crypto.encrypt Crypto.seal_with trace_and_record entry_new metadata_of from_utf8
    utf8_run continuation text_beq
read_secret-store_secret_example =
    read_secret-store_secret plain_keys list_log toy_aead toy_aead-IsAead codec codec-IsPayloadCodec
      service service-IsService prefix false 1 (at_time 3 20) (at_time 3 8)
      (at_time-FillsBuffer 3 8) ready gh (codes "pw") pat none (codes "root")
      {meta = record (metadata_of secret) {
        created_at = pos 3000000000;
        updated_at = pos 3000000000;
      }}
      refl refl
