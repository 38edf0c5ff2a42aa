-- ===== src/SecretsManager/Operations.antt =====
-- crates/zerolease-store-aws-sm/src/store.rs: put, get, update, batch_update and delete.
use zerolease.Prelude.{
  ℕ, ◌+◌, ◌%◌, Bool, true, false, Option, none, some, List, [], ◌∷◌, ◌++◌, Text, codes,
  if◌then◌else◌,
}
use zerolease.Types.Identity.{SecretName}
use zerolease.Error.{storage, text, secret_not_found, secret_already_exists, Result, ok, err, ◌>>=◌}
use zerolease.Env.{Env}
use zerolease.Store.{StoredSecret, StoreSecretParams, BatchUpdateItem}
use zerolease.SecretsManager.{
  PayloadCodec, Service, ServiceError, resource_exists, resource_not_found, other_error,
  invalid_request, Sent, answer, refused, or_storage, from_stored, into_stored_secret,
  metadata_tags, serialize_payload, deserialize_payload, sm_name, contains,
}

abbrev pub failed_with : {A : Type 0} → Text → Result A
failed_with what = err (storage (text what))

-- The guard of `get` on an error of the service
abbrev pub is_gone : ServiceError → Bool
is_gone resource_not_found = true
is_gone (invalid_request (some m)) = contains m (codes "marked for deletion")
is_gone (invalid_request none) = false
is_gone resource_exists = false
is_gone other_error = false

-- An error of the service to a call on a secret that may not exist.
abbrev pub or_not_found : {A : Type 0} → SecretName → Text → ServiceError → Result A
or_not_found name what resource_not_found = err (secret_not_found name)
or_not_found name what resource_exists = failed_with what
or_not_found name what other_error = failed_with what
or_not_found name what (invalid_request _) = failed_with what

abbrev pub create_error : {A : Type 0} → SecretName → ServiceError → Result A
create_error name resource_exists = err (secret_already_exists name)
create_error name resource_not_found = failed_with (codes "Secrets Manager create failed")
create_error name other_error = failed_with (codes "Secrets Manager create failed")
create_error name (invalid_request _) = failed_with (codes "Secrets Manager create failed")

unfoldable pub new_secret : Env → StoreSecretParams → StoredSecret
new_secret env p = record {
  id = env.uuid 0;
  name = p.name;
  ciphertext = p.ciphertext;
  nonce = p.nonce;
  algorithm = p.algorithm;
  kind = p.kind;
  description = p.description;
  created_at = env.now 0;
  updated_at = env.now 0;
  version = 1;
}

-- The secret with its new ciphertext. A `u32` wraps, in a build that does not check for it.
unfoldable pub updated_secret : Env → ℕ → StoredSecret → BatchUpdateItem → StoredSecret
updated_secret env i existing item = record existing {
  ciphertext = item.ciphertext;
  nonce = item.nonce;
  algorithm = item.algorithm;
  updated_at = env.now i;
  version = (existing.version + 1) % 4294967296;
}

abbrev pub sm_description : SecretName → Text
sm_description name = codes "zerolease secret: " ++ name

module _ (c : PayloadCodec) where
  -- What `get` makes of the answer.
  unfoldable pub read_value : SecretName → Sent (Option Text) → Result StoredSecret
  unfolding deserialize_payload into_stored_secret
  read_value name (answer secret_string) =
      or_storage (codes "secret has no string value") secret_string >>= λ s.
      deserialize_payload c s >>= λ payload. into_stored_secret c payload
  read_value name (refused e) =
      if is_gone e
      then err (secret_not_found name)
      else failed_with (codes "Secrets Manager get failed")

module _ (c : PayloadCodec) {W : Type 0} (service : Service W) (prefix : Text) where
  -- The request that creates, and what is made of its answer.
  unfoldable pub create : W → StoredSecret → Text → Result StoredSecret × W
  unfolding metadata_tags from_stored sm_name
  create w stored payload_str =
      let (sent, after) =
        service.create_secret w (sm_name prefix stored.name) payload_str
          (sm_description stored.name) (metadata_tags c (from_stored c stored)) in
      elim sent [ answer _ ↦ (ok stored, after) | refused e ↦ (create_error stored.name e, after) ]

  unfoldable pub put : W → Env → StoreSecretParams → Result StoredSecret × W
  unfolding create new_secret serialize_payload
  put w env p =
      let stored = new_secret env p in
      elim (serialize_payload c (from_stored c stored)) [
        | err e ↦ (err e, w)
        | ok payload_str ↦ create w stored payload_str
      ]

  unfoldable pub get : W → SecretName → Result StoredSecret
  unfolding read_value sm_name
  get w name = read_value c name (service.get_secret_value w (sm_name prefix name))

  -- The new value, then the new tags; an error of the second call is only logged.
  unfoldable pub put_value : W → SecretName → StoredSecret → Text → Result StoredSecret × W
  unfolding metadata_tags from_stored sm_name
  put_value w name updated payload_str =
      let (sent, after) = service.put_secret_value w (sm_name prefix name) payload_str in
      elim sent [
        | refused e ↦ (or_not_found name (codes "Secrets Manager update failed") e, after)
        | answer _ ↦ (
          ok updated,
          (service.tag_resource after (sm_name prefix name)
              (metadata_tags c (from_stored c updated))).1,
        )
      ]

  -- `update`, whose arguments are those of an item; its clock is the reading of that number.
  unfoldable pub update : W → Env → ℕ → BatchUpdateItem → Result StoredSecret × W
  unfolding get updated_secret put_value serialize_payload
  update w env i item = elim (get w item.name) [
    | err e ↦ (err e, w)
    | ok existing ↦
        let updated = updated_secret env i existing item in
        elim (serialize_payload c (from_stored c updated)) [
          | err e ↦ (err e, w)
          | ok payload_str ↦ put_value w item.name updated payload_str
        ]
  ]

  unfoldable pub update_all : W → Env → ℕ → List BatchUpdateItem → Result (Unit {0}) × W
  unfolding update
  update_all w env i [] = (ok tt, w)
  update_all w env i (item ∷ items) =
      let (r, after) = update w env i item in
      elim r [ err e ↦ (err e, after) | ok _ ↦ update_all after env (i + 1) items ]

  unfoldable pub batch_update : W → Env → List BatchUpdateItem → Result (Unit {0}) × W
  unfolding update_all
  batch_update w env items = update_all w env 0 items

  unfoldable pub delete : Bool → W → SecretName → Result (Unit {0}) × W
  unfolding sm_name
  delete force w name = elim (service.describe_secret w (sm_name prefix name)) [
    | refused e ↦ (or_not_found name (codes "Secrets Manager describe failed") e, w)
    | answer _ ↦
        let (sent, after) = service.delete_secret w (sm_name prefix name) force in
        elim sent [
          | answer _ ↦ (ok tt, after)
          | refused _ ↦ (failed_with (codes "Secrets Manager delete failed"), after)
        ]
  ]
