-- ===== src/SecretsManager.antt =====
-- crates/zerolease-store-aws-sm/src/store.rs: secrets as JSON payloads in AWS Secrets Manager. This
-- file has the payload, its tags and the service, which is a parameter; Operations and Listing
-- have the methods of the store.
pub mod Operations
pub mod Listing
pub mod Stored
pub mod Updates
pub mod Batch
pub mod Backend
pub mod Listed
use zerolease.Prelude.{
  ℕ, Bool, true, false, Option, none, some, List, [], ◌∷◌, ◌++◌, Text, codes, ◌==◌, text_eq, ◌||◌,
  if◌then◌else◌, decimal, strip_prefix, starts_with,
}
use zerolease.Types.Identity.{SecretName, Uuid}
use zerolease.Types.Time.{DateTime}
use zerolease.Types.Secrets.{Bytes, algorithm_as_str, kind_as_str}
use zerolease.Error.{storage, text, Result, ok, err, ◌>>=◌}
use zerolease.Store.{StoredSecret, parse_cipher_algorithm, parse_secret_kind}

pub data MetadataTag : Type 0 where
  kind_tag version_tag updated_at_tag created_at_tag description_tag : MetadataTag

unfoldable pub tag_key : MetadataTag → Text
tag_key kind_tag = codes "zerolease:kind"
tag_key version_tag = codes "zerolease:version"
tag_key updated_at_tag = codes "zerolease:updated_at"
tag_key created_at_tag = codes "zerolease:created_at"
tag_key description_tag = codes "zerolease:description"

-- A tag of the service: its key and its value, which may be missing.
abbrev pub Tag : Type 0
Tag = Option Text × Option Text

abbrev pub is_key : Text → Option Text → Bool
is_key key none = false
is_key key (some k) = k == key

unfoldable pub find_tag : Text → List Tag → Option Text
find_tag key [] = none
find_tag key ((k, v) ∷ tags) = let rest = find_tag key tags in if is_key key k then v else rest

pub record SecretPayload : Type 0 where
  pub id : Text
  pub name : Text
  pub ciphertext : Bytes
  pub nonce : Bytes
  pub algorithm : Text
  pub kind : Text
  pub description : Option Text
  pub created_at : DateTime
  pub updated_at : DateTime
  pub version : ℕ

-- What the code asks of serde_json, uuid and chrono. `none` is an error.
pub record PayloadCodec : Type 0 where
  pub print_payload : SecretPayload → Option Text
  pub parse_payload : Text → Option SecretPayload
  pub print_uuid : Uuid → Text
  pub parse_uuid : Text → Option Uuid
  pub print_time : DateTime → Text
  pub parse_time : Text → Option DateTime

-- The errors of the service, with the message of an invalid request.
pub data ServiceError : Type 0 where
  resource_exists resource_not_found other_error : ServiceError
  invalid_request : Option Text → ServiceError

pub data Sent (A : Type 0) : Type 0 where
  answer : A → Sent A
  refused : ServiceError → Sent A

-- What a listing says of a secret. The dates have gone through
-- `from_timestamp(…).unwrap_or_default()`.
pub record ListedSecret : Type 0 where
  pub name : Option Text
  pub description : Option Text
  pub tags : List Tag
  pub created_date : Option DateTime
  pub last_changed_date : Option DateTime

pub record Page : Type 0 where
  pub secret_list : List ListedSecret
  pub next_token : Option Text

-- The calls of the service, on its states.
pub record Service (W : Type 0) : Type 0 where
  -- the name, the secret string, the description and the tags
  pub create_secret : W → Text → Text → Text → List Tag → Sent (Unit {0}) × W
  pub get_secret_value : W → Text → Sent (Option Text)
  pub put_secret_value : W → Text → Text → Sent (Unit {0}) × W
  pub tag_resource : W → Text → List Tag → Sent (Unit {0}) × W
  pub describe_secret : W → Text → Sent (Unit {0})
  -- the name, and whether it is deleted without recovery
  pub delete_secret : W → Text → Bool → Sent (Unit {0}) × W
  -- the filter on names, and the token of a page after the first
  pub list_secrets : W → Text → Option Text → Sent Page

abbrev pub or_storage : {A : Type 0} → Text → Option A → Result A
or_storage what none = err (storage (text what))
or_storage what (some a) = ok a

module _ (c : PayloadCodec) where
  unfoldable pub from_stored : StoredSecret → SecretPayload
  unfolding algorithm_as_str kind_as_str
  from_stored s = record {
    id = c.print_uuid s.id;
    name = s.name;
    ciphertext = s.ciphertext;
    nonce = s.nonce;
    algorithm = algorithm_as_str s.algorithm;
    kind = kind_as_str s.kind;
    description = s.description;
    created_at = s.created_at;
    updated_at = s.updated_at;
    version = s.version;
  }

  unfoldable pub into_stored_secret : SecretPayload → Result StoredSecret
  into_stored_secret p = or_storage (codes "invalid UUID") (c.parse_uuid p.id) >>= λ id.
      parse_cipher_algorithm p.algorithm >>= λ algorithm. parse_secret_kind p.kind >>= λ kind.
      ok (record {
        id = id;
        name = p.name;
        ciphertext = p.ciphertext;
        nonce = p.nonce;
        algorithm = algorithm;
        kind = kind;
        description = p.description;
        created_at = p.created_at;
        updated_at = p.updated_at;
        version = p.version;
      })

  abbrev pub tag : MetadataTag → Text → Tag
  tag key value = (some (tag_key key), some value)

  abbrev pub description_tags : Option Text → List Tag
  description_tags none = []
  description_tags (some desc) = tag description_tag desc ∷ []

  unfoldable pub metadata_tags : SecretPayload → List Tag
  unfolding tag_key
  metadata_tags p =
      tag kind_tag p.kind
      ∷ tag version_tag (decimal p.version)
      ∷ tag updated_at_tag (c.print_time p.updated_at)
      ∷ tag created_at_tag (c.print_time p.created_at)
      ∷ description_tags p.description

  unfoldable pub serialize_payload : SecretPayload → Result Text
  serialize_payload p = or_storage (codes "payload serialization failed") (c.print_payload p)

  unfoldable pub deserialize_payload : Text → Result SecretPayload
  deserialize_payload s = or_storage (codes "payload deserialization failed") (c.parse_payload s)

module _ (prefix : Text) where
  unfoldable pub sm_name : SecretName → Text
  sm_name name = prefix ++ (b'/' ∷ name)

  unfoldable pub strip_store_prefix : Text → Option Text
  strip_store_prefix name = elim (strip_prefix name prefix) [
    | none ↦ none
    | some rest ↦ strip_prefix rest (codes "/")
  ]

-- `contains`
unfoldable pub contains : Text → Text → Bool
contains [] part = starts_with [] part
contains (c ∷ s) part = let rest = contains s part in starts_with (c ∷ s) part || rest
