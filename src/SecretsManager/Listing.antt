-- ===== src/SecretsManager/Listing.antt =====
-- crates/zerolease-store-aws-sm/src/store.rs: list, which reads the tags page by page.
use zerolease.Prelude.{
  ℕ, zero, suc, ◌+◌, Option, none, some, List, [], ◌∷◌, ◌++◌, Text, codes, pos, length,
  parse_unsigned,
}
use zerolease.Types.Time.{DateTime}
use zerolease.Types.Secrets.{SecretMetadata}
use zerolease.Error.{Result, ok, err, ◌>>=◌}
use zerolease.Env.{Env}
use zerolease.Types.Identity.{SecretId}
use zerolease.Store.{parse_secret_kind}
use zerolease.SecretsManager.{
  PayloadCodec, Service, MetadataTag, kind_tag, version_tag, updated_at_tag, created_at_tag,
  description_tag, find_tag, tag_key, ListedSecret, answer, refused, strip_store_prefix,
}
use zerolease.SecretsManager.Operations.{failed_with}

-- `or_else`, `unwrap_or` and `and_then`
abbrev pub or_other : {A : Type 0} → Option A → Option A → Option A
or_other none o = o
or_other (some a) o = some a

abbrev pub value_or : {A : Type 0} → A → Option A → A
value_or a none = a
value_or a (some b) = b

abbrev pub then_parse : {A : Type 0} → (Text → Option A) → Option Text → Option A
then_parse parse none = none
then_parse parse (some s) = parse s

abbrev pub tag_of : MetadataTag → ListedSecret → Option Text
tag_of key secret = find_tag (tag_key key) secret.tags

abbrev pub prefix_filter : Text → Text
prefix_filter prefix = prefix ++ codes "/"

module _ (c : PayloadCodec) (prefix : Text) where
  -- A time tag, else the date that the service has, else 1970
  abbrev pub time_of : MetadataTag → Option DateTime → ListedSecret → DateTime
  time_of key date secret =
      value_or (pos 0) (or_other (then_parse c.parse_time (tag_of key secret)) date)

  -- The metadata of a listed secret with an id, unless it is skipped.
  unfoldable pub entry_metadata : SecretId → ListedSecret → Option SecretMetadata
  unfolding parse_unsigned find_tag tag_key strip_store_prefix
  entry_metadata id secret = elim (then_parse (strip_store_prefix prefix) secret.name) [
    | none ↦ none
    | some zerolease_name ↦ elim (parse_secret_kind (value_or [] (tag_of kind_tag secret))) [
      | err _ ↦ none
      | ok kind ↦ some (record {
        id = id;
        name = zerolease_name;
        kind = kind;
        description = or_other (tag_of description_tag secret) secret.description;
        created_at = time_of created_at_tag secret.created_date secret;
        updated_at = time_of updated_at_tag secret.last_changed_date secret;
        version = value_or 1 (then_parse (parse_unsigned 4294967295) (tag_of version_tag secret));
      })
    ]
  ]

  -- The secrets of a page; ids are drawn from that number on, one for each that is not skipped.
  unfoldable pub read_entries : Env → ℕ → List ListedSecret → List SecretMetadata
  unfolding entry_metadata
  read_entries env i [] = []
  read_entries env i (secret ∷ secrets) = elim (entry_metadata (env.uuid i) secret) [
    | none ↦ read_entries env i secrets
    | some m ↦ m ∷ read_entries env (i + 1) secrets
  ]

  module _ {W : Type 0} (service : Service W) where
    -- The loop over the pages, on fuel. `none` is out of fuel.
    unfoldable pub list_pages :
        ℕ → W → Env → ℕ → Option Text → Option (Result (List SecretMetadata))
    unfolding read_entries
    list_pages zero w env i next_token = none
    list_pages (suc fuel) w env i next_token =
        elim (service.list_secrets w (prefix_filter prefix) next_token) [
          | refused _ ↦ some (failed_with (codes "Secrets Manager list failed"))
          | answer page ↦
              let secrets = read_entries env i page.secret_list in
              elim page.next_token [
                | none ↦ some (ok secrets)
                | some token ↦ elim (list_pages fuel w env (i + length secrets) (some token)) [
                  | none ↦ none
                  | some more ↦ some (more >>= λ ms. ok (secrets ++ ms))
                ]
              ]
        ]

    unfoldable pub list : ℕ → W → Env → Option (Result (List SecretMetadata))
    unfolding list_pages
    list fuel w env = list_pages fuel w env 0 none
