-- ===== src/SecretsManager/Listed.antt =====
-- crates/zerolease-store-aws-sm/src/store.rs: what list gives for the secrets of the service.
use zerolease.Prelude.{
  ℕ, zero, suc, ◌+◌, ◌≤◌, ◌≡◌, refl, sym, ap, ◌∙◌, inl, inr, Option, none, some, List, [], ◌∷◌,
  ◌++◌, Text, arith, length, text_beq, text_eq, strip_prefix, parse_unsigned-decimal, decimal,
  Option-cases,
}
use zerolease.Types.Identity.{SecretId}
use zerolease.Types.Secrets.{kind_as_str}
use zerolease.Error.{ok}
use zerolease.Env.{Env}
use zerolease.Store.{StoredSecret, metadata_of}
use zerolease.Store.Names.{bare_kind, parse_secret_kind-kind_as_str}
use zerolease.SecretsManager.{
  PayloadCodec, Service, ListedSecret, Page, answer, from_stored, metadata_tags, find_tag, tag_key,
  kind_tag, version_tag, updated_at_tag, created_at_tag, description_tag, sm_name,
  strip_store_prefix,
}
use zerolease.SecretsManager.Listing.{
  or_other, tag_of, entry_metadata, read_entries, prefix_filter, list_pages, list,
}
use zerolease.SecretsManager.Stored.{IsPayloadCodec}

strip_prefix-append : (prefix rest : Text) → strip_prefix (prefix ++ rest) prefix ≡ some rest
unfolding strip_prefix
strip_prefix-append [] rest = refl
strip_prefix-append (c ∷ prefix) rest = ground (arith, strip_prefix-append prefix rest)

strip_store_prefix-sm_name :
    (prefix name : Text) → strip_store_prefix prefix (sm_name prefix name) ≡ some name
unfolding strip_store_prefix sm_name strip_prefix
strip_store_prefix-sm_name prefix name =
    rw (strip_store_prefix, strip_prefix-append prefix (b'/' ∷ name)) refl

module _ (c : PayloadCodec) (sound : IsPayloadCodec c) (prefix : Text) where
  -- A listed secret with the name and the tags that `put` and `update` give it.
  pub record IsListed (s : StoredSecret) (secret : ListedSecret) : Type 0 where
    pub named : secret.name ≡ some (sm_name prefix s.name)
    pub tagged : secret.tags ≡ metadata_tags c (from_stored c s)

  description-IsListed :
      (s : StoredSecret)
      → find_tag (tag_key description_tag) (metadata_tags c (from_stored c s)) ≡ s.description
  unfolding find_tag tag_key metadata_tags from_stored text_beq
  description-IsListed s = elim (Option-cases s.description) [
    | inl missing ↦ rw missing refl
    | inr (d, there) ↦ rw there refl
  ]

  -- Such a secret is listed with the metadata that `get` has for it, except for the id, which is
  -- new, for the refresh token of an OAuth2 kind, and for a missing description, in whose place
  -- stands the description that the service has. The version fits in 32 bits.
  pub entry_metadata-IsListed :
      (s : StoredSecret) (secret : ListedSecret) (id : SecretId)
      → IsListed s secret
      → s.version ≤ 4294967295
      → entry_metadata c prefix id secret
        ≡ some (record (metadata_of s) {
          id = id;
          kind = bare_kind s.kind;
          description = or_other s.description secret.description;
        })
  unfolding entry_metadata find_tag tag_key metadata_tags from_stored text_beq metadata_of
  entry_metadata-IsListed s secret id h fits =
      let kind_found : tag_of kind_tag secret ≡ some (kind_as_str s.kind) =
        ap (find_tag (tag_key kind_tag)) h.tagged in
      let version_found : tag_of version_tag secret ≡ some (decimal s.version) =
        ap (find_tag (tag_key version_tag)) h.tagged in
      let updated_found : tag_of updated_at_tag secret ≡ some (c.print_time s.updated_at) =
        ap (find_tag (tag_key updated_at_tag)) h.tagged in
      let created_found : tag_of created_at_tag secret ≡ some (c.print_time s.created_at) =
        ap (find_tag (tag_key created_at_tag)) h.tagged in
      let description_found : tag_of description_tag secret ≡ s.description =
        ap (find_tag (tag_key description_tag)) h.tagged ∙ description-IsListed s in
      rw
        (
          entry_metadata,
          h.named,
          strip_store_prefix-sm_name prefix s.name,
          kind_found,
          parse_secret_kind-kind_as_str s.kind,
          version_found,
          parse_unsigned-decimal 4294967295 s.version fits,
          updated_found,
          sound.times s.updated_at,
          created_found,
          sound.times s.created_at,
          description_found,
        )
        refl

-- The pages of a listing, from a token on: so many of them, with these secrets.
pub data Paged {W : Type 0} (service : Service W) (prefix : Text) (w : W)
    : Option Text → ℕ → List ListedSecret → Type 0 where
  last :
      (token : Option Text) (page : Page)
      → service.list_secrets w (prefix_filter prefix) token ≡ answer page
      → page.next_token ≡ none
      → Paged service prefix w token 1 page.secret_list
  more :
      (token : Option Text) (page : Page) (next : Text) (n : ℕ) (rest : List ListedSecret)
      → service.list_secrets w (prefix_filter prefix) token ≡ answer page
      → page.next_token ≡ some next
      → Paged service prefix w (some next) n rest
      → Paged service prefix w token (suc n) (page.secret_list ++ rest)

module _ (c : PayloadCodec) (prefix : Text) where
  read_entries-append :
      (env : Env) (i : ℕ) (s t : List ListedSecret)
      → read_entries c prefix env i (s ++ t)
        ≡ read_entries c prefix env i s
          ++ read_entries c prefix env (i + length (read_entries c prefix env i s)) t
  unfolding read_entries
  read_entries-append env i [] t = ap (λ j. read_entries c prefix env j t) (omega arith)
  read_entries-append env i (x ∷ s) t =
      elim (Option-cases (entry_metadata c prefix (env.uuid i) x)) [
        | inl skipped ↦ rw (read_entries, skipped) (read_entries-append env i s t)
        | inr (m, there) ↦
            rw (read_entries, there)
              (ap (λ l. m ∷ l)
                (read_entries-append env (i + 1) s t
                  ∙ ap (λ j. read_entries c prefix env (i + 1) s ++ read_entries c prefix env j t)
                      (omega arith)))
      ]

  module _ {W : Type 0} (service : Service W) where
    list_pages-Paged :
        (w : W) (token : Option Text) (n : ℕ) (secrets : List ListedSecret)
        → Paged service prefix w token n secrets
        → (env : Env) (i fuel : ℕ) → n ≤ fuel
        → list_pages c prefix service fuel w env i token
          ≡ some (ok (read_entries c prefix env i secrets))
    unfolding list_pages
    list_pages-Paged w _ _ _ (last token page e done) env i zero h = absurd (omega arith)
    list_pages-Paged w _ _ _ (last token page e done) env i (suc fuel) h =
        rw (list_pages, e, done) refl
    list_pages-Paged w _ _ _ (more token page next n rest e goes p) env i zero h =
        absurd (omega arith)
    list_pages-Paged w _ _ _ (more token page next n rest e goes p) env i (suc fuel) h =
        let here = read_entries c prefix env i page.secret_list in
        let ih = list_pages-Paged w (some next) n rest p env (i + length here) fuel (omega arith) in
        rw (list_pages, e, goes, ih)
          (ap (λ l. some (ok l)) (sym (read_entries-append env i page.secret_list rest)))

    -- When the pages of the service come to an end, a listing that may read as many ends, and
    -- gives the metadata of all their secrets that are not skipped, page after page.
    pub list-Paged :
        (w : W) (env : Env) (n fuel : ℕ) (secrets : List ListedSecret)
        → Paged service prefix w none n secrets
        → n ≤ fuel
        → list c prefix service fuel w env ≡ some (ok (read_entries c prefix env 0 secrets))
    unfolding list
    list-Paged w env n fuel secrets p h = list_pages-Paged w none n secrets p env 0 fuel h
