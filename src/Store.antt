-- ===== src/Store.antt =====
-- src/store/mod.rs: encrypted secrets, the parsers of the database's columns, and the trait of the
-- backends. A backend is a parameter here: a type of states and what each method does to one.
pub mod Names
use mathlib.Core.List.{reverse, ◌++◌}
use zerolease.Prelude.{
  ℕ, Option, none, List, [], ◌∷◌, Text, codes, ◌==◌, text_eq, nat_eq, if◌then◌else◌, starts_with,
}
use zerolease.Types.Identity.{SecretId, SecretName}
use zerolease.Types.Time.{DateTime}
use zerolease.Types.Secrets.{
  Bytes, CipherAlgorithm, aes256_gcm, xchacha20_poly1305, SecretKind, pat, oauth2, api_key,
  basic_auth, ssh_key, client_cert, opaque, SecretMetadata,
}
use zerolease.Error.{storage, unknown_algorithm, unknown_kind, Result, ok, err}
use zerolease.Env.{Env}

pub record StoredSecret : Type 0 where
  pub id : SecretId
  pub name : SecretName
  pub ciphertext : Bytes
  pub nonce : Bytes
  pub algorithm : CipherAlgorithm
  pub kind : SecretKind
  pub description : Option Text
  pub created_at : DateTime
  pub updated_at : DateTime
  pub version : ℕ

pub record StoreSecretParams : Type 0 where
  pub name : SecretName
  pub ciphertext : Bytes
  pub nonce : Bytes
  pub algorithm : CipherAlgorithm
  pub kind : SecretKind
  pub description : Option Text

pub record BatchUpdateItem : Type 0 where
  pub name : SecretName
  pub ciphertext : Bytes
  pub nonce : Bytes
  pub algorithm : CipherAlgorithm

unfoldable pub metadata_of : StoredSecret → SecretMetadata
metadata_of s = record {
  id = s.id;
  name = s.name;
  kind = s.kind;
  description = s.description;
  created_at = s.created_at;
  updated_at = s.updated_at;
  version = s.version;
}

pub record SecretStore (SS : Type 0) : Type 0 where
  pub put : SS → Env → StoreSecretParams → Result StoredSecret × SS
  pub get : SS → SecretName → Result StoredSecret
  pub batch_update : SS → Env → List BatchUpdateItem → Result (Unit {0}) × SS
  pub delete : SS → SecretName → Result (Unit {0}) × SS
  pub list : SS → Result (List SecretMetadata)

abbrev pub quote : ℕ
quote = b'"'

-- A value as it stood in the older databases, in JSON's quotes.
abbrev pub quoted : Text → Text
quoted s = quote ∷ (s ++ (quote ∷ []))

unfoldable pub parse_cipher_algorithm : Text → Result CipherAlgorithm
parse_cipher_algorithm s =
    if s == codes "aes256gcm"
    then ok aes256_gcm
    else if s == codes "xchacha20poly1305"
    then ok xchacha20_poly1305
    else if s == quoted (codes "Aes256Gcm")
    then ok aes256_gcm
    else if s == quoted (codes "XChaCha20Poly1305")
    then ok xchacha20_poly1305
    else err (storage (unknown_algorithm s))

-- `s.trim_matches(c)`, from the front and then from the back
unfoldable pub trim_start : ℕ → Text → Text
trim_start c [] = []
trim_start c (d ∷ s) = if d == c then trim_start c s else d ∷ s

unfoldable pub trim_matches : ℕ → Text → Text
unfolding trim_start
trim_matches c s = reverse (trim_start c (reverse (trim_start c s)))

-- The legacy names, in PascalCase.
unfoldable pub parse_legacy_kind : Text → Text → Result SecretKind
parse_legacy_kind other unquoted =
    if unquoted == codes "Pat"
    then ok pat
    else if unquoted == codes "ApiKey"
    then ok api_key
    else if unquoted == codes "BasicAuth"
    then ok basic_auth
    else if unquoted == codes "SshKey"
    then ok ssh_key
    else if unquoted == codes "ClientCert"
    then ok client_cert
    else if unquoted == codes "Opaque"
    then ok opaque
    else err (storage (unknown_kind other))

unfoldable pub parse_secret_kind : Text → Result SecretKind
unfolding parse_legacy_kind trim_matches
parse_secret_kind s =
    if s == codes "pat"
    then ok pat
    else if s == codes "oauth2"
    then ok (oauth2 none none)
    else if s == codes "apikey"
    then ok api_key
    else if s == codes "basicauth"
    then ok basic_auth
    else if s == codes "sshkey"
    then ok ssh_key
    else if s == codes "clientcert"
    then ok client_cert
    else if s == codes "opaque"
    then ok opaque
    else if starts_with s (quote ∷ [])
    then parse_legacy_kind s (trim_matches quote s)
    else err (storage (unknown_kind s))
