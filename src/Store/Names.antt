-- ===== src/Store/Names.antt =====
-- src/store/mod.rs: the stored names of algorithms and kinds are read back.
use zerolease.Prelude.{◌≡◌, refl, none, text_beq, text_eq}
use zerolease.Types.Secrets.{
  CipherAlgorithm, aes256_gcm, xchacha20_poly1305, SecretKind, pat, oauth2, api_key, basic_auth,
  ssh_key, client_cert, opaque, algorithm_as_str, kind_as_str,
}
use zerolease.Error.{ok}
use zerolease.Store.{parse_cipher_algorithm, parse_secret_kind}

-- The kind without the refresh token of OAuth2.
abbrev pub bare_kind : SecretKind → SecretKind
bare_kind (oauth2 _ _) = oauth2 none none
bare_kind pat = pat
bare_kind api_key = api_key
bare_kind basic_auth = basic_auth
bare_kind ssh_key = ssh_key
bare_kind client_cert = client_cert
bare_kind opaque = opaque

-- The name under which an algorithm is stored is read back as that algorithm.
pub parse_cipher_algorithm-algorithm_as_str :
    (a : CipherAlgorithm) → parse_cipher_algorithm (algorithm_as_str a) ≡ ok a
unfolding parse_cipher_algorithm algorithm_as_str text_beq
parse_cipher_algorithm-algorithm_as_str aes256_gcm = refl
parse_cipher_algorithm-algorithm_as_str xchacha20_poly1305 = refl

-- The name under which a kind is stored is read back as that kind, except that the refresh token
-- of an OAuth2 secret is lost.
pub parse_secret_kind-kind_as_str :
    (k : SecretKind) → parse_secret_kind (kind_as_str k) ≡ ok (bare_kind k)
unfolding parse_secret_kind kind_as_str text_beq
parse_secret_kind-kind_as_str pat = refl
parse_secret_kind-kind_as_str (oauth2 _ _) = refl
parse_secret_kind-kind_as_str api_key = refl
parse_secret_kind-kind_as_str basic_auth = refl
parse_secret_kind-kind_as_str ssh_key = refl
parse_secret_kind-kind_as_str client_cert = refl
parse_secret_kind-kind_as_str opaque = refl
