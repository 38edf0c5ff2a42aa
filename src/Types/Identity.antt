-- ===== src/Types/Identity.antt =====
-- crates/zerolease-types/src/identity.rs and session.rs: identifiers, names and domain scopes.
-- A UUID is the number of its 128 bits. A name is a string, held by its bytes.
use zerolease.Prelude.{
  ℕ, Bool, true, false, ◌&&◌, none, some, Text, codes, ltb, length, ◌==◌, text_eq, if◌then◌else◌,
  strip_prefix, strip_suffix, ends_with_byte,
}

abbrev pub Uuid : Type 0
Uuid = ℕ

abbrev pub SecretId : Type 0
SecretId = Uuid

abbrev pub LeaseId : Type 0
LeaseId = Uuid

abbrev pub SessionId : Type 0
SessionId = Uuid

-- The 16 random bytes.
abbrev pub SessionToken : Type 0
SessionToken = Text

abbrev pub AgentId : Type 0
AgentId = Text

abbrev pub SecretName : Type 0
SecretName = Text

abbrev pub DomainScope : Type 0
DomainScope = Text

abbrev pub dot : ℕ
dot = b'.'

abbrev pub wildcard : Text
wildcard = codes "*."

-- `rest.ends_with('.') && rest.len() > 1`
unfoldable pub is_subdomain : Text → Bool
is_subdomain rest = ends_with_byte rest dot && ltb 1 (length rest)

unfoldable pub matches : DomainScope → Text → Bool
matches pattern host = if pattern == host then true else elim (strip_prefix pattern wildcard) [
  | none ↦ false
  | some suffix ↦ elim (strip_suffix host suffix) [ none ↦ false | some rest ↦ is_subdomain rest ]
]
