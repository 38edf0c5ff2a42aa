-- ===== src/Auth.antt =====
-- src/auth.rs: roles, and the authenticator that maps tokens to identities by their hashes.
pub mod Tokens
use zerolease.Prelude.{Bool, true, false, Option, none, some, Text, codes, text_eq}
use zerolease.Types.Identity.{AgentId}
use zerolease.Transport.{TokenHash, PeerIdentity}
use zerolease.Map.{Map, get, insert, remove}

pub data Role : Type 0 where
  admin agent orchestrator : Role

pub record ConnectionIdentity : Type 0 where
  pub role : Role
  pub agent_id : Option AgentId
  pub label : Text

-- `Authenticator`, over what it keeps.
pub record Authenticator (Addr T : Type 0) : Type 0 where
  pub authenticate : T → PeerIdentity Addr → Option Text → Option ConnectionIdentity

abbrev pub allow_all_admin : {Addr : Type 0} → Authenticator Addr (Unit {0})
allow_all_admin = record {
  authenticate =
      λ _ _ _. some (record { role = admin; agent_id = none; label = codes "allow-all-admin" });
}

abbrev pub TokenTable : Type 0
TokenTable = Map TokenHash ConnectionIdentity

module _ (hash_token : Text → TokenHash) where
  unfoldable pub register : TokenTable → Text → ConnectionIdentity → TokenTable
  register tokens token identity = insert tokens (hash_token token) identity

  -- Whether the token was found, and the table without it.
  unfoldable pub revoke : TokenTable → Text → Bool × TokenTable
  revoke tokens token =
      let hash = hash_token token in
      (elim (get tokens hash) [ none ↦ false | some _ ↦ true ], remove tokens hash)

  unfoldable pub authenticate :
      {Addr : Type 0} → TokenTable → PeerIdentity Addr → Option Text → Option ConnectionIdentity
  authenticate tokens peer none = none
  authenticate tokens peer (some raw) = get tokens (hash_token raw)

  unfoldable pub token_authenticator : {Addr : Type 0} → Authenticator Addr TokenTable
  unfolding authenticate
  token_authenticator = record { authenticate = authenticate }
