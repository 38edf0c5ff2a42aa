-- ===== src/Agent/Transparent.antt =====
-- crates/zerolease-agent/src/proxy/sni.rs: `handle_transparent`, up to the tunnel. The
-- connection to an address is a parameter.
use zerolease.Prelude.{
  ℕ, ◌≡◌, refl, inl, inr, Bool, true, not, ◌++◌, Text, codes, arith, if◌then◌else◌, take,
  Bool-cases,
}
use zerolease.Types.Time.{DateTime}
use zerolease.Types.Secrets.{Bytes}
use zerolease.Agent.LeaseState.{LeaseState, is_allowed}
use zerolease.Agent.Connect.{to_ascii_lowercase}
use zerolease.Agent.Sni.{Sni, found, absent, panics, extract_sni}

abbrev pub max_client_hello : ℕ
max_client_hello = 16384

-- The connection is dropped, tunnelled to a target, or its task panics.
pub data Passage : Type 0 where
  dropped : Passage
  tunnelled : Text → Passage
  crashed : Passage

module _ (reach : Text → Bool) where
  unfoldable pub passage_of : LeaseState → DateTime → Sni → Passage
  passage_of state now absent = dropped
  passage_of state now panics = crashed
  passage_of state now (found name) =
      let domain = to_ascii_lowercase name in
      if not (is_allowed state now domain)
      then dropped
      else if reach (domain ++ codes ":443")
      then tunnelled (domain ++ codes ":443")
      else dropped

  -- `peeked` are the bytes that have arrived.
  unfoldable pub handle_transparent : LeaseState → DateTime → Bytes → Passage
  unfolding passage_of
  handle_transparent state now peeked =
      passage_of state now (extract_sni (take max_client_hello peeked))

  passage_of-tunnelled :
      (state : LeaseState) (now : DateTime) (sni : Sni) (target : Text)
      → passage_of state now sni ≡ tunnelled target
      → (name : Text) × (sni ≡ found name)
        × (target ≡ to_ascii_lowercase name ++ codes ":443")
        × (is_allowed state now (to_ascii_lowercase name) ≡ true)
  unfolding passage_of
  passage_of-tunnelled state now absent target e = absurd (ground arith)
  passage_of-tunnelled state now panics target e = absurd (ground arith)
  passage_of-tunnelled state now (found name) target e =
      elim (Bool-cases (is_allowed state now (to_ascii_lowercase name))) [
        | inr refused ↦ absurd (ground arith)
        | inl allowed ↦ elim (Bool-cases (reach (to_ascii_lowercase name ++ codes ":443"))) [
          | inr down ↦ absurd (ground arith)
          | inl up ↦ (name, refl, ground arith, allowed)
        ]
      ]

  -- A transparent tunnel goes to port 443 of the name in the message, in lower case, and that name
  -- has a lease that is current.
  pub handle_transparent-tunnelled :
      (state : LeaseState) (now : DateTime) (peeked : Bytes) (target : Text)
      → handle_transparent state now peeked ≡ tunnelled target
      → (name : Text) × (extract_sni (take max_client_hello peeked) ≡ found name)
        × (target ≡ to_ascii_lowercase name ++ codes ":443")
        × (is_allowed state now (to_ascii_lowercase name) ≡ true)
  unfolding handle_transparent
  handle_transparent-tunnelled state now peeked target e =
      passage_of-tunnelled state now (extract_sni (take max_client_hello peeked)) target e
