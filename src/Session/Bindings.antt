-- ===== src/Session/Bindings.antt =====
-- src/session.rs: what a session's bindings allow.
use zerolease.Prelude.{
  ◌≡◌, refl, ◌↔◌, ◌⊎◌, inl, inr, true, List, [], ◌∷◌, Text, text_beq, text_beq_iff, arith, Member,
  here, there, Bool-cases,
}
use zerolease.Types.Identity.{SecretName, DomainScope}
use zerolease.Error.{access_denied, ok, err}
use zerolease.Session.{
  ToolCredentialBinding, Session, binding_allows, check_bindings, check_tool_binding,
}

-- A binding of the tool names the secret and a scope that covers the domain.
abbrev pub Bound : List ToolCredentialBinding → Text → SecretName → DomainScope → Type 0
Bound bindings tool secret domain =
    (b : ToolCredentialBinding) × Member b bindings
    × (b.tool_name ≡ tool)
    × (binding_allows b secret domain ≡ true)

module _ (tool : Text) (secret : SecretName) (domain : DomainScope) where
  Bound-of_ok :
      (bs : List ToolCredentialBinding)
      → check_bindings bs tool secret domain ≡ ok tt
      → Bound bs tool secret domain
  unfolding check_bindings
  Bound-of_ok [] h = absurd (ground arith)
  Bound-of_ok (b ∷ bs) h = elim (Bool-cases (text_beq b.tool_name tool)) [
    | inr e ↦ let (c, m, n, a) = Bound-of_ok bs (ground arith) in (c, there b bs m, n, a)
    | inl e ↦ elim (Bool-cases (binding_allows b secret domain)) [
      | inl f ↦ (b, here bs, (text_beq_iff b.tool_name tool).0 e, f)
      | inr f ↦ let (c, m, n, a) = Bound-of_ok bs (ground arith) in (c, there b bs m, n, a)
    ]
  ]

  ok_of_bound :
      (b : ToolCredentialBinding) (bs : List ToolCredentialBinding)
      → Member b bs
      → b.tool_name ≡ tool
      → binding_allows b secret domain ≡ true
      → check_bindings bs tool secret domain ≡ ok tt
  unfolding check_bindings
  ok_of_bound b _ (here bs) n a = ground (arith, text_beq_iff b.tool_name tool)
  ok_of_bound b _ (there c bs m) n a = ground (arith, ok_of_bound b bs m n a)

  bindings_answer :
      (bs : List ToolCredentialBinding)
      → (check_bindings bs tool secret domain ≡ ok tt)
        ⊎ (check_bindings bs tool secret domain ≡ err (access_denied tool secret domain))
  unfolding check_bindings
  bindings_answer [] = inr refl
  bindings_answer (b ∷ bs) = ground (arith, bindings_answer bs)

  -- `check_tool_binding` allows an access exactly when some binding of the session names the
  -- tool, the secret and a scope that covers the domain; else it answers `AccessDenied`.
  pub check_tool_binding_iff :
      (s : Session)
      → ((check_tool_binding s tool secret domain ≡ ok tt)
          ↔ Bound s.policy.tool_bindings tool secret domain)
        × ((check_tool_binding s tool secret domain ≡ ok tt)
            ⊎ (check_tool_binding s tool secret domain ≡ err (access_denied tool secret domain)))
  unfolding check_tool_binding
  check_tool_binding_iff s = (
    (
      Bound-of_ok s.policy.tool_bindings,
      λ (b, m, n, a). ok_of_bound b s.policy.tool_bindings m n a,
    ),
    bindings_answer s.policy.tool_bindings,
  )
