-- ===== src/Policy/Evaluate.antt =====
-- src/policy/mod.rs: what `evaluate` decides, against the set of grants that apply.
use zerolease.Prelude.{
  ◌≡◌, refl, ◌∙◌, ◌⊎◌, inl, inr, true, false, ◌&&◌, List, [], ◌∷◌, arith, Member, here, there,
  not-Member-nil, any_of_Member, Member-of_any, Bool-cases, Text,
}
use zerolease.Types.Identity.{AgentId, SecretName, DomainScope, matches}
use zerolease.Types.Coverage.{matches_trans}
use zerolease.Types.Secrets.{LeaseTerms}
use zerolease.Error.{access_denied, Result, ok, err}
use zerolease.Policy.{
  PolicyGrant, PolicyConfig, agent_matches, secret_matches, any_domain, terms_of, evaluate_grants,
  evaluate,
}

-- The grant is for this agent and secret, and one of its scopes covers the domain.
pub record Applies (g : PolicyGrant) (agent : AgentId) (secret : SecretName) (domain : DomainScope)
    : Type 0 where
  pub for_agent : agent_matches g.agent agent ≡ true
  pub for_secret : secret_matches g.secret secret ≡ true
  pub for_domain : any_domain g.allowed_domains domain ≡ true

-- `g` is the first grant of the list that applies.
pub data First (agent : AgentId) (secret : SecretName) (domain : DomainScope) (g : PolicyGrant)
    : List PolicyGrant → Type 0 where
  found :
      (rest : List PolicyGrant)
      → Applies g agent secret domain
      → First agent secret domain g (g ∷ rest)
  later :
      (other : PolicyGrant) (rest : List PolicyGrant)
      → ¬ Applies other agent secret domain
      → First agent secret domain g rest
      → First agent secret domain g (other ∷ rest)

-- What a request is answered with: the terms of the first grant that applies, or a denial when
-- none applies.
abbrev pub Decides :
    PolicyConfig
    → List PolicyGrant
    → AgentId
    → SecretName
    → DomainScope
    → Result LeaseTerms
    → Type 0
Decides config grants agent secret domain r =
    ((g : PolicyGrant) × First agent secret domain g grants × (r ≡ ok (terms_of config g)))
    ⊎ (((g : PolicyGrant) → Member g grants → ¬ Applies g agent secret domain)
        × (r ≡ err (access_denied agent secret domain)))

module _ (config : PolicyConfig) (agent : AgentId) (secret : SecretName)
    (domain : DomainScope) where
  Applies-cases :
      (g : PolicyGrant)
      → (Applies g agent secret domain)
        ⊎ ((Applies g agent secret domain → ⊥)
            × ((agent_matches g.agent agent
                  && secret_matches g.secret secret
                  && any_domain g.allowed_domains domain)
                ≡ false))
  Applies-cases g = elim (Bool-cases (agent_matches g.agent agent)) [
    | inr no_agent ↦ inr (λ a. cc (no_agent, a.for_agent), ground arith)
    | inl e ↦ elim (Bool-cases (secret_matches g.secret secret)) [
      | inr no_secret ↦ inr (λ a. cc (no_secret, a.for_secret), ground arith)
      | inl f ↦ elim (Bool-cases (any_domain g.allowed_domains domain)) [
        | inr no_domain ↦ inr (λ a. cc (no_domain, a.for_domain), ground arith)
        | inl d ↦ inl (record { for_agent = e; for_secret = f; for_domain = d })
      ]
    ]
  ]

  -- One round of the loop, on both outcomes.
  grant-Applies :
      (g : PolicyGrant) (rest : List PolicyGrant)
      → Applies g agent secret domain
      → evaluate_grants config (g ∷ rest) agent secret domain ≡ ok (terms_of config g)
  unfolding evaluate_grants
  grant-Applies g rest a = ground arith

  grant_skipped :
      (g : PolicyGrant) (rest : List PolicyGrant)
      → (agent_matches g.agent agent
          && secret_matches g.secret secret
          && any_domain g.allowed_domains domain)
        ≡ false
      → evaluate_grants config (g ∷ rest) agent secret domain
        ≡ evaluate_grants config rest agent secret domain
  unfolding evaluate_grants
  grant_skipped g rest e = ground arith

  none_of_cons :
      (g : PolicyGrant) (rest : List PolicyGrant)
      → (Applies g agent secret domain → ⊥)
      → ((h : PolicyGrant) → Member h rest → Applies h agent secret domain → ⊥)
      → (h : PolicyGrant) → Member h (g ∷ rest)
      → Applies h agent secret domain
      → ⊥
  none_of_cons g rest n ns _ (here _) = n
  none_of_cons g rest n ns h (there _ _ m) = ns h m

  evaluate_grants-Decides :
      (grants : List PolicyGrant)
      → Decides config grants agent secret domain
          (evaluate_grants config grants agent secret domain)
  evaluate_grants-Decides [] = inr ((λ g m a. not-Member-nil m), unfold evaluate_grants in refl)
  evaluate_grants-Decides (g ∷ rest) = elim (Applies-cases g) [
    | inl a ↦ inl (g, First.found rest a, grant-Applies g rest a)
    | inr (n, skip) ↦ elim (evaluate_grants-Decides rest) [
      | inl (h, f, e) ↦ inl (h, First.later g rest n f, grant_skipped g rest skip ∙ e)
      | inr (ns, e) ↦ inr (none_of_cons g rest n ns, grant_skipped g rest skip ∙ e)
    ]
  ]

  -- First match wins, and the default is to deny: `evaluate` answers with the terms of the first
  -- grant that is for this agent, this secret and this domain (its own terms, or else the
  -- default ones), and with `AccessDenied` when no grant is.
  pub evaluate-Decides :
      Decides config config.grants agent secret domain (evaluate config agent secret domain)
  unfolding evaluate
  evaluate-Decides = evaluate_grants-Decides config.grants

  First-Applies :
      {g : PolicyGrant} {grants : List PolicyGrant}
      → First agent secret domain g grants
      → Member g grants × Applies g agent secret domain
  First-Applies (found rest a) = (here rest, a)
  First-Applies (later other rest n f) = let (m, a) = First-Applies f in (there other rest m, a)

  narrower :
      (host : Text) {g : PolicyGrant}
      → matches domain host ≡ true
      → Applies g agent secret domain
      → Applies g agent secret host
  narrower host {g} m a =
      let (d, member, covers) =
        Member-of_any (λ d. matches d domain) g.allowed_domains a.for_domain in
      record {
        for_agent = a.for_agent;
        for_secret = a.for_secret;
        for_domain =
            any_of_Member (λ d. matches d host) g.allowed_domains member
              (matches_trans d domain host covers m);
      }

  -- An agent that asks for a domain, which may itself be a pattern, and is granted it, reaches
  -- through that domain no host for which some grant of the policy does not apply to this agent
  -- and this secret.
  pub evaluate-narrows :
      (host : Text) {terms : LeaseTerms}
      → evaluate config agent secret domain ≡ ok terms
      → matches domain host ≡ true
      → (g : PolicyGrant) × Member g config.grants × Applies g agent secret host
  evaluate-narrows host h m = elim evaluate-Decides [
    | inl (g, f, e) ↦ let (member, a) = First-Applies f in (g, member, narrower host m a)
    | inr (n, e) ↦ cc
  ]
