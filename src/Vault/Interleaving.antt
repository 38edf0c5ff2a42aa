-- ===== src/Vault/Interleaving.antt =====
-- src/vault.rs: requests that run side by side. `request_lease` gives its lock back after
-- the check of the cap and takes another to insert the lease; the server runs a task for
-- each connection on one vault, so that other calls get between the two.
use zerolease.Prelude.{ℕ, ◌+◌, ◌≤◌, List, [], ◌∷◌, Text, text_eq, ◌==◌, if◌then◌else◌}
use zerolease.Types.Identity.{AgentId, SecretName, DomainScope, SessionId, SessionToken}
use zerolease.Types.Secrets.{LeaseTerms, LeaseGrant}
use zerolease.Error.{Result, ok, err}
use zerolease.Env.{Env}
use zerolease.Session.{Session}
use zerolease.Vault.State.{Vault, Backends}
use zerolease.Vault.Leases.{check_request, finish_request}
use zerolease.Vault.Sessions.{check_session, link_lease}
use zerolease.Vault.Steps.{Step}

-- A request between its check and the rest: the locals of `request_lease`.
pub record Checked : Type 0 where
  pub env : Env
  pub agent : AgentId
  pub secret_name : SecretName
  pub domain : DomainScope
  pub peer : Text
  pub terms : LeaseTerms

abbrev pub accepted :
    Env
    → AgentId
    → SecretName
    → DomainScope
    → Text
    → Result LeaseTerms
    → List Checked
    → List Checked
accepted env agent secret domain peer (err e) ps = ps
accepted env agent secret domain peer (ok terms) ps =
    record {
      env = env;
      agent = agent;
      secret_name = secret;
      domain = domain;
      peer = peer;
      terms = terms;
    }
    ∷ ps

-- How many of them are of the agent.
abbrev pub in_flight : AgentId → List Checked → ℕ
in_flight agent [] = 0
in_flight agent (p ∷ ps) = in_flight agent ps + (if p.agent == agent then 1 else 0)

pub data Taken (p : Checked) : List Checked → List Checked → Type 0 where
  first : (ps : List Checked) → Taken p (p ∷ ps) ps
  later : (q : Checked) (ps rest : List Checked) → Taken p ps rest → Taken p (q ∷ ps) (q ∷ rest)

module _ {KS SS AS : Type 0} (b : Backends KS SS AS) (n : ℕ) where
  -- What runs without another call between, on a vault and the requests that were checked: a check,
  -- while at most `n` requests of the same agent are between their parts; the rest of any of them;
  -- the parts of `request_lease_scoped` before and after; and every other operation, which are the
  -- steps that draw no lease.
  pub data Part (v : Vault KS SS AS) (ps : List Checked)
      : Vault KS SS AS → List Checked → Type 0 where
    checks :
        (env : Env) (agent : AgentId) (secret : SecretName) (domain : DomainScope) (peer : Text)
        → in_flight agent ps ≤ n
        → Part v ps (check_request b env v agent secret domain peer).1 (
            accepted env agent secret domain peer
              (check_request b env v agent secret domain peer).0
              ps)
    finishes :
        {rest : List Checked} (p : Checked)
        → Taken p ps rest
        → Part v ps (finish_request b p.env v p.agent p.secret_name p.domain p.peer p.terms).1 rest
    checks_session :
        (env : Env) (agent : AgentId) (secret : SecretName) (domain : DomainScope) (peer : Text)
        (session : Session) (tool : Text)
        → Part v ps (check_session b env v agent secret domain peer session tool).1 ps
    links :
        (token : SessionToken) (session : SessionId) (grant : LeaseGrant)
        → Part v ps (link_lease v token session grant) ps
    others : {w : Vault KS SS AS} → Step b (λ _. ⊥) v w → Part v ps w ps

  pub data Mixed (v : Vault KS SS AS) (ps : List Checked)
      : Vault KS SS AS → List Checked → Type 0 where
    quiet : Mixed v ps v ps
    then_part :
        {w u : Vault KS SS AS} {qs rs : List Checked}
        → Mixed v ps w qs
        → Part w qs u rs
        → Mixed v ps u rs
