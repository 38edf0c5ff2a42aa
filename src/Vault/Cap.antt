-- ===== src/Vault/Cap.antt =====
-- src/vault.rs: the cap on the active leases of an agent, when requests run side by side.
-- The cap is checked under one lock and the lease is inserted under a later one, and other
-- calls get between. The rest of a request holds the lock on the leases only for its last
-- write, so it is one step; so is each of the other operations, which change the leases
-- under one lock.
use zerolease.Prelude.{
  ℕ, inl, inr, ◌⊎◌, ◌+◌, ◌≤◌, ◌<◌, ◌≡◌, refl, Bool, some, List, [], ◌∷◌, Text, arith, nat_eq,
  text_eq, ◌==◌, if◌then◌else◌, Bool-cases, text_beq_iff,
}
use zerolease.Types.Identity.{AgentId, SecretName, DomainScope, LeaseId}
use zerolease.Types.Secrets.{LeaseTerms}
use zerolease.Error.{Result, ok, err}
use zerolease.Env.{Env}
use zerolease.Map.{Map, get, set, insert, map_values, count}
use zerolease.Map.Distinct.{count-insert-le, count-insert_not, count-set-le, count-map_values-le}
use zerolease.Policy.{PolicyConfig}
use zerolease.Lease.{Lease, record_use}
use zerolease.Lease
use zerolease.Lease.Lifecycle.{record_use-SameGrant, renew-SameGrant}
use zerolease.Vault.State.{Vault, Backends}
use zerolease.Vault.Leases.{active_count, is_active_of, check_request, finish_request}
use zerolease.Vault.Sessions.{check_session, link_lease}
use zerolease.Vault.Renewal.{retain_alive, is_alive}
use zerolease.Vault.Moves.{
  LeaseMove, keep, issue, spend, renew, revoke_one, revoke_some, tie, collect, both, revoke_if,
  check_request-leases, check_request-ok, finish_request-leases,
}
use zerolease.Vault.Settings.{
  check_request-SameSettings, finish_request-SameSettings, check_session-same,
}
use zerolease.Vault.Steps.{Step-Refines, link_lease-Refines}
use zerolease.Vault.Interleaving.{
  Checked, accepted, in_flight, Taken, first, later, Part, checks, finishes, checks_session, links,
  others, Mixed, quiet, then_part,
}

module _ (agent : AgentId) where
  count-retain_alive-le :
      (env : Env) (i : ℕ) (m : Map LeaseId Lease)
      → active_count agent (retain_alive env i m) ≤ active_count agent m
  unfolding active_count count retain_alive
  count-retain_alive-le env i [] = omega arith
  count-retain_alive-le env i ((j, l) ∷ m) =
      let rest = count-retain_alive-le env (if l.revoked then i else i + 1) m in
      elim (Bool-cases (is_alive env i l)) [
        | inl alive ↦ rw alive (ground arith)
        | inr dead ↦ rw dead (ground arith)
      ]

  -- A write to a stored lease that keeps its agent and does not take a revocation back.
  active_count-set :
      (m : Map LeaseId Lease) (k : LeaseId) (l l' : Lease)
      → get m k ≡ some l
      → l'.agent ≡ l.agent
      → l'.revoked ≡ l.revoked
      → active_count agent (set m k l') ≤ active_count agent m
  unfolding active_count
  active_count-set m k l l' found a r =
      count-set-le (is_active_of agent) m k l' l found (λ h. ground arith)

  active_count-revoke :
      (m : Map LeaseId Lease) (k : LeaseId) (l : Lease)
      → get m k ≡ some l
      → active_count agent (set m k (Lease.revoke l)) ≤ active_count agent m
  unfolding active_count Lease.revoke
  active_count-revoke m k l found =
      count-set-le (is_active_of agent) m k _ l found (λ h. ground arith)

  active_count-revoke_if :
      (m : Map LeaseId Lease) (sel : Lease → Bool)
      → active_count agent (map_values (revoke_if sel) m) ≤ active_count agent m
  unfolding active_count Lease.revoke
  active_count-revoke_if m sel =
      count-map_values-le (is_active_of agent) (revoke_if sel) m (λ l h. ground arith)

  active_count-insert :
      (m : Map LeaseId Lease) (k : LeaseId) (l : Lease)
      → active_count agent (insert m k l)
        ≤ active_count agent m + (if l.agent == agent then 1 else 0)
  unfolding active_count
  active_count-insert m k l = elim (Bool-cases (l.agent == agent)) [
    | inl same ↦ rw same (count-insert-le (is_active_of agent) m k l)
    | inr other ↦
        let le = count-insert_not (is_active_of agent) m k l (ground arith) in
        rw other (omega (arith, le))
  ]

  -- Where no request draws an id, no lease is issued and the count does not grow.
  LeaseMove-count :
      {policy : PolicyConfig} {cap : ℕ} {m n : Map LeaseId Lease}
      → LeaseMove policy cap (λ _. ⊥) m n
      → active_count agent n ≤ active_count agent m
  LeaseMove-count {m} (keep e) = rw e (omega arith)
  LeaseMove-count (issue m env who secret domain terms none_drawn e below) = absurd none_drawn
  LeaseMove-count (spend m id l l' now host found valid used) =
      let s = record_use-SameGrant l l' used in active_count-set m id l l' found s.agent s.revoked
  LeaseMove-count (renew m id l l' now extension found e) =
      let s = renew-SameGrant l l' now extension e in
      active_count-set m id l l' found s.agent s.revoked
  LeaseMove-count (revoke_one m id l found) = active_count-revoke m id l found
  LeaseMove-count (revoke_some m sel) = active_count-revoke_if m sel
  LeaseMove-count (tie m id l session found) =
      active_count-set m id l (record l { session_id = some session }) found refl refl
  LeaseMove-count (collect m env i) = count-retain_alive-le env i m
  LeaseMove-count (both p q) = omega (arith, LeaseMove-count p, LeaseMove-count q)

  in_flight-Taken :
      (p : Checked) {ps rest : List Checked}
      → Taken p ps rest
      → in_flight agent ps ≡ in_flight agent rest + (if p.agent == agent then 1 else 0)
  in_flight-Taken p (first rest) = omega arith
  in_flight-Taken p (later q ps rest t) = omega (arith, in_flight-Taken p t)

module _ {KS SS AS : Type 0} (b : Backends KS SS AS) (agent : AgentId) (n : ℕ) where
  -- The active leases of the agent, with those that its checked requests may still add.
  abbrev Within : Vault KS SS AS → List Checked → Type 0
  Within v ps = active_count agent v.leases + in_flight agent ps ≤ v.max_leases_per_agent + n

  accepted-Within :
      (env : Env) (v w : Vault KS SS AS) (who : AgentId) (secret : SecretName)
      (domain : DomainScope) (peer : Text) (r : Result LeaseTerms) (ps : List Checked)
      → w.leases ≡ v.leases
      → w.max_leases_per_agent ≡ v.max_leases_per_agent
      → ((terms : LeaseTerms) → r ≡ ok terms → active_count who v.leases < v.max_leases_per_agent)
      → in_flight who ps ≤ n
      → Within v ps
      → Within w (accepted env who secret domain peer r ps)
  accepted-Within env v w who secret domain peer (err e) ps same limit room few h =
      rw (same, limit) h
  accepted-Within env v w who secret domain peer (ok terms) ps same limit room few h =
      elim (Bool-cases (who == agent)) [
        | inr other ↦ rw (same, limit, other) (omega (arith, h))
        | inl equal ↦
            let e : who ≡ agent = (text_beq_iff who agent).0 equal in
            let below : active_count agent v.leases < v.max_leases_per_agent =
              rw e at (room terms refl) in
            let few' : in_flight agent ps ≤ n = rw e at few in
            rw (same, limit, equal) (omega (arith, below, few'))
      ]

  finished-Within :
      (v w : Vault KS SS AS) (p : Checked) (ps rest : List Checked)
      → Taken p ps rest
      → w.max_leases_per_agent ≡ v.max_leases_per_agent
      → (w.leases ≡ v.leases)
        ⊎ (w.leases
            ≡ insert v.leases (p.env.uuid 0) (
                Lease.new
                  (p.env.now 0)
                  (p.env.uuid 0)
                  p.agent
                  p.secret_name
                  (p.domain ∷ [])
                  p.terms))
      → Within v ps
      → Within w rest
  finished-Within v w p ps rest t limit (inl same) h =
      rw (same, limit) (omega (arith, h, in_flight-Taken agent p t))
  finished-Within v w p ps rest t limit (inr new) h =
      let l =
        Lease.new (p.env.now 0) (p.env.uuid 0) p.agent p.secret_name (p.domain ∷ []) p.terms in
      let le : active_count agent (insert v.leases (p.env.uuid 0) l)
          ≤ active_count agent v.leases + (if p.agent == agent then 1 else 0) =
        unfold Lease.new in active_count-insert agent v.leases (p.env.uuid 0) l in
      rw (new, limit) (omega (arith, h, in_flight-Taken agent p t, le))

  counted-Within :
      (v w : Vault KS SS AS) (ps : List Checked)
      → w.max_leases_per_agent ≡ v.max_leases_per_agent
      → active_count agent w.leases ≤ active_count agent v.leases
      → Within v ps
      → Within w ps
  counted-Within v w ps limit le h = rw limit (omega (arith, le, h))

  Part-Within :
      {v w : Vault KS SS AS} {ps qs : List Checked} → Part b n v ps w qs → Within v ps → Within w qs
  Part-Within {v} {w} {ps} (checks env who secret domain peer few) h =
      accepted-Within env v (check_request b env v who secret domain peer).1 who secret domain peer
        (check_request b env v who secret domain peer).0 ps
        (check_request-leases b (λ _. ⊥) env v who secret domain peer)
        (check_request-SameSettings b env v who secret domain peer).1
        (λ terms e. (check_request-ok b (λ _. ⊥) env v who secret domain peer terms e).1) few h
  Part-Within {v} {w} {ps} {qs} (finishes p t) h =
      finished-Within v (finish_request b p.env v p.agent p.secret_name p.domain p.peer p.terms).1 p
        ps qs t
        (finish_request-SameSettings b p.env v p.agent p.secret_name p.domain p.peer p.terms).1
        (finish_request-leases b (λ _. ⊥) p.env v p.agent p.secret_name p.domain p.peer p.terms) h
  Part-Within {v} {w} {ps} (checks_session env who secret domain peer s tool) h =
      let ((_, limit), same) = check_session-same b env v who secret domain peer s tool in
      counted-Within v (check_session b env v who secret domain peer s tool).1 ps limit
        (rw same (omega arith)) h
  Part-Within {v} {w} {ps} (links token session grant) h =
      let ((_, limit), move) = link_lease-Refines b (λ _. ⊥) v token session grant in
      counted-Within v (link_lease v token session grant) ps limit (LeaseMove-count agent move) h
  Part-Within {v} {w} {ps} (others s) h =
      let ((_, limit), move) = Step-Refines b (λ _. ⊥) s in
      counted-Within v w ps limit (LeaseMove-count agent move) h

  Mixed-Within :
      {v : Vault KS SS AS} {ps : List Checked} {w : Vault KS SS AS} {qs : List Checked}
      → Mixed b n v ps w qs
      → Within v ps
      → Within w qs
  Mixed-Within quiet h = h
  Mixed-Within (then_part run s) h = Part-Within s (Mixed-Within run h)

  -- However the parts of the calls interleave: when a request is checked only while at most `n`
  -- others of the same agent are between their check and their insert, an agent that was within the
  -- cap has at most `n` active leases more than the cap, those still to be inserted included. With
  -- one request of an agent at a time, it never goes above the cap.
  pub active_count-le :
      {v w : Vault KS SS AS} {qs : List Checked}
      → Mixed b n v [] w qs
      → active_count agent v.leases ≤ v.max_leases_per_agent
      → active_count agent w.leases + in_flight agent qs ≤ w.max_leases_per_agent + n
  active_count-le run h = Mixed-Within run (omega (arith, h))
