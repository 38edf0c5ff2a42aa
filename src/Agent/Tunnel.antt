-- ===== src/Agent/Tunnel.antt =====
-- crates/zerolease-agent/src/proxy/connect.rs: which tunnels the proxy opens.
use zerolease.Prelude.{
  decimal, ℕ, ◌≤◌, ◌≡◌, ap, if◌then◌else◌, ◌∙◌, inl, inr, ◌⊎◌, Bool, true, false, Option, none,
  some, List, [], ◌∷◌, ◌++◌, Text, arith, any, ◌==◌, nat_eq, text_eq, Bool-cases, Option-cases,
  pos_part, ◌-ℤ◌,
}
use zerolease.Types.Time.{DateTime, later_than, num_seconds}
use zerolease.Map.{get}
use zerolease.Agent.LeaseState.{LeaseState, LeaseInfo, is_allowed}
use zerolease.Agent.Address.{is_private_ip}
use zerolease.Agent.Connect.{
  tunnel, SocketAddr, handle_connect, resolve_and_validate, parse_connect_target, is_valid_hostname,
  to_ascii_lowercase, tunnel_timeout, allowed_ports,
}

allowed_state :
    (state : LeaseState) (now : DateTime) (domain : Text)
    → is_allowed state now domain ≡ true
    → (info : LeaseInfo) × (get state.leases domain ≡ some info)
      × (later_than info.expires_at now ≡ true)
unfolding is_allowed
allowed_state state now domain h = elim (Option-cases (get state.leases domain)) [
  | inl missing ↦ absurd (ground arith)
  | inr (info, found) ↦ (info, found, ground arith)
]

-- An address that a name and a port resolve to has that port.
abbrev pub KeepsPort : (Text → Option (List SocketAddr)) → Type 0
KeepsPort resolve =
    (host : Text) (port : ℕ) (addr : SocketAddr) (others : List SocketAddr)
    → port ≤ 65535
    → resolve (host ++ (b':' ∷ decimal port)) ≡ some (addr ∷ others)
    → addr.1 ≡ port

-- A tunnel that the proxy may open for the line: it leads to the first address that the
-- name and the port of the line resolve to.
pub record Permitted (resolve : Text → Option (List SocketAddr)) (now : ℕ → DateTime)
    (state : LeaseState) (line : Text) (addr : SocketAddr) (timeout : ℕ) : Type 0 where
  pub host : Text
  pub port : ℕ
  pub info : LeaseInfo
  pub asked : parse_connect_target line ≡ some (host, port)
  pub port_allowed : (port ≡ 443) ⊎ (port ≡ 8443)
  pub valid : is_valid_hostname host ≡ true
  pub leased : get state.leases (to_ascii_lowercase host) ≡ some info
  pub others : List SocketAddr
  pub resolved : resolve (to_ascii_lowercase host ++ (b':' ∷ decimal port)) ≡ some (addr ∷ others)
  pub current : later_than info.expires_at (now 0) ≡ true
  pub same_port : addr.1 ≡ port
  pub outside : is_private_ip addr.0 ≡ false
  pub bounded : timeout ≤ 3600
  pub within_lease : timeout ≤ pos_part (num_seconds (info.expires_at -ℤ now 1))

module _ (resolve : Text → Option (List SocketAddr)) (reach : SocketAddr → Bool) where
  resolve_and_validate-first :
      (target : Text) (addr : SocketAddr)
      → resolve_and_validate resolve reach target ≡ some addr
      → (others : List SocketAddr) × (resolve target ≡ some (addr ∷ others))
        × (is_private_ip addr.0 ≡ false)
  unfolding resolve_and_validate
  resolve_and_validate-first target addr h = elim (Option-cases (resolve target)) [
    | inl failed ↦ absurd (ground arith)
    | inr (addrs, found) ↦
        let (others, e, out) = first_outside addrs addr (rw (found, resolve_and_validate) at h) in
        (others, found ∙ ap some e, out)
  ]
    where
      first_outside :
          (addrs : List SocketAddr) (addr : SocketAddr)
          → elim addrs [ [] ↦ none | (a ∷ _) ↦ if is_private_ip a.0 then none else some a ]
            ≡ some addr
          → (others : List SocketAddr) × (addrs ≡ addr ∷ others) × (is_private_ip addr.0 ≡ false)
      first_outside [] addr e = absurd (ground arith)
      first_outside (a ∷ more) addr e = elim (Bool-cases (is_private_ip a.0)) [
        | inl inside ↦ absurd (ground arith)
        | inr out ↦ let p : a ≡ addr = ground arith in (more, ap (λ x. x ∷ more) p, rw (← p) out)
      ]

  small : {port : ℕ} → (port ≡ 443) ⊎ (port ≡ 8443) → port ≤ 65535
  small (inl e) = omega arith
  small (inr e) = omega arith

  ports : (port : ℕ) → any (λ p. p == port) allowed_ports ≡ true → (port ≡ 443) ⊎ (port ≡ 8443)
  unfolding any
  ports port h = ground arith

  -- With a resolver that keeps the port, the proxy opens a tunnel only to a port and a host name
  -- that it allows, for a domain that has a current lease, to the first address to which that name
  -- and that port resolve, which has that port and is not internal, for an hour at most, and for no
  -- longer than the lease still lasts.
  pub handle_connect-Permitted :
      (keeps : KeepsPort resolve) (now : ℕ → DateTime) (state : LeaseState) (line : Text)
      (addr : SocketAddr) (timeout : ℕ)
      → handle_connect resolve reach now state line ≡ tunnel addr timeout
      → Permitted resolve now state line addr timeout
  unfolding handle_connect tunnel_timeout
  handle_connect-Permitted keeps now state line addr timeout h =
      elim (Option-cases (parse_connect_target line)) [
        | inl bad ↦ absurd (ground arith)
        | inr ((host, port), parsed) ↦
            let domain = to_ascii_lowercase host in
            let target = domain ++ (b':' ∷ decimal port) in
            let open_port : any (λ p. p == port) allowed_ports ≡ true = ground arith in
            let allowed : is_allowed state (now 0) domain ≡ true = ground arith in
            let (info, leased, current) = allowed_state state (now 0) domain allowed in
            elim (Option-cases (resolve_and_validate resolve reach target)) [
              | inl failed ↦ absurd (ground arith)
              | inr (found, resolved) ↦
                  let same : found ≡ addr = ground arith in
                  let limit : timeout ≡ tunnel_timeout state (now 1) domain = ground arith in
                  let (others, at_first, outside) =
                    resolve_and_validate-first target addr (resolved ∙ ap some same) in
                  record {
                    host = host;
                    port = port;
                    info = info;
                    asked = parsed;
                    port_allowed = ports port open_port;
                    valid = ground arith;
                    leased = leased;
                    current = current;
                    outside = outside;
                    same_port =
                        keeps domain port addr others (small (ports port open_port)) at_first;
                    others = others;
                    resolved = at_first;
                    bounded = ground (arith, leased);
                    within_lease = ground (arith, leased);
                  }
            ]
      ]
