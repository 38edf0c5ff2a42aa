-- ===== src/Tests/Agents.antt =====
-- The theorems on the agent's proxy, at concrete inputs.
use zerolease.Prelude.{
  digits_from, decimal, decimal-Digits, parse_unsigned-decimal, ◌≤◌, parse_unsigned, take, ℕ, ◌≡◌,
  ◌≢◌, from_utf8, utf8_run, continuation, ◌↔◌, refl, true, Bool, Option, none, some, List, [], ◌∷◌,
  Text, codes, pos, arith, text_beq, any, strip_prefix, starts_with, ◌-ℤ◌, div_trunc,
}
use zerolease.Types.Time.{DateTime, num_seconds}
use zerolease.Map.{get}
use zerolease.Agent.LeaseState.{LeaseState, LeaseInfo, is_allowed, new}
use zerolease.Agent.Refresh.{refreshes, last_accepted, refreshes-is_allowed}
use zerolease.Agent.Address.{v4, is_private_ip, is_private_v4, Internal, address, is_private_ip_iff}
use zerolease.Agent.Connect.{
  SocketAddr, handle_connect, resolve_and_validate, parse_connect_target, parse_target,
  split_whitespace, words_from, strip_white, strip_wide, rsplit_once, is_valid_hostname,
  tunnel_timeout,
}
use zerolease.Agent.Connect.RoundTrip.{rsplit_once-Digits, rsplit_once-append, parse_target-decimal}
use zerolease.Agent.Sni.{found, panics, extract_sni, read_extensions, walk_extensions}
use zerolease.Agent.Sni.Bounds.{read_extensions-safe}
use zerolease.Agent.Sni.RoundTrip.{HelloParts, record_bytes, extract_sni-found}
use zerolease.Tests.Sample.{zeros}
use zerolease.Agent.Transparent.{max_client_hello, tunnelled, passage_of, handle_transparent}
use zerolease.Agent.Tunnel.{KeepsPort, Permitted, handle_connect-Permitted}

abbrev info : LeaseInfo
info = record { lease_id = codes "abc"; expires_at = pos 90000000000 }

abbrev state : LeaseState
state = record { version = 1; leases = (codes "github.com", info) ∷ [] }

refreshes-is_allowed_example :
    is_allowed
      (refreshes new ((none, pos 6) ∷ (some state, pos 5) ∷ []))
      (pos 7)
      (codes "github.com")
    ≡ is_allowed
        (last_accepted new ((none, pos 6) ∷ (some state, pos 5) ∷ []))
        (pos 7)
        (codes "github.com")
unfolding new
refreshes-is_allowed_example =
    refreshes-is_allowed new ((none, pos 6) ∷ (some state, pos 5) ∷ []) (pos 7) (codes "github.com")
      tt (omega arith, (omega arith, ((tt, tt), tt)))

is_private_ip_iff_example :
    (is_private_ip (v4 169 254 169 254) ≡ true) ↔ Internal (address 169 254 169 254)
is_private_ip_iff_example =
    is_private_ip_iff 169 254 169 254 (omega arith) (omega arith) (omega arith) (omega arith)

abbrev github : SocketAddr
github = (v4 140 82 112 3, 443)

abbrev resolve : Text → Option (List SocketAddr)
unfolding parse_target
resolve target = elim (parse_target target) [
  | none ↦ none
  | some (host, port) ↦ some ((v4 140 82 112 3, port) ∷ [])
]

no_host : (port : ℕ) → port ≤ 65535 → parse_target (b':' ∷ decimal port) ≡ none
unfolding parse_target decimal
no_host port b =
    let last = rsplit_once-Digits (decimal port) (decimal-Digits port) in
    let split = rsplit_once-append [] (decimal port) last in
    let number = parse_unsigned-decimal 65535 port b in ground arith

resolve-KeepsPort : KeepsPort resolve
unfolding resolve
resolve-KeepsPort [] port addr others b e =
    let found : none ≡ some (addr ∷ others) = rw (resolve, no_host port b) at e in
    absurd (ground arith)
resolve-KeepsPort (c ∷ host) port addr others b e =
    let parsed = parse_target-decimal (c ∷ host) port (λ q. absurd (ground arith)) b in
    let found : some ((v4 140 82 112 3, port) ∷ []) ≡ some (addr ∷ others) =
      rw (resolve, parsed) at e in
    ground arith

abbrev reach : SocketAddr → Bool
reach _ = true

abbrev clock : ℕ → DateTime
clock _ = pos 30000000000

abbrev line : Text
line = codes "CONNECT GitHub.com:443 HTTP/1.1"

handle_connect-Permitted_example : Permitted resolve clock state line github 60
unfolding handle_connect parse_connect_target parse_target split_whitespace words_from strip_white
    strip_wide rsplit_once parse_unsigned digits_from is_valid_hostname tunnel_timeout
    resolve_and_validate is_allowed is_private_ip is_private_v4 get text_beq any starts_with
    strip_prefix num_seconds div_trunc ◌-ℤ◌
handle_connect-Permitted_example =
    handle_connect-Permitted resolve reach resolve-KeepsPort clock state line github 60 refl

abbrev parts : HelloParts
parts = record {
  fixed = 3 ∷ 3 ∷ zeros 32;
  session_id = 1 ∷ 2 ∷ [];
  ciphers = 0x13 ∷ 1 ∷ [];
  compression = 0 ∷ [];
  before = (10, 0 ∷ []) ∷ [];
  host = codes "github.com";
  after = [];
  rest = [];
}

ten-ne-zero : ◌≢◌ {A = ℕ} 10 0
ten-ne-zero e = omega arith

extract_sni-found_example : extract_sni (record_bytes parts) ≡ found (codes "github.com")
unfolding from_utf8 utf8_run continuation
extract_sni-found_example = extract_sni-found parts refl (ten-ne-zero, tt) refl

read_extensions-safe_example : read_extensions (0 ∷ 4 ∷ 0 ∷ 5 ∷ 0 ∷ 0 ∷ []) ≢ panics
read_extensions-safe_example = read_extensions-safe 0 4 (0 ∷ 5 ∷ 0 ∷ 0 ∷ []) (omega arith)

-- A message that declares four bytes of extensions and has none.
cut_short_panics : read_extensions (0 ∷ 4 ∷ []) ≡ panics
unfolding read_extensions walk_extensions
cut_short_panics = refl

-- A handshake for a leased name reaches the tunnel.
github_tunnelled :
    handle_transparent (λ target. true) state (pos 5) (record_bytes parts)
    ≡ tunnelled (codes "github.com:443")
unfolding handle_transparent passage_of is_allowed get text_beq
github_tunnelled = rw (take_parts, extract_sni-found_example) refl
  where
    take_parts : take max_client_hello (record_bytes parts) ≡ record_bytes parts
    take_parts = refl
