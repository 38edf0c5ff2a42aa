-- ===== src/Agent/Connect.antt =====
-- crates/zerolease-agent/src/proxy/connect.rs: the parser of the CONNECT line, and the decision of
-- `handle_connect`. The resolver and the connection to an address are parameters.
pub mod RoundTrip
pub mod Words
use mathlib.Core.List.{reverse}
use zerolease.Prelude.{
  decimal, parse_unsigned, starts_with, ℕ, zero, suc, ◌+◌, ◌-◌, ◌*◌, Bool, true, false, not, ◌&&◌,
  ◌||◌, Option, none, some, List, [], ◌∷◌, ◌++◌, map, Text, codes, leb, ltb, min, ◌==◌, nat_eq,
  text_eq, if◌then◌else◌, length, any, ◌-ℤ◌, pos_part,
}
use zerolease.Types.Time.{DateTime, num_seconds}
use zerolease.Map.{get}
use zerolease.Agent.LeaseState.{LeaseState, is_allowed}
use zerolease.Agent.Address.{IpAddr, is_private_ip}

abbrev pub max_request_line : ℕ
max_request_line = 8192

abbrev pub max_tunnel_secs : ℕ
max_tunnel_secs = 3600

abbrev pub allowed_ports : List ℕ
allowed_ports = 443 ∷ 8443 ∷ []

-- The white-space characters of Unicode that take more than one byte in UTF-8.
unfoldable pub strip_wide : ℕ → Text → Option Text
strip_wide c [] = none
strip_wide c (d ∷ []) = if c == 0xc2 && (d == 0x85 || d == 0xa0) then some [] else none
strip_wide c (d ∷ e ∷ s) =
    if c == 0xc2 && (d == 0x85 || d == 0xa0)
    then some (e ∷ s)
    else if c == 0xe1 && d == 0x9a && e == 0x80
    then some s
    else if c == 0xe2
        && d == 0x80
        && (leb 0x80 e && leb e 0x8a || e == 0xa8 || e == 0xa9 || e == 0xaf)
    then some s
    else if c == 0xe2 && d == 0x81 && e == 0x9f
    then some s
    else if c == 0xe3 && d == 0x80 && e == 0x80
    then some s
    else none

-- The rest of a text after one white-space character at its front, if there is one.
unfoldable pub strip_white : Text → Option Text
unfolding strip_wide
strip_white [] = none
strip_white (c ∷ s) = if c == 0x20 || (leb 9 c && leb c 13) then some s else strip_wide c s

abbrev pub push_word : Text → List Text → List Text
push_word [] words = words
push_word (c ∷ word) words = reverse (c ∷ word) ∷ words

-- `split_whitespace`, on fuel: each turn takes a byte at least. The word so far is held backwards.
unfoldable pub words_from : ℕ → Text → Text → List Text
unfolding strip_white
words_from zero word s = push_word word []
words_from (suc fuel) word [] = push_word word []
words_from (suc fuel) word (c ∷ s) = elim (strip_white (c ∷ s)) [
  | some rest ↦ push_word word (words_from fuel [] rest)
  | none ↦ words_from fuel (c ∷ word) s
]

unfoldable pub split_whitespace : Text → List Text
unfolding words_from
split_whitespace s = words_from (suc (length s)) [] s

abbrev pub lower : ℕ → ℕ
lower c = if leb 65 c && leb c 90 then c + 32 else c

abbrev pub to_ascii_lowercase : Text → Text
to_ascii_lowercase = map lower

abbrev pub eq_ignore_ascii_case : Text → Text → Bool
eq_ignore_ascii_case s t = to_ascii_lowercase s == to_ascii_lowercase t

-- `rsplit_once` at the last such byte
unfoldable pub rsplit_once : Text → ℕ → Option (Text × Text)
rsplit_once [] c = none
rsplit_once (d ∷ s) c = elim (rsplit_once s c) [
  | some (before, after) ↦ some (d ∷ before, after)
  | none ↦ if d == c then some ([], s) else none
]

-- `parse::<u16>()`: digits, after a plus sign or not, of a value below 2^16.
abbrev pub is_empty : Text → Bool
is_empty [] = true
is_empty (c ∷ s) = false

-- The host and the port of the second word.
unfoldable pub parse_target : Text → Option (Text × ℕ)
unfolding rsplit_once parse_unsigned
parse_target target = elim (rsplit_once target b':') [
  | none ↦ none
  | some (host, port_str) ↦ elim (parse_unsigned 65535 port_str) [
    | none ↦ none
    | some port ↦ if is_empty host then none else some (host, port)
  ]
]

unfoldable pub parse_connect_target : Text → Option (Text × ℕ)
unfolding split_whitespace parse_target
parse_connect_target line = elim (split_whitespace line) [
  | [] ↦ none
  | (method ∷ more) ↦ elim more [
    | [] ↦ none
    | (target ∷ _) ↦
        if eq_ignore_ascii_case method (codes "CONNECT") then parse_target target else none
  ]
]

abbrev pub is_dns_byte : ℕ → Bool
is_dns_byte c =
    (leb 48 c && leb c 57)
    || (leb 65 c && leb c 90)
    || (leb 97 c && leb c 122)
    || c == b'-'
    || c == b'.'

abbrev pub all : (ℕ → Bool) → Text → Bool
all p [] = true
all p (c ∷ s) = p c && all p s

unfoldable pub is_valid_hostname : Text → Bool
unfolding starts_with
is_valid_hostname host =
    not (is_empty host)
    && leb (length host) 253
    && all is_dns_byte host
    && not (starts_with host (codes "-"))
    && not (starts_with host (codes "."))

abbrev pub SocketAddr : Type 0
SocketAddr = IpAddr × ℕ

-- How the proxy answers a request.
pub data Answer : Type 0 where
  bad_request forbidden bad_gateway : Answer
  -- the connection is established, for so many seconds at most
  tunnel : SocketAddr → ℕ → Answer

-- `(info.expires_at - now).num_seconds().max(0)`, zero without a lease, at most
-- `MAX_TUNNEL_DURATION`.
unfoldable pub tunnel_timeout : LeaseState → DateTime → Text → ℕ
tunnel_timeout state now domain = elim (get state.leases domain) [
  | none ↦ 0
  | some info ↦ min (pos_part (num_seconds (info.expires_at -ℤ now))) max_tunnel_secs
]

module _ (resolve : Text → Option (List SocketAddr)) (reach : SocketAddr → Bool) where
  -- The first address that the name resolves to, unless it is internal.
  unfoldable pub resolve_and_validate : Text → Option SocketAddr
  resolve_and_validate target = elim (resolve target) [
    | none ↦ none
    | some addrs ↦ elim addrs [
      | [] ↦ none
      | (addr ∷ _) ↦ if is_private_ip addr.0 then none else some addr
    ]
  ]

  -- `handle_connect` up to the tunnel: the clock is read by `is_allowed` and again for the timeout.
  -- The header lines after the request are read and dropped there.
  unfoldable pub handle_connect : (ℕ → DateTime) → LeaseState → Text → Answer
  unfolding parse_connect_target is_valid_hostname tunnel_timeout resolve_and_validate decimal
  handle_connect now state line =
      if ltb max_request_line (length line) then bad_request else elim (parse_connect_target line) [
        | none ↦ bad_request
        | some (host, port) ↦
            if not (any (λ p. p == port) allowed_ports)
            then forbidden
            else if not (is_valid_hostname host)
            then bad_request
            else (let domain = to_ascii_lowercase host in
                let timeout = tunnel_timeout state (now 1) domain in
                if not (is_allowed state (now 0) domain)
                then forbidden
                else elim (resolve_and_validate (domain ++ (b':' ∷ decimal port))) [
                  | none ↦ bad_gateway
                  | some addr ↦ if reach addr then tunnel addr timeout else bad_gateway
                ])
      ]
