-- ===== src/Agent/Sni.antt =====
-- crates/zerolease-agent/src/proxy/sni.rs: `extract_sni`. A position in the message is held as the
-- bytes from it on, which are none past the end; an index past the end is the outcome `panics`.
pub mod Bounds
pub mod Fuel
pub mod RoundTrip
use zerolease.Prelude.{
  ℕ, zero, suc, ◌+◌, ◌-◌, ◌*◌, Bool, true, false, Option, none, some, List, [], ◌∷◌, Text, leb, ltb,
  ◌==◌, nat_eq, if◌then◌else◌, length, take, drop, from_utf8,
}
use zerolease.Types.Secrets.{Bytes}

pub data Sni : Type 0 where
  found : Text → Sni
  absent : Sni
  panics : Sni

abbrev pub u16 : ℕ → ℕ → ℕ
u16 a b = a * 256 + b

-- `get(pos..pos + n)` at the position of the bytes
unfoldable pub first_bytes : ℕ → Bytes → Option Bytes
first_bytes n s = if leb n (length s) then some (take n s) else none

abbrev pub host_of : Option Bytes → Sni
host_of none = absent
host_of (some name) = elim (from_utf8 name) [ none ↦ absent | some host ↦ found host ]

-- The loop of `parse_server_name`, on fuel: each turn reads three bytes.
unfoldable pub read_names : ℕ → Bytes → Sni
unfolding first_bytes
read_names zero s = absent
read_names (suc fuel) (name_type ∷ a ∷ b ∷ s) =
    let rest = read_names fuel (drop (u16 a b) s) in
    if name_type == 0 then host_of (first_bytes (u16 a b) s) else rest
read_names (suc fuel) _ = absent

unfoldable pub parse_server_name : Bytes → Sni
unfolding read_names
parse_server_name (_ ∷ _ ∷ s) = read_names (suc (length s)) s
parse_server_name _ = absent

-- The walk over the extensions, of which `left` bytes are declared to remain, on fuel: each turn
-- reads four bytes.
unfoldable pub walk_extensions : ℕ → ℕ → Bytes → Sni
unfolding parse_server_name first_bytes
walk_extensions zero left s = absent
walk_extensions (suc fuel) left (a ∷ b ∷ c ∷ d ∷ s) =
    let rest = walk_extensions fuel (left - 4 - u16 c d) (drop (u16 c d) s) in
    if leb 4 left
    then (if u16 a b == 0
        then elim (first_bytes (u16 c d) s) [ none ↦ absent | some names ↦ parse_server_name names ]
        else rest)
    else absent
walk_extensions (suc fuel) left _ = if leb 4 left then panics else absent

-- From the length of the extensions on.
unfoldable pub read_extensions : Bytes → Sni
unfolding walk_extensions
read_extensions (a ∷ b ∷ s) = walk_extensions (suc (length s)) (u16 a b) s
read_extensions _ = absent

unfoldable pub after_ciphers : Bytes → Sni
unfolding read_extensions
after_ciphers [] = absent
after_ciphers (comp_len ∷ s) = read_extensions (drop comp_len s)

unfoldable pub after_session_id : Bytes → Sni
unfolding after_ciphers
after_session_id (a ∷ b ∷ s) = after_ciphers (drop (u16 a b) s)
after_session_id _ = absent

unfoldable pub after_random : Bytes → Sni
unfolding after_session_id
after_random [] = absent
after_random (session_id_len ∷ s) = after_session_id (drop session_id_len s)

-- The ClientHello: version and random take 34 bytes.
unfoldable pub read_hello : Bytes → Sni
unfolding after_random
read_hello hello = if ltb (length hello) 34 then absent else after_random (drop 34 hello)

unfoldable pub read_handshake : Bytes → Sni
unfolding read_hello first_bytes
read_handshake (kind ∷ a ∷ b ∷ c ∷ s) =
    if kind == 1
    then elim (first_bytes (a * 65536 + b * 256 + c) s) [
      | none ↦ absent
      | some hello ↦ read_hello hello
    ]
    else absent
read_handshake _ = absent

unfoldable pub extract_sni : Bytes → Sni
unfolding read_handshake first_bytes
extract_sni (content ∷ _ ∷ _ ∷ a ∷ b ∷ s) =
    if content == 22
    then elim (first_bytes (u16 a b) s) [
      | none ↦ absent
      | some handshake ↦ read_handshake handshake
    ]
    else absent
extract_sni _ = absent
