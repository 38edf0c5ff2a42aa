-- ===== src/KeySources/Environment.antt =====
-- src/keysource/env.rs: the key as 64 hexadecimal digits in an environment variable. The text is
-- held by its bytes; to cut it inside a character is the outcome `panics`.
pub mod RoundTrip
use zerolease.Prelude.{
  ℕ, zero, suc, ◌+◌, ◌-◌, ◌*◌, ◌≤◌, Bool, true, false, not, ◌&&◌, Option, none, some, List, [], ◌∷◌,
  Text, codes, ltb, leb, ◌==◌, nat_eq, if◌then◌else◌, length,
}
use zerolease.Types.Secrets.{Bytes}
use zerolease.Error.{Error, key_source_unavailable, invalid_config, text, Result, ok, err}

-- `char::to_digit(16)`
unfoldable pub to_digit : ℕ → Option ℕ
to_digit c =
    if leb b'0' c && leb c b'9'
    then some (c - b'0')
    else if leb b'a' c && leb c b'f'
    then some (c - b'a' + 10)
    else if leb b'A' c && leb c b'F'
    then some (c - b'A' + 10)
    else none

-- `u8::from_str_radix(…, 16)` of two bytes: a plus sign may stand before a digit.
unfoldable pub from_str_radix : ℕ → ℕ → Option ℕ
unfolding to_digit
from_str_radix a b = if a == b'+' then to_digit b else elim (to_digit a) [
  | none ↦ none
  | some high ↦ elim (to_digit b) [ none ↦ none | some low ↦ some (high * 16 + low) ]
]

pub data Decoded : Type 0 where
  bytes : Bytes → Decoded
  fails : Error → Decoded
  panics : Decoded

abbrev pub push : ℕ → Decoded → Decoded
push byte (bytes rest) = bytes (byte ∷ rest)
push byte (fails e) = fails e
push byte panics = panics

-- Whether a slice may end before the text.
abbrev pub is_boundary : Text → Bool
is_boundary [] = true
is_boundary (c ∷ s) = not (leb 0x80 c && leb c 0xbf)

-- The loop, from `hex[i * 2..]` on.
unfoldable pub decode_pairs : Text → Decoded
unfolding from_str_radix
decode_pairs [] = bytes []
decode_pairs (a ∷ []) = panics
decode_pairs (a ∷ b ∷ s) =
    let rest = decode_pairs s in
    if not (is_boundary s) then panics else elim (from_str_radix a b) [
      | none ↦ fails (invalid_config (text (codes "not valid hex")))
      | some byte ↦ push byte rest
    ]

unfoldable pub decode_hex_32 : Text → Decoded
unfolding decode_pairs
decode_hex_32 hex =
    if not (length hex == 64)
    then fails (invalid_config (text (codes "must be 64 hex characters")))
    else decode_pairs hex

-- `load_or_create_dek`, of the value that the variable has.
unfoldable pub load_or_create_dek : Option Text → Decoded
unfolding decode_hex_32
load_or_create_dek none = fails (key_source_unavailable (text (codes "env var not set")))
load_or_create_dek (some hex) = decode_hex_32 hex

unfoldable pub rotate_dek : Option Text → Bytes → Result Bytes × Option Text
rotate_dek variable new_dek =
    (err (key_source_unavailable (text (codes "cannot rotate an env-var key source"))), variable)
