-- ===== src/KeySources/Environment/RoundTrip.antt =====
-- src/keysource/env.rs: what the decoder of the variable makes of a text.
use zerolease.Prelude.{
  ℕ, zero, suc, ◌*◌, ◌/◌, ◌%◌, ◌<◌, ◌≡◌, refl, ap, inl, inr, true, false, some, [], ◌∷◌, Text,
  arith, ◌==◌, nat_eq, length, Bool-cases, Option-cases,
}
use zerolease.Types.Secrets.{Bytes}
use zerolease.Transport.{hex, hex_digit}
use zerolease.KeySources.Environment.{
  Decoded, bytes, fails, panics, push, is_boundary, to_digit, from_str_radix, decode_pairs,
  decode_hex_32,
}

-- Numbers of eight bits
abbrev pub AreBytes : Bytes → Type 0
AreBytes [] = Unit {0}
AreBytes (b ∷ s) = (b < 256) × AreBytes s

to_digit-hex_digit : (d : ℕ) → d < 16 → to_digit (hex_digit d) ≡ some d
unfolding to_digit
to_digit-hex_digit d h = ground arith

hex_digit-ne-plus : (d : ℕ) → (hex_digit d == b'+') ≡ false
hex_digit-ne-plus d = ground arith

hex_digit-lt : (d : ℕ) → d < 16 → hex_digit d < 128
hex_digit-lt d h = ground arith

from_str_radix-hex :
    (b : ℕ) → b < 256 → from_str_radix (hex_digit (b / 16)) (hex_digit (b % 16)) ≡ some b
unfolding from_str_radix
from_str_radix-hex b h =
    let plus = hex_digit-ne-plus (b / 16) in
    let high = to_digit-hex_digit (b / 16) (omega arith) in
    let low = to_digit-hex_digit (b % 16) (omega arith) in
    rw (plus, high, low) (ap some (omega arith))

is_boundary-hex : (key : Bytes) → AreBytes key → is_boundary (hex key) ≡ true
unfolding hex
is_boundary-hex [] k = refl
is_boundary-hex (b ∷ key) (lt, k) = let ascii = hex_digit-lt (b / 16) (omega arith) in ground arith

decode_pairs-hex : (key : Bytes) → AreBytes key → decode_pairs (hex key) ≡ bytes key
unfolding decode_pairs hex
decode_pairs-hex [] k = refl
decode_pairs-hex (b ∷ key) (lt, k) =
    rw (is_boundary-hex key k, from_str_radix-hex b lt, decode_pairs-hex key k) refl

length-hex : (key : Bytes) → length (hex key) ≡ 2 * length key
unfolding hex
length-hex [] = omega arith
length-hex (b ∷ key) = omega (arith, length-hex key)

-- The 64 digits of a key of 32 bytes are read back as the key.
pub decode_hex_32-hex :
    (key : Bytes) → AreBytes key → length key ≡ 32 → decode_hex_32 (hex key) ≡ bytes key
unfolding decode_hex_32
decode_hex_32-hex key k size =
    let len : (length (hex key) == 64) ≡ true = ground (arith, length-hex key) in
    rw len (decode_pairs-hex key k)

abbrev pub IsAscii : Text → Type 0
IsAscii [] = Unit {0}
IsAscii (c ∷ s) = (c < 128) × IsAscii s

to_digit-lt : (c d : ℕ) → to_digit c ≡ some d → d < 16
unfolding to_digit
to_digit-lt c d e = ground arith

from_str_radix-lt : (a b d : ℕ) → from_str_radix a b ≡ some d → d < 256
unfolding from_str_radix
from_str_radix-lt a b d e = elim (Bool-cases (a == b'+')) [
  | inl plus ↦ let low = to_digit-lt b d (ground arith) in omega arith
  | inr other ↦ elim (Option-cases (to_digit a)) [
    | inl bad ↦ absurd (ground arith)
    | inr (high, h) ↦ elim (Option-cases (to_digit b)) [
      | inl bad ↦ absurd (ground arith)
      | inr (low, l) ↦ let p = to_digit-lt a high h in let q = to_digit-lt b low l in ground arith
    ]
  ]
]

-- A key of so many bytes, or an error; no slice is cut inside a character.
abbrev pub Reads : ℕ → Decoded → Type 0
Reads n (bytes key) = (length key ≡ n) × AreBytes key
Reads n (fails e) = Unit {0}
Reads n panics = ⊥

push-Reads : (n b : ℕ) (d : Decoded) → b < 256 → Reads n d → Reads (suc n) (push b d)
push-Reads n b (bytes key) lt (len, are) = (ap suc len, (lt, are))
push-Reads n b (fails e) lt r = tt
push-Reads n b panics lt r = absurd r

is_boundary-ascii : (s : Text) → IsAscii s → is_boundary s ≡ true
is_boundary-ascii [] a = refl
is_boundary-ascii (c ∷ s) (lt, a) = ground arith

decode_pairs-Reads : (n : ℕ) (s : Text) → length s ≡ 2 * n → IsAscii s → Reads n (decode_pairs s)
unfolding decode_pairs
decode_pairs-Reads zero [] len a = (refl, tt)
decode_pairs-Reads (suc n) [] len a = absurd (omega arith)
decode_pairs-Reads n (x ∷ []) len a = absurd (omega arith)
decode_pairs-Reads zero (x ∷ y ∷ s) len a = absurd (omega arith)
decode_pairs-Reads (suc n) (x ∷ y ∷ s) len (p, (q, a)) = elim (Option-cases (from_str_radix x y)) [
  | inl bad ↦ rw (is_boundary-ascii s a, bad) tt
  | inr (b, good) ↦
      rw (is_boundary-ascii s a, good)
        (push-Reads n b (decode_pairs s) (from_str_radix-lt x y b good)
          (decode_pairs-Reads n s (omega arith) a))
]

-- Of an ASCII text the decoder makes a key of 32 bytes or an error, and it does not panic.
pub decode_hex_32-Reads : (s : Text) → IsAscii s → Reads 32 (decode_hex_32 s)
unfolding decode_hex_32
decode_hex_32-Reads s a = elim (Bool-cases (length s == 64)) [
  | inl whole ↦ rw whole (decode_pairs-Reads 32 s (ground arith) a)
  | inr other ↦ rw other tt
]
