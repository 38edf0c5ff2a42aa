-- ===== src/Agent/Sni/Bounds.antt =====
-- crates/zerolease-agent/src/proxy/sni.rs: when the parser stays inside the message.
use zerolease.Prelude.{
  ℕ, zero, suc, ◌-◌, ◌≤◌, ◌≡◌, ◌≢◌, inl, inr, Option, none, some, [], ◌∷◌, arith, leb, ◌==◌, nat_eq,
  length, drop, from_utf8, Bool-cases, Option-cases,
}
use zerolease.Types.Secrets.{Bytes}
use zerolease.Agent.Sni.{
  panics, u16, first_bytes, host_of, read_names, parse_server_name, walk_extensions,
  read_extensions,
}

pub length-drop : (n : ℕ) (s : Bytes) → length (drop n s) ≡ length s - n
length-drop zero s = omega arith
length-drop (suc n) [] = omega arith
length-drop (suc n) (b ∷ s) = omega (arith, length-drop n s)

host_of-safe : (o : Option Bytes) → host_of o ≢ panics
host_of-safe none e = absurd (ground arith)
host_of-safe (some name) e = elim (Option-cases (from_utf8 name)) [
  | inl bad ↦ absurd (ground arith)
  | inr (host, good) ↦ absurd (ground arith)
]

read_names-safe : (fuel : ℕ) (s : Bytes) → read_names fuel s ≢ panics
unfolding read_names
read_names-safe zero s e = absurd (ground arith)
read_names-safe (suc fuel) [] e = absurd (ground arith)
read_names-safe (suc fuel) (t ∷ []) e = absurd (ground arith)
read_names-safe (suc fuel) (t ∷ a ∷ []) e = absurd (ground arith)
read_names-safe (suc fuel) (t ∷ a ∷ b ∷ s) e = elim (Bool-cases (t == 0)) [
  | inl hit ↦ absurd (host_of-safe (first_bytes (u16 a b) s) (rw (hit, read_names) at e))
  | inr miss ↦ absurd (read_names-safe fuel (drop (u16 a b) s) (rw (miss, read_names) at e))
]

parse_server_name-safe : (s : Bytes) → parse_server_name s ≢ panics
unfolding parse_server_name
parse_server_name-safe [] e = absurd (ground arith)
parse_server_name-safe (a ∷ []) e = absurd (ground arith)
parse_server_name-safe (a ∷ b ∷ s) e = read_names-safe (suc (length s)) s e

walk_extensions-safe :
    (fuel left : ℕ) (s : Bytes) → left ≤ length s → walk_extensions fuel left s ≢ panics
unfolding walk_extensions
walk_extensions-safe zero left s h e = absurd (ground arith)
walk_extensions-safe (suc fuel) left [] h e = absurd (ground arith)
walk_extensions-safe (suc fuel) left (a ∷ []) h e = absurd (ground arith)
walk_extensions-safe (suc fuel) left (a ∷ b ∷ []) h e = absurd (ground arith)
walk_extensions-safe (suc fuel) left (a ∷ b ∷ c ∷ []) h e = absurd (ground arith)
walk_extensions-safe (suc fuel) left (a ∷ b ∷ c ∷ d ∷ s) h e =
    let len = length-drop (u16 c d) s in
    let ih = walk_extensions-safe fuel (left - 4 - u16 c d) (drop (u16 c d) s) (omega arith) in
    elim (Bool-cases (leb 4 left)) [
      | inr done ↦ absurd (ground arith)
      | inl more ↦ elim (Bool-cases (u16 a b == 0)) [
        | inr other ↦ absurd (ih (ground arith))
        | inl name ↦ elim (Option-cases (first_bytes (u16 c d) s)) [
          | inl short ↦ absurd (ground arith)
          | inr (names, whole) ↦ absurd (parse_server_name-safe names (ground arith))
        ]
      ]
    ]

-- Extensions that are as long as they declare never make the parser index past the end of
-- the message.
pub read_extensions-safe :
    (a b : ℕ) (s : Bytes) → u16 a b ≤ length s → read_extensions (a ∷ b ∷ s) ≢ panics
unfolding read_extensions
read_extensions-safe a b s h e = walk_extensions-safe (suc (length s)) (u16 a b) s h e
