-- ===== src/Prelude/Decimal.antt =====
-- Numbers in decimal digits, as std prints and parses them.
use Prim.Native.Nat.{ℕ, zero, suc, ◌+◌, ◌-◌, ◌*◌, ◌/◌, ◌%◌, ◌≤◌, ◌<◌}
use mathlib.Core.Path.{◌≡◌, refl, ap, ◌∙◌}
use mathlib.Core.Logic.{◌≢◌, inl, inr}
use mathlib.Core.Bool.{false, ◌&&◌}
use mathlib.Core.Option.{Option, none, some}
use mathlib.Core.List.{[], ◌∷◌, ◌++◌}
use native.Mathlib.Omega.{arith}
use zerolease.Prelude.Tests.{leb, ltb, ◌==◌, nat_eq, if◌then◌else◌, Bool-cases}
use zerolease.Prelude.Strings.{Text}

-- `{n}` of a number, on fuel: each digit takes one unit, and a number has no more digits than
-- itself, or one.
unfoldable pub decimal_from : ℕ → ℕ → Text
decimal_from zero n = []
decimal_from (suc fuel) n =
    let more = decimal_from fuel (n / 10) in
    (if ltb n 10 then [] else more) ++ ((b'0' + n % 10) ∷ [])

unfoldable pub decimal : ℕ → Text
unfolding decimal_from
decimal n = decimal_from (suc n) n

-- `parse` of the unsigned type that ends at `max`, after a sign and at each digit
unfoldable pub digits_from : ℕ → ℕ → Text → Option ℕ
digits_from max n [] = some n
digits_from max n (c ∷ s) =
    let rest = digits_from max (n * 10 + (c - 48)) s in
    if leb 48 c && leb c 57 then (if leb (n * 10 + (c - 48)) max then rest else none) else none

unfoldable pub parse_unsigned : ℕ → Text → Option ℕ
unfolding digits_from
parse_unsigned max [] = none
parse_unsigned max (c ∷ []) = if c == 43 then none else digits_from max 0 (c ∷ [])
parse_unsigned max (c ∷ d ∷ s) =
    if c == 43 then digits_from max 0 (d ∷ s) else digits_from max 0 (c ∷ d ∷ s)

-- The decimal digits of a number
abbrev pub Digits : Text → Type 0
Digits [] = Unit {0}
Digits (c ∷ s) = (48 ≤ c) × ((c ≤ 57) × Digits s)

Digits-append : (s : Text) (c : ℕ) → Digits s → 48 ≤ c → c ≤ 57 → Digits (s ++ (c ∷ []))
Digits-append [] c d h k = (h, (k, tt))
Digits-append (b ∷ s) c (lo, (hi, d)) h k = (lo, (hi, Digits-append s c d h k))

decimal_from-Digits : (fuel n : ℕ) → Digits (decimal_from fuel n)
unfolding decimal_from
decimal_from-Digits zero n = tt
decimal_from-Digits (suc fuel) n = elim (Bool-cases (ltb n 10)) [
  | inl small ↦ rw (small) (omega arith, (omega arith, tt))
  | inr large ↦ rw (large) (
      Digits-append (decimal_from fuel (n / 10)) (48 + n % 10) (decimal_from-Digits fuel (n / 10))
        (omega arith) (omega arith))
]

pub decimal-Digits : (n : ℕ) → Digits (decimal n)
unfolding decimal
decimal-Digits n = decimal_from-Digits (suc n) n

digits_from-append :
    (max : ℕ) (s : Text) (a n c : ℕ)
    → digits_from max a s ≡ some n
    → 48 ≤ c
    → c ≤ 57
    → n * 10 + (c - 48) ≤ max
    → digits_from max a (s ++ (c ∷ [])) ≡ some (n * 10 + (c - 48))
unfolding digits_from
digits_from-append max [] a n c e h k b = ground arith
digits_from-append max (d ∷ s) a n c e h k b = elim (Bool-cases (leb 48 d && leb d 57)) [
  | inr bad ↦ absurd (ground arith)
  | inl digit ↦ elim (Bool-cases (leb (a * 10 + (d - 48)) max)) [
    | inr over ↦ absurd (ground arith)
    | inl fits ↦
        rw (digit, fits) (digits_from-append max s (a * 10 + (d - 48)) n c (ground arith) h k b)
  ]
]

digits_from-decimal_from :
    (max fuel n : ℕ) → n < fuel → n ≤ max → digits_from max 0 (decimal_from fuel n) ≡ some n
unfolding decimal_from digits_from
digits_from-decimal_from max zero n h b = absurd (omega arith)
digits_from-decimal_from max (suc fuel) n h b = elim (Bool-cases (ltb n 10)) [
  | inl small ↦ rw small (ground arith)
  | inr large ↦
      let ten : 10 ≤ n = ground arith in
      let ih = digits_from-decimal_from max fuel (n / 10) (omega arith) (omega arith) in
      rw large (
        digits_from-append max (decimal_from fuel (n / 10)) 0 (n / 10) (48 + n % 10) ih
          (omega arith) (omega arith) (omega arith)
        ∙ ap some (omega arith))
]

snoc-NotEmpty : (s : Text) (c : ℕ) → s ++ (c ∷ []) ≢ []
snoc-NotEmpty [] c e = absurd (ground arith)
snoc-NotEmpty (d ∷ s) c e = absurd (ground arith)

decimal-NotEmpty : (n : ℕ) → decimal n ≢ []
unfolding decimal decimal_from
decimal-NotEmpty n e =
    snoc-NotEmpty (if ltb n 10 then [] else decimal_from n (n / 10)) (48 + n % 10) e

parse_unsigned-Digits :
    (max : ℕ) (s : Text) → Digits s → s ≢ [] → parse_unsigned max s ≡ digits_from max 0 s
unfolding parse_unsigned
parse_unsigned-Digits max [] d ne = absurd (ne refl)
parse_unsigned-Digits max (c ∷ []) (lo, d) ne =
    let digit : (c == 43) ≡ false = ground arith in rw digit refl
parse_unsigned-Digits max (c ∷ b ∷ s) (lo, d) ne =
    let digit : (c == 43) ≡ false = ground arith in rw digit refl

pub parse_unsigned-decimal : (max n : ℕ) → n ≤ max → parse_unsigned max (decimal n) ≡ some n
unfolding decimal
parse_unsigned-decimal max n b =
    parse_unsigned-Digits max (decimal n) (decimal-Digits n) (decimal-NotEmpty n)
    ∙ digits_from-decimal_from max (suc n) n (omega arith) b
