-- ===== src/Prelude/Strings.antt =====
-- `str` and `String` as their bytes, with the methods that the code calls.
use Prim.Native.Nat.{ℕ}
use Prim.Native.Char.{code}
use Prim.Native.String.{String}
use mathlib.Core.Path.{◌≡◌}
use mathlib.Core.Logic.{◌↔◌}
use mathlib.Core.Bool.{Bool, true, false, ◌&&◌}
use mathlib.Core.List.{List, [], ◌∷◌}
use mathlib.Core.Option
use mathlib.Core.Option.{Option, none, some}
use native.Mathlib.Omega.{arith}
use zerolease.Prelude.Tests.{Keyed, nat_beq, if◌then◌else◌}

abbrev pub Text : Type 0
Text = List ℕ

-- The bytes of an ASCII literal.
abbrev pub codes : String → Text
codes String.[] = []
codes (String.◌∷◌ c s) = code c ∷ codes s

unfoldable pub text_beq : Text → Text → Bool
text_beq [] [] = true
text_beq [] (d ∷ t) = false
text_beq (c ∷ s) [] = false
text_beq (c ∷ s) (d ∷ t) = nat_beq c d && text_beq s t

pub text_beq_iff : (s t : Text) → (text_beq s t ≡ true) ↔ (s ≡ t)
unfolding text_beq
text_beq_iff [] [] = ground arith
text_beq_iff [] (d ∷ t) = ground arith
text_beq_iff (c ∷ s) [] = ground arith
text_beq_iff (c ∷ s) (d ∷ t) = ground (arith, text_beq_iff s t)

instance abbrev pub text_eq : Keyed Text
text_eq = record { same_iff = text_beq_iff; same = text_beq }

-- `s.strip_prefix(p)`
unfoldable pub strip_prefix : Text → Text → Option Text
strip_prefix s [] = some s
strip_prefix [] (c ∷ p) = none
strip_prefix (d ∷ s) (c ∷ p) = if nat_beq d c then strip_prefix s p else none

unfoldable pub starts_with : Text → Text → Bool
unfolding strip_prefix
starts_with s p = elim (strip_prefix s p) [ none ↦ false | some _ ↦ true ]

-- `s.strip_suffix(p)`
unfoldable pub strip_suffix : Text → Text → Option Text
strip_suffix [] p = if text_beq [] p then some [] else none
strip_suffix (c ∷ s) p =
    if text_beq (c ∷ s) p then some [] else Option.map (◌∷◌ c) (strip_suffix s p)

-- `s.ends_with(c)` for an ASCII character
unfoldable pub ends_with_byte : Text → ℕ → Bool
ends_with_byte [] c = false
ends_with_byte (d ∷ []) c = nat_beq d c
ends_with_byte (d ∷ e ∷ s) c = ends_with_byte (e ∷ s) c
