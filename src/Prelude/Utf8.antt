-- ===== src/Prelude/Utf8.antt =====
-- std's `String::from_utf8`: the well-formed byte sequences of the Unicode standard.
use Prim.Native.Nat.{ℕ}
use mathlib.Core.Bool.{Bool, true, false, ◌&&◌}
use mathlib.Core.List.{List, [], ◌∷◌}
use mathlib.Core.Option.{Option, none, some}
use zerolease.Prelude.Tests.{leb, ltb, nat_beq, if◌then◌else◌}
use zerolease.Prelude.Strings.{Text}

abbrev tail : ℕ × ℕ
tail = (0x80, 0xbf)

-- The ranges in which the bytes after a first byte must lie, or `none` for a byte that starts no
-- character.
unfoldable pub continuation : ℕ → Option (List (ℕ × ℕ))
continuation c =
    if ltb c 0x80
    then some []
    else if ltb c 0xc2
    then none
    else if ltb c 0xe0
    then some (tail ∷ [])
    else if nat_beq c 0xe0
    then some ((0xa0, 0xbf) ∷ tail ∷ [])
    else if nat_beq c 0xed
    then some ((0x80, 0x9f) ∷ tail ∷ [])
    else if ltb c 0xf0
    then some (tail ∷ tail ∷ [])
    else if nat_beq c 0xf0
    then some ((0x90, 0xbf) ∷ tail ∷ tail ∷ [])
    else if ltb c 0xf4
    then some (tail ∷ tail ∷ tail ∷ [])
    else if nat_beq c 0xf4
    then some ((0x80, 0x8f) ∷ tail ∷ tail ∷ [])
    else none

unfoldable pub utf8_run : List (ℕ × ℕ) → Text → Bool
utf8_run [] [] = true
utf8_run (r ∷ pending) [] = false
utf8_run ((lo, hi) ∷ pending) (c ∷ s) = leb lo c && leb c hi && utf8_run pending s
utf8_run [] (c ∷ s) = elim (continuation c) [ none ↦ false | some pending ↦ utf8_run pending s ]

unfoldable pub from_utf8 : Text → Option Text
unfolding utf8_run continuation
from_utf8 s = if utf8_run [] s then some s else none
