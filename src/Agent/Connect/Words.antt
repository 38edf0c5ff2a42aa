-- ===== src/Agent/Connect/Words.antt =====
-- crates/zerolease-agent/src/proxy/connect.rs: the words that a line is split into.
use mathlib.Core.List.{reverse, reverse_aux, reverse-reverse}
use zerolease.Prelude.{
  ℕ, zero, suc, ◌+◌, ◌≤◌, ◌≡◌, ◌≢◌, refl, sym, ap, ◌∙◌, false, none, List, [], ◌∷◌, ◌++◌, Text,
  arith, leb, ◌==◌, nat_eq, length,
}
use zerolease.Agent.Connect.{strip_wide, strip_white, push_word, words_from}

-- The characters of ASCII that have a glyph
abbrev pub Graphic : Text → Type 0
Graphic [] = Unit {0}
Graphic (c ∷ s) = (33 ≤ c) × ((c ≤ 126) × Graphic s)

strip_wide-graphic : (c : ℕ) (s : Text) → c ≤ 126 → strip_wide c s ≡ none
unfolding strip_wide
strip_wide-graphic c [] k = refl
strip_wide-graphic c (d ∷ []) k = ground arith
strip_wide-graphic c (d ∷ e ∷ s) k =
    let p : (c == 0xc2) ≡ false = ground arith in
    let q : (c == 0xe1) ≡ false = ground arith in
    let r : (c == 0xe2) ≡ false = ground arith in
    let t : (c == 0xe3) ≡ false = ground arith in rw (p, q, r, t) refl

pub strip_white-graphic : (c : ℕ) (s : Text) → 33 ≤ c → c ≤ 126 → strip_white (c ∷ s) ≡ none
unfolding strip_white
strip_white-graphic c s h k =
    let p : (c == 0x20) ≡ false = ground arith in
    let q : leb c 13 ≡ false = ground arith in let wide = strip_wide-graphic c s k in ground arith

-- The bytes of a word are held.
words_from-word :
    (w : Text) (m n : ℕ) (held s : Text)
    → Graphic w
    → m ≡ length w + n
    → words_from m held (w ++ s) ≡ words_from n (reverse_aux w held) s
unfolding words_from
words_from-word [] m n held s g e =
    let same : m ≡ n = omega arith in ap (λ k. words_from k held s) same
words_from-word (c ∷ w) zero n held s g e = absurd (omega arith)
words_from-word (c ∷ w) (suc m) n held s (h, (k, g)) e =
    rw (strip_white-graphic c (w ++ s) h k, words_from)
      (words_from-word w m n (c ∷ held) s g (omega arith))

push_word-reverse :
    (w v : Text) (words : List Text) → w ≢ [] → v ≡ reverse w → push_word v words ≡ w ∷ words
push_word-reverse w [] words ne e = absurd (ne (sym (ap reverse e ∙ reverse-reverse w)))
push_word-reverse w (c ∷ v) words ne e = ap (λ u. u ∷ words) (ap reverse e ∙ reverse-reverse w)

-- A word before a space is the first word.
pub words_from-first :
    (w : Text) (m n : ℕ) (s : Text)
    → Graphic w
    → w ≢ []
    → m ≡ length w + suc n
    → words_from m [] (w ++ (0x20 ∷ s)) ≡ w ∷ words_from n [] s
unfolding words_from
words_from-first w m n s g ne e =
    words_from-word w m (suc n) [] (0x20 ∷ s) g e
    ∙ push_word-reverse w (reverse w) (words_from n [] s) ne refl
