-- ===== src/Agent/Shell.antt =====
-- crates/zerolease-agent/src/provision.rs: the lines of the env file, and how a shell reads them.
use zerolease.Prelude.{
  ℕ, ◌≡◌, refl, sym, ap, ◌∙◌, inl, inr, Bool, ◌||◌, Option, none, some, [], ◌∷◌, ◌++◌, Text, codes,
  arith, ◌==◌, nat_eq, if◌then◌else◌, append_assoc, append-nil, Bool-cases,
}

abbrev pub apostrophe : ℕ
apostrophe = b'\''

-- `replace('\'', "'\\''")`
unfoldable pub escape_quotes : Text → Text
escape_quotes [] = []
escape_quotes (c ∷ s) =
    if c == apostrophe
    then apostrophe ∷ b'\\' ∷ apostrophe ∷ apostrophe ∷ escape_quotes s
    else c ∷ escape_quotes s

-- `'…'` around an escaped value
abbrev pub quoted : Text → Text
quoted s = apostrophe ∷ (escape_quotes s ++ (apostrophe ∷ []))

-- `export {var}='{value}'`, with the end of the line
abbrev pub export_line : Text → Text → Text
export_line var value = codes "export " ++ (var ++ (codes "=" ++ (quoted value ++ codes "\n")))

abbrev push : ℕ → Option (Text × Text) → Option (Text × Text)
push c none = none
push c (some (word, rest)) = some (c ∷ word, rest)

-- How a POSIX shell reads a word in which only apostrophes and backslashes quote (XCU 2.2): inside
-- apostrophes every byte stands for itself, outside a backslash makes the next byte stand for
-- itself, and the word ends at a line's end, a space or a semicolon. The word, and the text from
-- its end on; `none` when an apostrophe is not closed, or the text ends after a backslash.
pub data Mode : Type 0 where
  plain quoting escaping : Mode

abbrev ends_word : ℕ → Bool
ends_word c = c == b'\n' || c == b' ' || c == b';'

unfoldable pub shell_word : Mode → Text → Option (Text × Text)
shell_word plain [] = some ([], [])
shell_word quoting [] = none
shell_word escaping [] = none
shell_word plain (c ∷ s) =
    let quote = shell_word quoting s in
    let escape = shell_word escaping s in
    let more = push c (shell_word plain s) in
    if c == apostrophe
    then quote
    else if c == b'\\'
    then escape
    else if ends_word c
    then some ([], c ∷ s)
    else more
shell_word quoting (c ∷ s) =
    let close = shell_word plain s in
    let more = push c (shell_word quoting s) in if c == apostrophe then close else more
shell_word escaping (c ∷ s) = push c (shell_word plain s)

abbrev put_before : Text → Option (Text × Text) → Option (Text × Text)
put_before w none = none
put_before w (some (word, rest)) = some (w ++ word, rest)

put_before-nil : (o : Option (Text × Text)) → o ≡ put_before [] o
put_before-nil none = refl
put_before-nil (some (word, rest)) = refl

push-put_before :
    (c : ℕ) (s : Text) (o : Option (Text × Text)) → push c (put_before s o) ≡ put_before (c ∷ s) o
push-put_before c s none = refl
push-put_before c s (some (word, rest)) = refl

shell_word-escape_quotes :
    (s t : Text) → shell_word quoting (escape_quotes s ++ t) ≡ put_before s (shell_word quoting t)
unfolding shell_word escape_quotes
shell_word-escape_quotes [] t = put_before-nil (shell_word quoting t)
shell_word-escape_quotes (c ∷ s) t =
    let ih =
      ap (push c) (shell_word-escape_quotes s t) ∙ push-put_before c s (shell_word quoting t) in
    elim (Bool-cases (c == apostrophe)) [
      | inl same ↦
          let e : c ≡ apostrophe = ground arith in
          rw same (ap (λ x. push x (shell_word quoting (escape_quotes s ++ t))) (sym e) ∙ ih)
      | inr other ↦ rw (other, shell_word, other) ih
    ]

-- Whatever bytes a value has, the shell reads the line's word, after the name and the
-- equals sign, as that value, and ends the word at the end of the line.
pub shell_word-quoted :
    (s rest : Text)
    → shell_word plain (quoted s ++ (codes "\n" ++ rest)) ≡ some (s, codes "\n" ++ rest)
unfolding shell_word
shell_word-quoted s rest =
    ap (shell_word quoting) (append_assoc (escape_quotes s) (apostrophe ∷ []) (codes "\n" ++ rest))
    ∙ shell_word-escape_quotes s (apostrophe ∷ (codes "\n" ++ rest))
    ∙ ap (λ w. some (w, codes "\n" ++ rest)) (append-nil s)
