-- ===== src/Agent/Template.antt =====
-- crates/zerolease-agent/src/config_writer.rs: paths and the contents of configuration files.
use zerolease.Prelude.{
  ℕ, zero, suc, ◌≡◌, ◌≢◌, refl, ap, ◌∙◌, false, Option, none, some, List, [], ◌∷◌, ◌++◌, Text,
  codes, arith, nat_eq, nat_beq, if◌then◌else◌, strip_prefix, starts_with, ends_with_byte,
}

-- `PathBuf::join`
unfoldable pub join_path : Text → Text → Text
unfolding starts_with ends_with_byte
join_path [] rest = rest
join_path (c ∷ home) rest =
    if starts_with rest (codes "/")
    then rest
    else if ends_with_byte (c ∷ home) b'/'
    then (c ∷ home) ++ rest
    else (c ∷ home) ++ (b'/' ∷ rest)

-- With the value of HOME.
unfoldable pub expand_tilde : Option Text → Text → Text
unfolding join_path
expand_tilde var path = elim (strip_prefix path (codes "~/")) [
  | none ↦ path
  | some rest ↦ elim var [ none ↦ path | some home ↦ join_path home rest ]
]

abbrev pub placeholder : Text
placeholder = codes "${SECRET}"

-- `template.replace("${SECRET}", secret)`: the first number counts the bytes of a placeholder that
-- are still to be passed over.
unfoldable pub replace_from : Text → ℕ → Text → Text
unfolding starts_with
replace_from secret skip [] = []
replace_from secret (suc skip) (c ∷ s) = replace_from secret skip s
replace_from secret zero (c ∷ s) =
    let expanded = secret ++ replace_from secret 8 s in
    let copied = c ∷ replace_from secret zero s in
    if starts_with (c ∷ s) placeholder then expanded else copied

unfoldable pub expand_template : Text → Text → Text
unfolding replace_from
expand_template template secret = replace_from secret 0 template

abbrev pub LacksDollar : Text → Type 0
LacksDollar [] = Unit {0}
LacksDollar (c ∷ s) = (c ≢ b'$') × LacksDollar s

abbrev pub AllLackDollar : List Text → Type 0
AllLackDollar [] = Unit {0}
AllLackDollar (p ∷ ps) = LacksDollar p × AllLackDollar ps

-- Pieces, with a text before each.
abbrev pub each_after : Text → List Text → Text
each_after sep [] = []
each_after sep (p ∷ ps) = sep ++ (p ++ each_after sep ps)

starts_with-other : (c : ℕ) (s : Text) → c ≢ b'$' → starts_with (c ∷ s) placeholder ≡ false
unfolding starts_with strip_prefix
starts_with-other c s ne = let other : nat_beq c b'$' ≡ false = ground arith in ground arith

replace_from-piece :
    (secret p t : Text)
    → LacksDollar p
    → replace_from secret 0 (p ++ t) ≡ p ++ replace_from secret 0 t
unfolding replace_from
replace_from-piece secret [] t l = refl
replace_from-piece secret (c ∷ p) t (ne, l) =
    rw (starts_with-other c (p ++ t) ne, replace_from)
      (ap (◌∷◌ c) (replace_from-piece secret p t l))

replace_from-placeholder :
    (secret t : Text) → replace_from secret 0 (placeholder ++ t) ≡ secret ++ replace_from secret 0 t
unfolding replace_from starts_with strip_prefix
replace_from-placeholder secret t = refl

replace_from-each_after :
    (secret : Text) (ps : List Text)
    → AllLackDollar ps
    → replace_from secret 0 (each_after placeholder ps) ≡ each_after secret ps
unfolding replace_from
replace_from-each_after secret [] l = refl
replace_from-each_after secret (p ∷ ps) (lack, l) =
    replace_from-placeholder secret (p ++ each_after placeholder ps)
    ∙ ap (λ x. secret ++ x)
        (replace_from-piece secret p (each_after placeholder ps) lack
          ∙ ap (λ x. p ++ x) (replace_from-each_after secret ps l))

-- A template is text without a dollar sign, with placeholders between. The secret is put in the
-- place of each, whatever bytes it has, and all else is left as it is.
pub expand_template-pieces :
    (secret first : Text) (ps : List Text)
    → LacksDollar first
    → AllLackDollar ps
    → expand_template (first ++ each_after placeholder ps) secret ≡ first ++ each_after secret ps
unfolding expand_template
expand_template-pieces secret first ps lack l =
    replace_from-piece secret first (each_after placeholder ps) lack
    ∙ ap (λ x. first ++ x) (replace_from-each_after secret ps l)
