-- ===== src/Agent/Connect/RoundTrip.antt =====
-- crates/zerolease-agent/src/proxy/connect.rs: the host and the port of a well-formed CONNECT line
-- are parsed.
use zerolease.Prelude.{
  decimal, Digits, decimal-Digits, parse_unsigned-decimal, ℕ, suc, ◌≤◌, ◌≡◌, ◌≢◌, refl, ap, ◌∙◌,
  false, none, some, List, [], ◌∷◌, ◌++◌, Text, text_beq, codes, arith, ◌==◌, nat_eq, length,
  length-append,
}
use zerolease.Agent.Connect.{
  words_from, split_whitespace, rsplit_once, parse_target, parse_connect_target,
}
use zerolease.Agent.Connect.Words.{Graphic, words_from-first}

pub rsplit_once-Digits : (s : Text) → Digits s → rsplit_once s b':' ≡ none
unfolding rsplit_once
rsplit_once-Digits [] d = refl
rsplit_once-Digits (c ∷ s) (lo, (hi, d)) =
    let digit : (c == 58) ≡ false = ground arith in rw (rsplit_once-Digits s d, digit) refl

pub rsplit_once-append :
    (host s : Text)
    → rsplit_once s b':' ≡ none
    → rsplit_once (host ++ (b':' ∷ s)) b':' ≡ some (host, s)
unfolding rsplit_once
rsplit_once-append [] s e = rw e refl
rsplit_once-append (c ∷ host) s e = rw (rsplit_once-append host s e) refl

Digits-Graphic : (s : Text) → Digits s → Graphic s
Digits-Graphic [] d = tt
Digits-Graphic (c ∷ s) (lo, (hi, d)) = (omega arith, (omega arith, Digits-Graphic s d))

Graphic-append : (s t : Text) → Graphic s → Graphic t → Graphic (s ++ t)
Graphic-append [] t g h = h
Graphic-append (c ∷ s) t (lo, (hi, g)) h = (lo, (hi, Graphic-append s t g h))

-- The line that asks for a tunnel to the port of the host.
abbrev pub connect_line : Text → ℕ → Text → Text
connect_line host port rest =
    codes "CONNECT" ++ (0x20 ∷ ((host ++ (b':' ∷ decimal port)) ++ (0x20 ∷ rest)))

pub parse_target-decimal :
    (host : Text) (port : ℕ)
    → host ≢ []
    → port ≤ 65535
    → parse_target (host ++ (b':' ∷ decimal port)) ≡ some (host, port)
unfolding parse_target decimal
parse_target-decimal [] port ne b = absurd (ne refl)
parse_target-decimal (c ∷ host) port ne b =
    let last = rsplit_once-Digits (decimal port) (decimal-Digits port) in
    let split = rsplit_once-append (c ∷ host) (decimal port) last in
    let number = parse_unsigned-decimal 65535 port b in ground arith

cons-NotEmpty : (s t : Text) (c : ℕ) → s ++ (c ∷ t) ≢ []
cons-NotEmpty [] t c e = absurd (ground arith)
cons-NotEmpty (d ∷ s) t c e = absurd (ground arith)

-- The words of the line begin with the method and the target.
split_whitespace-line :
    (target rest : Text)
    → Graphic target
    → target ≢ []
    → split_whitespace (codes "CONNECT" ++ (0x20 ∷ (target ++ (0x20 ∷ rest))))
      ≡ codes "CONNECT" ∷ (target ∷ words_from (suc (length rest)) [] rest)
unfolding split_whitespace
split_whitespace-line target rest g ne =
    let len = length-append target (0x20 ∷ rest) in
    let method : Graphic (codes "CONNECT") = ground arith in
    words_from-first (codes "CONNECT")
      (suc (length (codes "CONNECT" ++ (0x20 ∷ (target ++ (0x20 ∷ rest))))))
      (suc (length (target ++ (0x20 ∷ rest)))) (target ++ (0x20 ∷ rest)) method
      (λ e. absurd (ground arith)) (omega arith)
    ∙ ap (λ words. codes "CONNECT" ∷ words)
        (words_from-first target (suc (length (target ++ (0x20 ∷ rest)))) (suc (length rest)) rest g
          ne (omega arith))

parse_connect_target-words :
    (line target : Text) (more : List Text)
    → split_whitespace line ≡ codes "CONNECT" ∷ (target ∷ more)
    → parse_connect_target line ≡ parse_target target
unfolding parse_connect_target text_beq
parse_connect_target-words line target more e = rw (e, parse_connect_target) refl

-- A line of the method CONNECT, a host of graphic characters with a colon and the digits of a
-- port after it, and a space before the rest of the line, is parsed to the host and the port,
-- for each host that is not empty and each port of 16 bits, whatever the rest.
pub parse_connect_target-line :
    (host : Text) (port : ℕ) (rest : Text)
    → Graphic host
    → host ≢ []
    → port ≤ 65535
    → parse_connect_target (connect_line host port rest) ≡ some (host, port)
parse_connect_target-line host port rest g ne b =
    let digits = Digits-Graphic (decimal port) (decimal-Digits port) in
    let target = host ++ (b':' ∷ decimal port) in
    let graphic : Graphic target =
      Graphic-append host (b':' ∷ decimal port) g (omega arith, (omega arith, digits)) in
    let words =
      split_whitespace-line target rest graphic (cons-NotEmpty host (decimal port) b':') in
    parse_connect_target-words (connect_line host port rest) target _ words
    ∙ parse_target-decimal host port ne b
