-- ===== src/Agent/GitCredential/RoundTrip.antt =====
-- crates/zerolease-agent/src/git_credential.rs: what git writes is what is parsed.
use zerolease.Prelude.{
  ℕ, suc, ◌≤◌, ◌≡◌, ◌≢◌, refl, ap, ◌∙◌, true, false, Option, none, some, [], ◌∷◌, ◌++◌, Text, codes,
  arith, ◌==◌, nat_eq, text_eq, text_beq, from_utf8, utf8_run, continuation, length,
}
use zerolease.Agent.Connect.{strip_white}
use zerolease.Agent.Connect.Words.{Graphic, strip_white-graphic}
use zerolease.Agent.GitCredential.{
  CredentialRequest, empty_request, read_lines, all_white, trim_start, trim_end, trim, split_once,
  with_key, with_line, parse_lines, parse,
}

abbrev newline : Text
newline = codes "\n"

read_lines-line :
    (w t : Text) → Graphic w → read_lines (w ++ (newline ++ t)) ≡ (w ++ newline) ∷ read_lines t
unfolding read_lines
read_lines-line [] t g = refl
read_lines-line (c ∷ w) t (lo, (hi, g)) =
    let other : (c == b'\n') ≡ false = ground arith in rw (read_lines-line w t g, other) refl

continuation-ascii : (c : ℕ) → c ≤ 126 → continuation c ≡ some []
unfolding continuation
continuation-ascii c h = ground arith

utf8_run-line : (w : Text) → Graphic w → utf8_run [] (w ++ newline) ≡ true
unfolding utf8_run continuation
utf8_run-line [] g = refl
utf8_run-line (c ∷ w) (lo, (hi, g)) = rw (continuation-ascii c hi, utf8_run) (utf8_run-line w g)

from_utf8-line : (w : Text) → Graphic w → from_utf8 (w ++ newline) ≡ some (w ++ newline)
unfolding from_utf8
from_utf8-line w g = rw (utf8_run-line w g) refl

all_white-graphic : (n c : ℕ) (s : Text) → 33 ≤ c → c ≤ 126 → all_white (suc n) (c ∷ s) ≡ false
unfolding all_white
all_white-graphic n c s lo hi = rw (strip_white-graphic c s lo hi, all_white) refl

trim_end-line : (w : Text) → Graphic w → trim_end (w ++ newline) ≡ w
unfolding trim_end all_white strip_white
trim_end-line [] g = refl
trim_end-line (c ∷ w) (lo, (hi, g)) =
    rw (all_white-graphic (length (w ++ newline)) c (w ++ newline) lo hi, trim_end-line w g) refl

trim_start-graphic : (n c : ℕ) (s : Text) → 33 ≤ c → c ≤ 126 → trim_start (suc n) (c ∷ s) ≡ c ∷ s
unfolding trim_start
trim_start-graphic n c s lo hi = rw (strip_white-graphic c s lo hi, trim_start) refl

trim-line : (c : ℕ) (w : Text) → Graphic (c ∷ w) → trim ((c ∷ w) ++ newline) ≡ c ∷ w
unfolding trim
trim-line c w (lo, (hi, g)) =
    ap trim_end (trim_start-graphic (length (w ++ newline)) c (w ++ newline) lo hi)
    ∙ trim_end-line (c ∷ w) (lo, (hi, g))

abbrev LacksEquals : Text → Type 0
LacksEquals [] = Unit {0}
LacksEquals (c ∷ s) = (c ≢ b'=') × LacksEquals s

split_once-append :
    (key value : Text)
    → LacksEquals key
    → split_once (key ++ (b'=' ∷ value)) b'=' ≡ some (key, value)
unfolding split_once
split_once-append [] value l = refl
split_once-append (c ∷ key) value (ne, l) =
    let other : (c == b'=') ≡ false = ground arith in rw (other, split_once-append key value l) refl

Graphic-append : (s t : Text) → Graphic s → Graphic t → Graphic (s ++ t)
Graphic-append [] t g h = h
Graphic-append (c ∷ s) t (lo, (hi, g)) h = (lo, (hi, Graphic-append s t g h))

-- A line of the protocol.
abbrev pub attribute : Text → Text → Text
attribute key value = key ++ (codes "=" ++ value)

parse_lines-attribute :
    (c : ℕ) (key value t : Text) (req : CredentialRequest)
    → Graphic (c ∷ key)
    → LacksEquals (c ∷ key)
    → Graphic value
    → parse_lines (read_lines (attribute (c ∷ key) value ++ (newline ++ t))) req
      ≡ parse_lines (read_lines t) (with_key req (c ∷ key) value)
unfolding parse_lines with_line
parse_lines-attribute c key value t req g l h =
    let (lo, (hi, rest)) = g in
    let w = attribute (c ∷ key) value in
    let whole : Graphic w =
      Graphic-append (c ∷ key) (codes "=" ++ value) g (omega arith, (omega arith, h)) in
    let tail = key ++ (codes "=" ++ value) in
    rw
      (
        read_lines-line w t whole,
        parse_lines,
        from_utf8-line w whole,
        all_white-graphic (length (tail ++ newline)) c (tail ++ newline) lo hi,
        trim-line c tail whole,
        split_once-append (c ∷ key) value l,
        with_line,
      )
      refl

parse_lines-blank :
    (t : Text) (req : CredentialRequest) → parse_lines (read_lines (newline ++ t)) req ≡ some req
unfolding parse_lines read_lines all_white strip_white from_utf8 utf8_run continuation
parse_lines-blank t req = refl

-- An attribute that may be absent, with its newline.
abbrev pub optional : Text → Option Text → Text → Text
optional key none t = t
optional key (some value) t = attribute key value ++ (newline ++ t)

abbrev pub GraphicValue : Option Text → Type 0
GraphicValue none = Unit {0}
GraphicValue (some value) = Graphic value

abbrev pub with_value : CredentialRequest → Text → Option Text → CredentialRequest
with_value req key none = req
with_value req key (some value) = with_key req key value

parse_lines-optional :
    (c : ℕ) (key : Text) (value : Option Text) (t : Text) (req : CredentialRequest)
    → Graphic (c ∷ key)
    → LacksEquals (c ∷ key)
    → GraphicValue value
    → parse_lines (read_lines (optional (c ∷ key) value t)) req
      ≡ parse_lines (read_lines t) (with_value req (c ∷ key) value)
parse_lines-optional c key none t req g l h = refl
parse_lines-optional c key (some value) t req g l h = parse_lines-attribute c key value t req g l h

-- What git writes for a request: the attributes that it has, and a blank line.
abbrev pub print_request : CredentialRequest → Text → Text
print_request r t = optional (codes "protocol") r.protocol (
    optional (codes "host") r.host
      (optional (codes "path") r.path (optional (codes "username") r.username (newline ++ t))))

with_protocol :
    (p : Option Text)
    → with_value
        (record { protocol = none; host = none; path = none; username = none })
        (codes "protocol")
        p
      ≡ record { protocol = p; host = none; path = none; username = none }
unfolding with_key text_beq
with_protocol none = refl
with_protocol (some value) = refl

with_host :
    (p h : Option Text)
    → with_value
        (record { protocol = p; host = none; path = none; username = none })
        (codes "host")
        h
      ≡ record { protocol = p; host = h; path = none; username = none }
unfolding with_key text_beq
with_host p none = refl
with_host p (some value) = refl

with_path :
    (p h w : Option Text)
    → with_value (record { protocol = p; host = h; path = none; username = none }) (codes "path") w
      ≡ record { protocol = p; host = h; path = w; username = none }
unfolding with_key text_beq
with_path p h none = refl
with_path p h (some value) = refl

with_username :
    (p h w u : Option Text)
    → with_value (record { protocol = p; host = h; path = w; username = none }) (codes "username") u
      ≡ record { protocol = p; host = h; path = w; username = u }
unfolding with_key text_beq
with_username p h w none = refl
with_username p h w (some value) = refl

-- A request whose values are made of graphic ASCII characters, written as git writes it
-- with a blank line at the end and whatever bytes after that, is parsed as it was.
pub parse-print_request :
    (r : CredentialRequest) (t : Text)
    → GraphicValue r.protocol
    → GraphicValue r.host
    → GraphicValue r.path
    → GraphicValue r.username
    → parse (print_request r t) ≡ some r
unfolding parse
parse-print_request r t gp gh gw gu =
    let after_user = optional (codes "username") r.username (newline ++ t) in
    let after_path = optional (codes "path") r.path after_user in
    let after_host = optional (codes "host") r.host after_path in
    parse_lines-optional _ _ r.protocol after_host empty_request (ground arith) (ground arith) gp
    ∙ ap (parse_lines (read_lines after_host)) (with_protocol r.protocol)
    ∙ parse_lines-optional _ _ r.host after_path _ (ground arith) (ground arith) gh
    ∙ ap (parse_lines (read_lines after_path)) (with_host r.protocol r.host)
    ∙ parse_lines-optional _ _ r.path after_user _ (ground arith) (ground arith) gw
    ∙ ap (parse_lines (read_lines after_user)) (with_path r.protocol r.host r.path)
    ∙ parse_lines-optional _ _ r.username (newline ++ t) _ (ground arith) (ground arith) gu
    ∙ ap (parse_lines (read_lines (newline ++ t)))
        (with_username r.protocol r.host r.path r.username)
    ∙ parse_lines-blank t r
