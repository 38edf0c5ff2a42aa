-- ===== src/Agent/Sni/RoundTrip.antt =====
-- crates/zerolease-agent/src/proxy/sni.rs: the name that a well-formed ClientHello carries
-- is found.
use zerolease.Prelude.{
  ℕ, zero, suc, ◌+◌, ◌-◌, ◌*◌, ◌/◌, ◌%◌, ◌≤◌, ◌<◌, ◌≡◌, ◌≢◌, refl, sym, ap, ◌∙◌, true, false, none,
  some, List, [], ◌∷◌, ◌++◌, Text, arith, leb, ltb, ◌==◌, nat_eq, length, drop, from_utf8,
  take-append, drop-append, length-append, append_assoc, append-nil,
}
use zerolease.Types.Secrets.{Bytes}
use zerolease.Agent.Sni.{
  found, absent, u16, first_bytes, host_of, read_names, parse_server_name, walk_extensions,
  read_extensions, after_ciphers, after_session_id, after_random, read_hello, read_handshake,
  extract_sni,
}

first_bytes-append : (n : ℕ) (s t : Bytes) → n ≡ length s → first_bytes n (s ++ t) ≡ some s
unfolding first_bytes
first_bytes-append n s t e =
    let h : leb (length s) (length (s ++ t)) ≡ true = ground (arith, length-append s t) in
    rw (e, h, take-append s t) refl

drop-exactly : (n : ℕ) (s t : Bytes) → n ≡ length s → drop n (s ++ t) ≡ t
drop-exactly n s t e = rw e (drop-append s t)

-- The bytes of a number, highest first.
abbrev pub be16 : ℕ → Bytes
be16 n = n / 256 ∷ n % 256 ∷ []

u16-be16 : (n : ℕ) → u16 (n / 256) (n % 256) ≡ n
u16-be16 n = omega arith

-- The parts of a ClientHello, as RFC 8446 and RFC 6066 lay them out.
abbrev pub server_name : Text → Bytes
server_name host = be16 (length host + 3) ++ (0 ∷ be16 (length host) ++ host)

abbrev pub extension : ℕ → Bytes → Bytes
extension kind body = be16 kind ++ (be16 (length body) ++ body)

abbrev pub extensions : List (ℕ × Bytes) → Bytes
extensions [] = []
extensions ((kind, body) ∷ more) = extension kind body ++ extensions more

abbrev pub NoName : List (ℕ × Bytes) → Type 0
NoName [] = Unit {0}
NoName ((kind, body) ∷ more) = (kind ≢ 0) × NoName more

walk_extensions-name :
    (fuel left a b c d : ℕ) (names t : Bytes)
    → 4 ≤ left
    → u16 a b ≡ 0
    → u16 c d ≡ length names
    → walk_extensions (suc fuel) left (a ∷ b ∷ c ∷ d ∷ (names ++ t)) ≡ parse_server_name names
unfolding walk_extensions
walk_extensions-name fuel left a b c d names t h z e =
    let whole = first_bytes-append (u16 c d) names t e in ground arith

walk_extensions-other :
    (fuel left a b c d : ℕ) (body t : Bytes)
    → 4 ≤ left
    → u16 a b ≢ 0
    → u16 c d ≡ length body
    → walk_extensions (suc fuel) left (a ∷ b ∷ c ∷ d ∷ (body ++ t))
      ≡ walk_extensions fuel (left - 4 - length body) t
unfolding walk_extensions
walk_extensions-other fuel left a b c d body t h ne e =
    let gone = drop-exactly (u16 c d) body t e in
    let other : (u16 a b == 0) ≡ false = ground arith in
    let more : leb 4 left ≡ true = ground arith in
    rw (more, other, e) (ap (walk_extensions fuel (left - 4 - length body)) (drop-append body t))

length-extensions : (others : List (ℕ × Bytes)) → length others ≤ length (extensions others)
length-extensions [] = omega arith
length-extensions ((kind, body) ∷ more) =
    let ih = length-extensions more in let len = length-append body (extensions more) in omega arith

abbrev pub be24 : ℕ → Bytes
be24 n = n / 65536 ∷ n / 256 % 256 ∷ n % 256 ∷ []

-- A ClientHello in its record: the version and the random, the session id, the ciphers, the
-- compression methods, the extensions before the name, the name, the bytes of the
-- extensions after it, and what follows the record.
pub record HelloParts : Type 0 where
  pub fixed : Bytes
  pub session_id : Bytes
  pub ciphers : Bytes
  pub compression : Bytes
  pub before : List (ℕ × Bytes)
  pub host : Text
  pub after : Bytes
  pub rest : Bytes

abbrev pub extension_bytes : HelloParts → Bytes
extension_bytes h = extensions h.before ++ (extension 0 (server_name h.host) ++ h.after)

abbrev pub compression_on : HelloParts → Bytes
compression_on h =
    length h.compression
    ∷ (h.compression ++ (be16 (length (extension_bytes h)) ++ extension_bytes h))

abbrev pub ciphers_on : HelloParts → Bytes
ciphers_on h = be16 (length h.ciphers) ++ (h.ciphers ++ compression_on h)

abbrev pub hello_bytes : HelloParts → Bytes
hello_bytes h = h.fixed ++ (length h.session_id ∷ (h.session_id ++ ciphers_on h))

abbrev pub handshake_bytes : HelloParts → Bytes
handshake_bytes h = 1 ∷ (be24 (length (hello_bytes h)) ++ hello_bytes h)

abbrev pub record_bytes : HelloParts → Bytes
record_bytes h = 22 ∷ 3 ∷ 1 ∷ (be16 (length (handshake_bytes h)) ++ (handshake_bytes h ++ h.rest))

module _ (host : Text) (valid : from_utf8 host ≡ some host) where
  parse_server_name-server_name : parse_server_name (server_name host) ≡ found host
  unfolding parse_server_name read_names
  parse_server_name-server_name =
      let e : first_bytes (u16 (length host / 256) (length host % 256)) host ≡ some host =
        ap (first_bytes (u16 (length host / 256) (length host % 256))) (sym (append-nil host))
        ∙ first_bytes-append (u16 (length host / 256) (length host % 256)) host []
            (u16-be16 (length host)) in
      ap host_of e ∙ ap (λ o. elim o [ none ↦ absent | some name ↦ found name ]) valid

  -- The extensions before the name are passed over.
  walk_extensions-found :
      (others : List (ℕ × Bytes)) (fuel left : ℕ) (t : Bytes)
      → NoName others
      → length others < fuel
      → length (extensions others) + 4 ≤ left
      → walk_extensions fuel left (extensions others ++ (extension 0 (server_name host) ++ t))
        ≡ found host
  walk_extensions-found others zero left t none_before enough fits = absurd (omega arith)
  walk_extensions-found [] (suc fuel) left t none_before enough fits =
      walk_extensions-name fuel left 0 0 _ _ (server_name host) t (omega arith) refl
        (u16-be16 (length (server_name host)))
      ∙ parse_server_name-server_name
  walk_extensions-found ((kind, body) ∷ more) (suc fuel) left t (ne, rest) enough fits =
      let tail = extension 0 (server_name host) ++ t in
      ap
        (λ s.
          walk_extensions (suc fuel) left
            (kind / 256 ∷ kind % 256 ∷ length body / 256 ∷ length body % 256 ∷ s))
        (append_assoc body (extensions more) tail)
      ∙ walk_extensions-other fuel left _ _ _ _ body (extensions more ++ tail) (omega arith)
          (λ z. ne (sym (u16-be16 kind) ∙ z)) (u16-be16 (length body))
      ∙ walk_extensions-found more fuel (left - 4 - length body) t rest (omega arith)
          (let len = length-append body (extensions more) in omega arith)

module _ (h : HelloParts) (valid : from_utf8 h.host ≡ some h.host) (first : NoName h.before)
    (size : length h.fixed ≡ 34) where
  read_extensions-found :
      read_extensions (be16 (length (extension_bytes h)) ++ extension_bytes h) ≡ found h.host
  unfolding read_extensions
  read_extensions-found =
      let n = length (extension_bytes h) in
      let tail = extension 0 (server_name h.host) ++ h.after in
      let len = length-append (extensions h.before) tail in
      let le = length-extensions h.before in
      ap (λ left. walk_extensions (suc n) left (extension_bytes h)) (u16-be16 n)
      ∙ walk_extensions-found h.host valid h.before (suc n) n h.after first (omega arith)
          (omega arith)

  after_ciphers-found : after_ciphers (compression_on h) ≡ found h.host
  unfolding after_ciphers
  after_ciphers-found =
      ap read_extensions
        (drop-append h.compression (be16 (length (extension_bytes h)) ++ extension_bytes h))
      ∙ read_extensions-found

  after_session_id-found : after_session_id (ciphers_on h) ≡ found h.host
  unfolding after_session_id
  after_session_id-found =
      ap after_ciphers (drop-exactly _ h.ciphers (compression_on h) (u16-be16 (length h.ciphers)))
      ∙ after_ciphers-found

  read_hello-found : read_hello (hello_bytes h) ≡ found h.host
  unfolding read_hello after_random
  read_hello-found =
      let more = length h.session_id ∷ (h.session_id ++ ciphers_on h) in
      let long : ltb (length (hello_bytes h)) 34 ≡ false =
        ground (arith, length-append h.fixed more) in
      let skipped : drop 34 (hello_bytes h) ≡ more = drop-exactly 34 h.fixed more (sym size) in
      rw (long, skipped)
        (ap after_session_id (drop-append h.session_id (ciphers_on h)) ∙ after_session_id-found)

  read_handshake-found : read_handshake (handshake_bytes h) ≡ found h.host
  unfolding read_handshake
  read_handshake-found =
      let n = length (hello_bytes h) in
      let e : n / 65536 * 65536 + n / 256 % 256 * 256 + n % 256 ≡ n = omega arith in
      let whole =
        ap (first_bytes (n / 65536 * 65536 + n / 256 % 256 * 256 + n % 256))
          (sym (append-nil (hello_bytes h)))
        ∙ first_bytes-append _ (hello_bytes h) [] e in
      rw whole read_hello-found

  -- From every well-formed ClientHello that carries a host name, whatever its session id,
  -- ciphers, compression methods and other extensions are, and whatever follows its record,
  -- the parser extracts that name.
  pub extract_sni-found : extract_sni (record_bytes h) ≡ found h.host
  unfolding extract_sni
  extract_sni-found =
      let n = length (handshake_bytes h) in
      let whole =
        first_bytes-append (u16 (n / 256) (n % 256)) (handshake_bytes h) h.rest (u16-be16 n) in
      rw whole read_handshake-found
