-- ===== src/Protocol/Frame/RoundTrip.antt =====
-- src/protocol/frame.rs: frames are read as they were written.
use zerolease.Prelude.{
  ℕ, zero, suc, ◌+◌, ◌*◌, ◌/◌, ◌%◌, ◌≤◌, ◌<◌, ◌≡◌, refl, sym, ap, ◌∙◌, inl, inr, Bool-cases,
  Option-cases, some, [], ◌∷◌, ◌++◌, arith, ltb, if◌then◌else◌, length, length-append, append_assoc,
}
use zerolease.Types.Secrets.{Bytes}
use zerolease.Error.{transport, frame_too_large, ok, err}
use zerolease.Protocol.Frame.{
  max_frame_size, read_exact, from_be_bytes, to_be_bytes, read_frame, write_frame,
}

read_exact-append :
    (payload rest : Bytes) → read_exact (length payload) (payload ++ rest) ≡ some (payload, rest)
unfolding read_exact
read_exact-append [] rest = refl
read_exact-append (b ∷ payload) rest = rw (read_exact-append payload rest) refl

from_be_bytes-to_be_bytes : (n : ℕ) → n ≤ max_frame_size → from_be_bytes (to_be_bytes n) ≡ n
unfolding from_be_bytes to_be_bytes
from_be_bytes-to_be_bytes n h = omega arith

read_frame-to_be_bytes :
    (n : ℕ) (s payload rest : Bytes)
    → n ≤ max_frame_size
    → read_exact n s ≡ some (payload, rest)
    → read_frame (to_be_bytes n ++ s) ≡ ok (payload, rest)
unfolding read_frame read_exact to_be_bytes
read_frame-to_be_bytes n s payload rest h e =
    let p = from_be_bytes-to_be_bytes n h in ground (arith, p)

-- Each payload of at most 1 MiB is written, and read back whole from the stream with nothing taken
-- of what follows it; a larger payload is refused.
pub read_frame-write_frame :
    (payload rest : Bytes)
    → if ltb max_frame_size (length payload)
      then write_frame payload ≡ err (transport (frame_too_large (length payload)))
      else ((wire : Bytes) × (write_frame payload ≡ ok wire)
          × (read_frame (wire ++ rest) ≡ ok (payload, rest)))
unfolding write_frame
read_frame-write_frame payload rest = elim (Bool-cases (ltb max_frame_size (length payload))) [
  | inl large ↦ rw (large, write_frame) refl
  | inr small ↦
      rw (small, write_frame)
        (
          to_be_bytes (length payload) ++ payload,
          refl,
          ap read_frame (append_assoc (to_be_bytes (length payload)) payload rest)
              ∙ read_frame-to_be_bytes (length payload) (payload ++ rest) payload rest
                  (ground arith) (read_exact-append payload rest),
        )
]

-- What `read_exact` took stands before what it left.
read_exact-split :
    (n : ℕ) (s taken rest : Bytes)
    → read_exact n s ≡ some (taken, rest)
    → (length taken ≡ n) × (s ≡ taken ++ rest)
unfolding read_exact
read_exact-split zero s taken rest e =
    let p : [] ≡ taken = ground arith in
    let q : s ≡ rest = ground arith in rw (← p, ← q) (refl, refl)
read_exact-split (suc n) [] taken rest e = absurd (ground arith)
read_exact-split (suc n) (b ∷ s) taken rest e = elim (Option-cases (read_exact n s)) [
  | inl short ↦ absurd (ground arith)
  | inr ((t, r), found) ↦
      let (len, split) = read_exact-split n s t r found in
      let p : b ∷ t ≡ taken = ground arith in
      let q : r ≡ rest = ground arith in rw (← p, ← q) (ap suc len, ap (◌∷◌ b) split)
]

-- Each member of a stream is a byte.
abbrev pub AreBytes : Bytes → Type 0
AreBytes [] = Unit {0}
AreBytes (b ∷ s) = (b < 256) × AreBytes s

to_be_bytes-from_be_bytes :
    (a b c d : ℕ)
    → a < 256
    → b < 256
    → c < 256
    → d < 256
    → to_be_bytes (a * 16777216 + b * 65536 + c * 256 + d) ≡ a ∷ b ∷ c ∷ d ∷ []
unfolding to_be_bytes
to_be_bytes-from_be_bytes a b c d ha hb hc hd =
    let n = a * 16777216 + b * 65536 + c * 256 + d in
    let pa : n / 16777216 % 256 ≡ a = omega arith in
    let pb : n / 65536 % 256 ≡ b = omega arith in
    let pc : n / 256 % 256 ≡ c = omega arith in
    let pd : n % 256 ≡ d = omega arith in λ i. pa i ∷ pb i ∷ pc i ∷ pd i ∷ []

read_frame-payload :
    (a b c d : ℕ) (s payload rest : Bytes)
    → read_frame (a ∷ b ∷ c ∷ d ∷ s) ≡ ok (payload, rest)
    → let n = a * 16777216 + b * 65536 + c * 256 + d in
      (n ≤ max_frame_size) × (read_exact n s ≡ some (payload, rest))
unfolding read_frame read_exact from_be_bytes
read_frame-payload a b c d s payload rest e = (ground arith, ground arith)

-- Whatever bytes stand on the stream, a frame that is read is a frame that `write_frame`
-- would have written: the stream began with it, and the rest of the stream is left. So no
-- payload above 1 MiB is ever read.
pub read_frame-ok :
    (s payload rest : Bytes)
    → AreBytes s
    → read_frame s ≡ ok (payload, rest)
    → (wire : Bytes) × (write_frame payload ≡ ok wire) × (s ≡ wire ++ rest)
unfolding read_frame read_exact write_frame
read_frame-ok (a ∷ b ∷ c ∷ d ∷ s) payload rest (ha, (hb, (hc, (hd, hs)))) e =
    let (small, found) = read_frame-payload a b c d s payload rest e in
    let (len, split) = read_exact-split _ s payload rest found in
    let be = to_be_bytes-from_be_bytes a b c d ha hb hc hd in
    (
      to_be_bytes (length payload) ++ payload,
      ground arith,
      ap (λ t. a ∷ b ∷ c ∷ d ∷ t) split
          ∙ ap (λ h. h ++ (payload ++ rest)) (sym be ∙ ap to_be_bytes (sym len))
          ∙ sym (append_assoc (to_be_bytes (length payload)) payload rest),
    )
read_frame-ok [] payload rest h e = absurd (ground arith)
read_frame-ok (a ∷ []) payload rest h e = absurd (ground arith)
read_frame-ok (a ∷ b ∷ []) payload rest h e = absurd (ground arith)
read_frame-ok (a ∷ b ∷ c ∷ []) payload rest h e = absurd (ground arith)

length-read_exact :
    (n : ℕ) (s taken rest : Bytes)
    → read_exact n s ≡ some (taken, rest)
    → length rest + n ≡ length s
length-read_exact n s taken rest e =
    let (len, split) = read_exact-split n s taken rest e in
    let p : length s ≡ length taken + length rest = ap length split ∙ length-append taken rest in
    omega arith

-- A frame takes at least its header from the stream.
pub length-read_frame :
    (s payload rest : Bytes) → read_frame s ≡ ok (payload, rest) → length rest < length s
unfolding read_frame read_exact
length-read_frame (a ∷ b ∷ c ∷ d ∷ s) payload rest e =
    let (_, found) = read_frame-payload a b c d s payload rest e in
    let h = length-read_exact _ s payload rest found in
    let le : length rest ≤ length s = omega arith in omega arith
length-read_frame [] payload rest e = absurd (ground arith)
length-read_frame (a ∷ []) payload rest e = absurd (ground arith)
length-read_frame (a ∷ b ∷ []) payload rest e = absurd (ground arith)
length-read_frame (a ∷ b ∷ c ∷ []) payload rest e = absurd (ground arith)
