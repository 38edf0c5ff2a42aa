-- ===== src/Protocol/Frame.antt =====
-- src/protocol/frame.rs: frames of a 4-byte big-endian length and as many bytes. A stream
-- is the bytes that it still delivers before it ends; writing appends. Failures of the
-- stream other than its end are not modelled.
pub mod RoundTrip
use zerolease.Prelude.{
  ℕ, zero, suc, ◌+◌, ◌*◌, ◌/◌, ◌%◌, Option, none, some, List, [], ◌∷◌, ◌++◌, ltb, if◌then◌else◌,
  length,
}
use zerolease.Types.Secrets.{Bytes}
use zerolease.Error.{
  Error, transport, frame_too_large, eof_frame_length, eof_frame_payload, Result, ok, err, ◌>>=◌,
}

abbrev pub max_frame_size : ℕ
max_frame_size = 1048576

-- `read_exact`: so many bytes and what is left, unless the stream ends before.
unfoldable pub read_exact : ℕ → Bytes → Option (Bytes × Bytes)
read_exact zero s = some ([], s)
read_exact (suc n) [] = none
read_exact (suc n) (b ∷ s) = elim (read_exact n s) [
  | none ↦ none
  | some (taken, rest) ↦ some (b ∷ taken, rest)
]

-- `u32::from_be_bytes`
unfoldable pub from_be_bytes : Bytes → ℕ
from_be_bytes (a ∷ b ∷ c ∷ d ∷ []) = a * 16777216 + b * 65536 + c * 256 + d
from_be_bytes _ = 0

-- `(len as u32).to_be_bytes()`
unfoldable pub to_be_bytes : ℕ → Bytes
to_be_bytes n = n / 16777216 % 256 ∷ n / 65536 % 256 ∷ n / 256 % 256 ∷ n % 256 ∷ []

-- The payload and the rest of the stream.
unfoldable pub read_frame : Bytes → Result (Bytes × Bytes)
unfolding read_exact from_be_bytes
read_frame s = elim (read_exact 4 s) [
  | none ↦ err (transport eof_frame_length)
  | some (len_buf, rest) ↦
      let len = from_be_bytes len_buf in
      if ltb max_frame_size len
      then err (transport (frame_too_large len))
      else elim (read_exact len rest) [
        | none ↦ err (transport eof_frame_payload)
        | some (payload, after) ↦ ok (payload, after)
      ]
]

-- What is put on the stream.
unfoldable pub write_frame : Bytes → Result Bytes
unfolding to_be_bytes
write_frame payload =
    if ltb max_frame_size (length payload)
    then err (transport (frame_too_large (length payload)))
    else ok (to_be_bytes (length payload) ++ payload)
