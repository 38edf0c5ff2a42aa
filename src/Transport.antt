-- ===== src/Transport.antt =====
-- src/transport/mod.rs: who the peer of a connection is. The hash of a token (SHA-256 of the
-- crate `sha2`) and the printed form of a socket address (std) are parameters where they are used.
use zerolease.Prelude.{
  decimal, ℕ, ◌+◌, ◌-◌, ◌/◌, ◌%◌, List, [], ◌∷◌, ◌++◌, Text, codes, ltb, if◌then◌else◌, take,
}

abbrev pub TokenHash : Type 0
TokenHash = Text

pub data PeerIdentity (Addr : Type 0) : Type 0 where
  unix : ℕ → ℕ → PeerIdentity Addr
  vsock : ℕ → PeerIdentity Addr
  tcp : Addr → TokenHash → PeerIdentity Addr
  anonymous : PeerIdentity Addr

unfoldable pub set_token_hash : {Addr : Type 0} → PeerIdentity Addr → TokenHash → PeerIdentity Addr
set_token_hash (tcp addr _) hash = tcp addr hash
set_token_hash peer hash = peer

-- `{b:02x}` of a byte
abbrev pub hex_digit : ℕ → ℕ
hex_digit d = if ltb d 10 then b'0' + d else b'a' + (d - 10)

unfoldable pub hex : List ℕ → Text
hex [] = []
hex (b ∷ bs) = hex_digit (b / 16) ∷ hex_digit (b % 16) ∷ hex bs

module _ {Addr : Type 0} (show_addr : Addr → Text) where
  unfoldable pub display : PeerIdentity Addr → Text
  unfolding hex decimal
  display (unix uid pid) =
      codes "unix(uid=" ++ decimal uid ++ codes ", pid=" ++ decimal pid ++ codes ")"
  display (vsock cid) = codes "vsock(cid=" ++ decimal cid ++ codes ")"
  display (tcp addr token_hash) =
      codes "tcp(addr="
      ++ show_addr addr
      ++ codes ", token="
      ++ hex (take 8 token_hash)
      ++ codes ")"
  display anonymous = codes "anonymous"
