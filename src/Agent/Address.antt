-- ===== src/Agent/Address.antt =====
-- crates/zerolease-agent/src/proxy/connect.rs: the addresses that the proxy refuses.
use zerolease.Prelude.{
  ℕ, ◌+◌, ◌*◌, ◌/◌, ◌≤◌, ◌<◌, ◌≡◌, refl, ◌↔◌, ◌⊎◌, inl, inr, Bool, true, false, ◌&&◌, ◌||◌, List,
  [], ◌∷◌, arith, leb, ◌==◌, text_eq, nat_eq,
}

-- The octets of the one, the 16 octets of the other.
pub data IpAddr : Type 0 where
  v4 : ℕ → ℕ → ℕ → ℕ → IpAddr
  v6 : List ℕ → IpAddr

abbrev pub zeros_then : ℕ → List ℕ
zeros_then n = 0 ∷ 0 ∷ 0 ∷ 0 ∷ 0 ∷ 0 ∷ 0 ∷ 0 ∷ 0 ∷ 0 ∷ 0 ∷ 0 ∷ 0 ∷ 0 ∷ 0 ∷ n ∷ []

-- The tests of std's `Ipv4Addr` in the order of the code: loopback, private, link-local,
-- broadcast, unspecified. The last test reads `b & 0xC0` of an octet as `b / 64 * 64`.
unfoldable pub is_private_v4 : ℕ → ℕ → ℕ → ℕ → Bool
is_private_v4 a b c d =
    a == 127
    || (a == 10 || (a == 172 && (leb 16 b && leb b 31)) || (a == 192 && b == 168))
    || (a == 169 && b == 254)
    || (a == 255 && b == 255 && c == 255 && d == 255)
    || (a == 0 && b == 0 && c == 0 && d == 0)
    || (a == 100 && (b / 64 * 64) == 64)

unfoldable pub is_private_ip : IpAddr → Bool
unfolding is_private_v4
is_private_ip (v4 a b c d) = is_private_v4 a b c d
is_private_ip (v6 octets) = octets == zeros_then 1 || octets == zeros_then 0

-- An address as a number, and a block of addresses.
abbrev pub address : ℕ → ℕ → ℕ → ℕ → ℕ
address a b c d = a * 16777216 + b * 65536 + c * 256 + d

abbrev pub Between : ℕ → ℕ → ℕ → Type 0
Between n lo hi = (lo ≤ n) × (n ≤ hi)

abbrev pub Internal : ℕ → Type 0
Internal n =
    ((((Between n 2130706432 2147483647
            ⊎ ((Between n 167772160 184549375 ⊎ Between n 2886729728 2887778303)
                ⊎ Between n 3232235520 3232301055))
          ⊎ Between n 2851995648 2852061183)
        ⊎ Between n 4294967295 4294967295)
      ⊎ Between n 0 0)
    ⊎ Between n 1681915904 1686110207

or_iff : (x y : Bool) (P Q : Type 0) → (x ≡ true) ↔ P → (y ≡ true) ↔ Q → (x || y ≡ true) ↔ (P ⊎ Q)
or_iff true y P Q p q = ((λ _. inl (p.0 refl)), λ _. refl)
or_iff false y P Q p q =
    ((λ h. inr (q.0 h)), λ r. elim r [ inl a ↦ absurd (ground (arith, p.1 a)) | inr a ↦ q.1 a ])

module _ (a b c d : ℕ) (ha : a < 256) (hb : b < 256) (hc : c < 256) (hd : d < 256) where
  abbrev n : ℕ
  n = address a b c d

  loopback : ((a == 127) ≡ true) ↔ Between n 2130706432 2147483647
  loopback = ((λ h. (ground arith, ground arith)), λ (l, u). ground arith)

  private_10 : ((a == 10) ≡ true) ↔ Between n 167772160 184549375
  private_10 = ((λ h. (ground arith, ground arith)), λ (l, u). ground arith)

  private_172 : ((a == 172 && (leb 16 b && leb b 31)) ≡ true) ↔ Between n 2886729728 2887778303
  private_172 = ((λ h. (ground arith, ground arith)), λ (l, u). ground arith)

  private_192 : ((a == 192 && b == 168) ≡ true) ↔ Between n 3232235520 3232301055
  private_192 = ((λ h. (ground arith, ground arith)), λ (l, u). ground arith)

  link_local : ((a == 169 && b == 254) ≡ true) ↔ Between n 2851995648 2852061183
  link_local = ((λ h. (ground arith, ground arith)), λ (l, u). ground arith)

  broadcast :
      ((a == 255 && b == 255 && c == 255 && d == 255) ≡ true) ↔ Between n 4294967295 4294967295
  broadcast = ((λ h. (ground arith, ground arith)), λ (l, u). ground arith)

  unspecified : ((a == 0 && b == 0 && c == 0 && d == 0) ≡ true) ↔ Between n 0 0
  unspecified = ((λ h. (ground arith, ground arith)), λ (l, u). ground arith)

  carrier : ((a == 100 && (b / 64 * 64) == 64) ≡ true) ↔ Between n 1681915904 1686110207
  carrier = ((λ h. (ground arith, ground arith)), λ (l, u). ground arith)

-- An IPv4 address is refused exactly when its number lies in one of the blocks 127.0.0.0/8, 10.0.0.0/8,
-- 172.16.0.0/12, 192.168.0.0/16, 169.254.0.0/16, 100.64.0.0/10 or is 255.255.255.255 or 0.0.0.0.
pub is_private_ip_iff :
    (a b c d : ℕ)
    → a < 256
    → b < 256
    → c < 256
    → d < 256
    → (is_private_ip (v4 a b c d) ≡ true) ↔ Internal (address a b c d)
unfolding is_private_ip is_private_v4
is_private_ip_iff a b c d ha hb hc hd =
    let blocks =
      or_iff _ _ _ _
        (or_iff _ _ _ _ (private_10 a b c d ha hb hc hd) (private_172 a b c d ha hb hc hd))
        (private_192 a b c d ha hb hc hd) in
    let inner =
      or_iff _ _ _ _ (or_iff _ _ _ _ (loopback a b c d ha hb hc hd) blocks)
        (link_local a b c d ha hb hc hd) in
    or_iff _ _ _ _
      (or_iff _ _ _ _ (or_iff _ _ _ _ inner (broadcast a b c d ha hb hc hd))
        (unspecified a b c d ha hb hc hd))
      (carrier a b c d ha hb hc hd)
