-- ===== src/Egress/Transit.antt =====
-- pkg/netutil/safeclient.go: the addresses that carry an IPv4 address.
use ntn_operators.Base.{
  ℕ, ◌+◌, ◌*◌, ◌^◌, ◌<◌, ◌≡◌, refl, sym, ap, ◌∙◌, Bool, true, false, any, none, some, arith,
}
use ntn_operators.Egress.{
  Ip, IpNet, contains_plain, unmapped, private_ranges, v4, v6, in_ranges, embedded_ipv4,
  is_private_ip,
}

-- ::ffff:w, 64:ff9b::w, and 2002:w:r.
abbrev pub mapped : ℕ → Ip
mapped w = v6 (0xffff * 2 ^ 32 + w)

abbrev pub nat64 : ℕ → Ip
nat64 w = v6 (0x64ff9b * 2 ^ 96 + w)

abbrev pub six_to_four : ℕ → ℕ → Ip
six_to_four w r = v6 (0x2002 * 2 ^ 112 + w * 2 ^ 80 + r)

unmapped-mapped : (w : ℕ) → w < 2 ^ 32 → unmapped (mapped w) ≡ v4 w
unmapped-mapped w h = ground (arith, h)

in_ranges-mapped : (w : ℕ) → w < 2 ^ 32 → in_ranges (mapped w) ≡ in_ranges (v4 w)
unfolding in_ranges
in_ranges-mapped w h =
    ap (λ (ip : Ip). any (λ (r : IpNet). contains_plain r ip) private_ranges) (unmapped-mapped w h)

in_ranges-nat64 : (w : ℕ) → w < 2 ^ 32 → in_ranges (nat64 w) ≡ false
unfolding in_ranges
in_ranges-nat64 w h = ground (arith, h)

in_ranges-six_to_four : (w r : ℕ) → w < 2 ^ 32 → r < 2 ^ 80 → in_ranges (six_to_four w r) ≡ false
unfolding in_ranges
in_ranges-six_to_four w r h k = ground (arith, h, k)

embedded-mapped : (w : ℕ) → w < 2 ^ 32 → embedded_ipv4 (mapped w) ≡ none
unfolding embedded_ipv4
embedded-mapped w h = ground (arith, h)

embedded-nat64 : (w : ℕ) → w < 2 ^ 32 → embedded_ipv4 (nat64 w) ≡ some w
unfolding embedded_ipv4
embedded-nat64 w h = ground (arith, h)

embedded-six_to_four :
    (w r : ℕ) → w < 2 ^ 32 → r < 2 ^ 80 → embedded_ipv4 (six_to_four w r) ≡ some w
unfolding embedded_ipv4
embedded-six_to_four w r h k = ground (arith, h, k)

is_private_ip-v4 : (w : ℕ) → is_private_ip (v4 w) ≡ in_ranges (v4 w)
unfolding is_private_ip embedded_ipv4
is_private_ip-v4 w = ground arith

is_private_ip-embedded :
    (ip : Ip) (w : ℕ)
    → in_ranges ip ≡ false
    → embedded_ipv4 ip ≡ some w
    → is_private_ip ip ≡ is_private_ip (v4 w)
unfolding is_private_ip
is_private_ip-embedded ip w h e = rw (is_private_ip, h, e) (sym (is_private_ip-v4 w))

is_private_ip-plain :
    (ip : Ip) (b : Bool) → in_ranges ip ≡ b → embedded_ipv4 ip ≡ none → is_private_ip ip ≡ b
unfolding is_private_ip
is_private_ip-plain ip true h e = rw (is_private_ip, h) refl
is_private_ip-plain ip false h e = rw (is_private_ip, h, e) refl

-- An IPv6 address that maps an IPv4 address, or reaches it by the NAT64 prefix 64:ff9b::/96 or by 6to4,
-- is blocked exactly if that address is.
pub is_private_ip-transit :
    (w r : ℕ)
    → w < 2 ^ 32
    → r < 2 ^ 80
    → (is_private_ip (mapped w) ≡ is_private_ip (v4 w))
      × (is_private_ip (nat64 w) ≡ is_private_ip (v4 w))
      × (is_private_ip (six_to_four w r) ≡ is_private_ip (v4 w))
is_private_ip-transit w r h k = (
  is_private_ip-plain (mapped w) (is_private_ip (v4 w))
      (in_ranges-mapped w h ∙ sym (is_private_ip-v4 w)) (embedded-mapped w h),
  is_private_ip-embedded (nat64 w) w (in_ranges-nat64 w h) (embedded-nat64 w h),
  is_private_ip-embedded (six_to_four w r) w (in_ranges-six_to_four w r h k)
      (embedded-six_to_four w r h k),
)
