-- ===== src/Egress.antt =====
-- pkg/netutil/safeclient.go: IP addresses, and the checks of the HTTP client that dials for the
-- operator.
use ntn_operators.Base.{
  ℕ, ◌+◌, ◌-◌, ◌*◌, ◌/◌, ◌%◌, ◌^◌, ◌==◌, Bool, true, false, ◌||◌, any, Option, none, some, List, [],
  ◌∷◌, if◌then◌else◌,
}
pub mod Dial
pub mod Dotted
pub mod Transit
pub mod Guarded

-- net.IP as a number: of four bytes, or of sixteen.
pub data Ip : Type 0 where
  v4 : ℕ → Ip
  v6 : ℕ → Ip

-- net.IP.To4 of sixteen bytes: those of an IPv4-mapped address.
abbrev pub to4 : ℕ → Option ℕ
to4 n = if n / 2 ^ 32 == 0xffff then some (n % 2 ^ 32) else none

-- net.IPNet: the address and the length of the prefix.
pub record IpNet : Type 0 where
  pub base : Ip
  pub ones : ℕ

abbrev pub same_prefix : ℕ → ℕ → ℕ → ℕ → Bool
same_prefix bits ones m n = m / 2 ^ (bits - ones) == n / 2 ^ (bits - ones)

-- net.IPNet.Contains for an address that is no IPv4-mapped one.
abbrev pub contains_plain : IpNet → Ip → Bool
contains_plain r ip = elim r.base [
  | v4 m ↦ elim ip [ v4 n ↦ same_prefix 32 r.ones m n | v6 n ↦ false ]
  | v6 m ↦ elim ip [ v4 n ↦ false | v6 n ↦ same_prefix 128 r.ones m n ]
]

abbrev pub unmapped : Ip → Ip
unmapped (v4 n) = v4 n
unmapped (v6 n) = elim (to4 n) [ none ↦ v6 n | some w ↦ v4 w ]

abbrev pub contains : IpNet → Ip → Bool
contains r ip = contains_plain r (unmapped ip)

-- An IPv4 address from its four bytes.
abbrev pub dotted : ℕ → ℕ → ℕ → ℕ → ℕ
dotted a b c d = a * 2 ^ 24 + b * 2 ^ 16 + c * 2 ^ 8 + d

abbrev pub private_ranges : List IpNet
private_ranges =
    record { base = v4 (dotted 10 0 0 0); ones = 8 }
    ∷ record { base = v4 (dotted 172 16 0 0); ones = 12 }
    ∷ record { base = v4 (dotted 192 168 0 0); ones = 16 }
    ∷ record { base = v4 (dotted 127 0 0 0); ones = 8 }
    ∷ record { base = v4 (dotted 169 254 0 0); ones = 16 }
    ∷ record { base = v4 (dotted 0 0 0 0); ones = 8 }
    ∷ record { base = v4 (dotted 100 64 0 0); ones = 10 }
    ∷ record { base = v4 (dotted 192 0 0 0); ones = 24 }
    ∷ record { base = v4 (dotted 198 18 0 0); ones = 15 }
    ∷ record { base = v4 (dotted 224 0 0 0); ones = 4 }
    ∷ record { base = v4 (dotted 240 0 0 0); ones = 4 }
    ∷ record { base = v6 (0xfc00 * 2 ^ 112); ones = 7 }
    ∷ record { base = v6 (0xfe80 * 2 ^ 112); ones = 10 }
    ∷ record { base = v6 1; ones = 128 }
    ∷ record { base = v6 0; ones = 128 }
    ∷ record { base = v6 (0xff00 * 2 ^ 112); ones = 8 }
    ∷ record { base = v6 (0x64ff9b * 2 ^ 96 + 2 ^ 80); ones = 48 }
    ∷ []

unfoldable pub in_ranges : Ip → Bool
in_ranges ip = any (λ (r : IpNet). contains r ip) private_ranges

-- The IPv4 address in a 6to4 address, or in one of the well-known NAT64 prefix.
unfoldable pub embedded_ipv4 : Ip → Option ℕ
embedded_ipv4 (v4 n) = none
embedded_ipv4 (v6 n) = elim (to4 n) [
  | some w ↦ none
  | none ↦
      if n / 2 ^ 112 == 0x2002
      then some (n / 2 ^ 80 % 2 ^ 32)
      else if n / 2 ^ 32 == 0x64ff9b * 2 ^ 64
      then some (n % 2 ^ 32)
      else none
]

-- The recursion of IsPrivateIP ends at the embedded address, in which nothing is embedded.
unfoldable pub is_private_ip : Ip → Bool
unfolding in_ranges embedded_ipv4
is_private_ip ip =
    if in_ranges ip
    then true
    else elim (embedded_ipv4 ip) [ none ↦ false | some w ↦ in_ranges (v4 w) ]
