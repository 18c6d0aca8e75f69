-- ===== src/Egress/Dotted.antt =====
-- pkg/netutil/safeclient.go: which IPv4 addresses are blocked, in their dotted form.
use ntn_operators.Base.{
  ℕ, ◌+◌, ◌*◌, ◌/◌, ◌^◌, ◌<◌, ◌≡◌, ap₂, Bool, false, ◌&&◌, ◌||◌, leb, ◌==◌, any, [], ◌∷◌, arith,
}
use ntn_operators.Egress.{v4, dotted, same_prefix, in_ranges, embedded_ipv4, is_private_ip}

-- The blocked addresses a.b.c.d, as one reads them in the RFCs.
abbrev pub is_reserved : ℕ → ℕ → ℕ → Bool
is_reserved a b c =
    any (λ (t : Bool). t)
      ((a == 10)
        ∷ (a == 172 && leb 16 b && leb b 31)
        ∷ (a == 192 && b == 168)
        ∷ (a == 127)
        ∷ (a == 169 && b == 254)
        ∷ (a == 0)
        ∷ (a == 100 && leb 64 b && leb b 127)
        ∷ (a == 192 && b == 0 && c == 0)
        ∷ (a == 198 && leb 18 b && leb b 19)
        ∷ leb 224 a
        ∷ [])

module _ (a b c d : ℕ) (ha : a < 256) (hb : b < 256) (hc : c < 256) (hd : d < 256) where
  abbrev address : ℕ
  address = dotted a b c d

  first_byte : address / 2 ^ 24 ≡ a
  first_byte = omega (arith, hb, hc, hd)

  two_bytes : address / 2 ^ 16 ≡ a * 256 + b
  two_bytes = omega (arith, hc, hd)

  three_bytes : address / 2 ^ 8 ≡ (a * 256 + b) * 256 + c
  three_bytes = omega (arith, hd)

  four_bits : address / 2 ^ 28 ≡ a / 16
  four_bits = omega (arith, hb, hc, hd)

  ten_bits : address / 2 ^ 22 ≡ a * 4 + b / 64
  ten_bits = omega (arith, hb, hc, hd)

  twelve_bits : address / 2 ^ 20 ≡ a * 16 + b / 16
  twelve_bits = omega (arith, hb, hc, hd)

  fifteen_bits : address / 2 ^ 17 ≡ a * 128 + b / 2
  fifteen_bits = omega (arith, hb, hc, hd)

  ten_block : same_prefix 32 8 (dotted 10 0 0 0) address ≡ (a == 10)
  ten_block = rw (first_byte) (ground (arith))

  rfc_172_block : same_prefix 32 12 (dotted 172 16 0 0) address ≡ (a == 172 && leb 16 b && leb b 31)
  rfc_172_block = rw (twelve_bits) (ground (arith, hb))

  rfc_192_block : same_prefix 32 16 (dotted 192 168 0 0) address ≡ (a == 192 && b == 168)
  rfc_192_block = rw (two_bytes) (ground (arith, hb))

  loopback_block : same_prefix 32 8 (dotted 127 0 0 0) address ≡ (a == 127)
  loopback_block = rw (first_byte) (ground (arith))

  link_local_block : same_prefix 32 16 (dotted 169 254 0 0) address ≡ (a == 169 && b == 254)
  link_local_block = rw (two_bytes) (ground (arith, hb))

  this_network_block : same_prefix 32 8 (dotted 0 0 0 0) address ≡ (a == 0)
  this_network_block = rw (first_byte) (ground (arith))

  carrier_nat_block :
      same_prefix 32 10 (dotted 100 64 0 0) address ≡ (a == 100 && leb 64 b && leb b 127)
  carrier_nat_block = rw (ten_bits) (ground (arith, hb))

  ietf_block : same_prefix 32 24 (dotted 192 0 0 0) address ≡ (a == 192 && b == 0 && c == 0)
  ietf_block = rw (three_bytes) (ground (arith, hb, hc))

  benchmark_block :
      same_prefix 32 15 (dotted 198 18 0 0) address ≡ (a == 198 && leb 18 b && leb b 19)
  benchmark_block = rw (fifteen_bits) (ground (arith, hb))

  high_blocks :
      (same_prefix 32 4 (dotted 224 0 0 0) address
        || (same_prefix 32 4 (dotted 240 0 0 0) address || false))
      ≡ (leb 224 a || false)
  high_blocks = rw (four_bits) (ground (arith, ha))

  in_ranges-dotted : in_ranges (v4 address) ≡ is_reserved a b c
  unfolding in_ranges
  in_ranges-dotted = ap₂ ◌||◌ ten_block (
      ap₂ ◌||◌ rfc_172_block (
        ap₂ ◌||◌ rfc_192_block (
          ap₂ ◌||◌ loopback_block (
            ap₂ ◌||◌ link_local_block (
              ap₂ ◌||◌ this_network_block (
                ap₂ ◌||◌ carrier_nat_block
                  (ap₂ ◌||◌ ietf_block (ap₂ ◌||◌ benchmark_block high_blocks))))))))

  -- An IPv4 address is blocked exactly if its bytes are those of a private or reserved block.
  pub is_private_ip-dotted : is_private_ip (v4 address) ≡ is_reserved a b c
  unfolding is_private_ip embedded_ipv4
  is_private_ip-dotted = ground (arith, in_ranges-dotted)
