-- ===== src/Tests/Egress.antt =====
-- The theorems on the checks of the HTTP client at concrete addresses, and test runs.
use ntn_operators.Base.{
  ℕ, ◌≡◌, refl, true, none, some, [], ◌∷◌, codes, text_eq, if◌then◌else◌, arith,
}
use ntn_operators.Readers.Allowlist.{contains_host}
use ntn_operators.Egress.{Ip, v4, dotted, in_ranges, embedded_ipv4, is_private_ip}
use ntn_operators.Egress.Dial.{
  Network, private_ip, first_private, undialled, safe_dial, check_redirect,
}
use ntn_operators.Egress.Transit.{mapped, nat64, six_to_four, is_private_ip-transit}
use ntn_operators.Egress.Guarded.{IsGuarded, safe_dial-IsGuarded}

-- The metadata service, and a public address.
abbrev metadata : ℕ
metadata = dotted 169 254 169 254

abbrev public_dns : ℕ
public_dns = dotted 8 8 8 8

is_private_ip-transit_example :
    (is_private_ip (mapped metadata) ≡ is_private_ip (v4 metadata))
    × (is_private_ip (nat64 metadata) ≡ is_private_ip (v4 metadata))
    × (is_private_ip (six_to_four metadata 1) ≡ is_private_ip (v4 metadata))
is_private_ip-transit_example = is_private_ip-transit metadata 1 (omega arith) (omega arith)

is_private_ip_test : is_private_ip (nat64 metadata) ≡ true
unfolding is_private_ip in_ranges embedded_ipv4
is_private_ip_test = refl

-- Every host resolves to a public address, but `inside`, which has a private one as well; each
-- connection succeeds.
abbrev network : Network Ip
network = record {
  urls = record { parse_url = λ raw. none; to_lower = λ s. s };
  host_of = λ addr. some addr;
  lookup_ip = λ host.
      if text_eq host (codes "inside")
      then some (v4 public_dns ∷ v4 metadata ∷ [])
      else some (v4 public_dns ∷ []);
  dial = λ ip. some ip;
}

safe_dial-IsGuarded_example :
    IsGuarded network [] (codes "inside") (safe_dial network [] (codes "inside"))
safe_dial-IsGuarded_example = safe_dial-IsGuarded network [] (codes "inside") (codes "inside") refl

safe_dial_test :
    safe_dial network [] (codes "inside") ≡ undialled network (private_ip (v4 metadata))
unfolding safe_dial first_private is_private_ip in_ranges embedded_ipv4 contains_host
safe_dial_test = refl

redirect_test :
    check_redirect network [] 1 (some (codes "https")) (codes "https") (codes "mirror") ≡ true
unfolding check_redirect first_private is_private_ip in_ranges embedded_ipv4 contains_host
redirect_test = refl
