-- ===== src/Egress/Dial.antt =====
-- pkg/netutil/safeclient.go: safeDialContext and CheckRedirect. The resolver, net.SplitHostPort and the
-- dialer are parameters.
use ntn_operators.Base.{
  ℕ, Bool, true, false, ◌&&◌, leb, Option, none, some, List, [], ◌∷◌, is_empty, Text, codes,
  text_eq, if◌then◌else◌,
}
use ntn_operators.Readers.Allowlist.{UrlLibrary, EndpointAllowlist, contains_host}
use ntn_operators.Egress.{Ip, is_private_ip}

-- The host of an address, the addresses of a host, and a connection; `none` is an error.
pub record Network {ℓ} (Conn : Type ℓ) : Type ℓ where
  pub urls : UrlLibrary
  pub host_of : Text → Option Text
  pub lookup_ip : Text → Option (List Ip)
  pub dial : Ip → Option Conn

pub data DialError : Type 0 where
  invalid_address resolution_failed no_addresses unreachable : DialError
  private_ip : Ip → DialError

-- The addresses that were dialled, and the connection or the error.
pub record DialResult {ℓ} (Conn : Type ℓ) : Type ℓ where
  pub dialled : List Ip
  pub result : Option Conn
  pub error : Option DialError

-- The first address that is blocked.
unfoldable pub first_private : List Ip → Option Ip
first_private [] = none
first_private (ip ∷ ips) =
    let rest = first_private ips in if is_private_ip ip then some ip else rest

abbrev pub is_downgrade : Option Text → Text → Bool
is_downgrade none scheme = false
is_downgrade (some s) scheme = text_eq s (codes "https") && text_eq scheme (codes "http")

module _ {ℓ} {Conn : Type ℓ} (net : Network Conn) where
  abbrev pub undialled : DialError → DialResult Conn
  undialled e = record { dialled = []; result = none; error = some e }

  -- The loop over the addresses.
  unfoldable pub try_each : List Ip → DialResult Conn
  try_each [] = record { dialled = []; result = none; error = some unreachable }
  try_each (ip ∷ ips) =
      let rest = try_each ips in
      elim (net.dial ip) [
        | some c ↦ record { dialled = ip ∷ []; result = some c; error = none }
        | none ↦ record rest { dialled = ip ∷ rest.dialled }
      ]

  unfoldable pub safe_dial : EndpointAllowlist → Text → DialResult Conn
  unfolding try_each first_private
  safe_dial allowed addr = elim (net.host_of addr) [
    | none ↦ undialled invalid_address
    | some host ↦ elim (net.lookup_ip host) [
      | none ↦ undialled resolution_failed
      | some ips ↦
          if is_empty ips
          then undialled no_addresses
          else if contains_host net.urls allowed host
          then try_each ips
          else elim (first_private ips) [
            | some ip ↦ undialled (private_ip ip)
            | none ↦ try_each ips
          ]
    ]
  ]

  -- CheckRedirect: the number of requests so far, the scheme of the first one, if any, and the scheme
  -- and host of the next one. Whether it is followed.
  unfoldable pub check_redirect : EndpointAllowlist → ℕ → Option Text → Text → Text → Bool
  unfolding first_private
  check_redirect allowed via first_scheme scheme host =
      if leb 3 via
      then false
      else if is_downgrade first_scheme scheme
      then false
      else if contains_host net.urls allowed host
      then true
      else elim (net.lookup_ip host) [
        | none ↦ false
        | some ips ↦ elim (first_private ips) [ some ip ↦ false | none ↦ true ]
      ]
