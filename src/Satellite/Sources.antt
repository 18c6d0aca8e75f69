-- ===== src/Satellite/Sources.antt =====
-- internal/controller/satelliteephemeris_controller.go: the fetchers of a source, and what they need.
use text.Mathlib.Text.{◌==◌ as str_eq}
use ntn_operators.Base.{
  Bool, not, Option, none, some, ◌⊎◌, inl, inr, List, [], ◌∷◌, is_empty, Text, text_eq, codes,
  if◌then◌else◌,
}
use ntn_operators.Base.Dict.{lookup}
use ntn_operators.Controller.FlapState.{name_key}
use ntn_operators.Egress.{Ip, is_private_ip}
use ntn_operators.Readers.{text_key}
use ntn_operators.Readers.Allowlist.{UrlLibrary}
use ntn_operators.Satellite.{
  Credentials, EphemerisObject, FetchError, SetupError, celestrak_not_configured,
  spacetrack_not_configured, credentials_required, credentials_unavailable, unsupported_source,
  GpFetchResult,
}

-- The fetcher of CelesTrak, or that of Space-Track bound to a user name and a password.
pub data Fetcher : Type 0 where
  celes_trak : Fetcher
  bound_space_track : Text → Text → Fetcher

pub data Fetched {ℓ} (E F : Type ℓ) : Type ℓ where
  fetch_failed : FetchError → Fetched E F
  fetch_ok : GpFetchResult E F → Fetched E F

-- What the reconcile can reach: which fetchers are configured, the Secrets, the resolver (`none` for
-- its error) and the sources.
pub record Upstream {ℓ} (E F : Type ℓ) : Type ℓ where
  pub has_celes_trak : Bool
  pub has_space_track : Bool
  pub get_secret : Text → Option (List (Text × Text))
  pub lookup_ip : Text → Option (List Ip)
  pub fetch_from : Fetcher → Text → Fetched E F

abbrev first_public : List Ip → Option Ip
first_public [] = none
first_public (ip ∷ ips) = if is_private_ip ip then first_public ips else some ip

-- The value of a key, where both it and the user name are there.
unfoldable pub bind_credentials : Credentials → List (Text × Text) → SetupError ⊎ Fetcher
bind_credentials creds entries =
    elim (lookup (if is_empty creds.key then codes "password" else creds.key) entries) [
      | none ↦ inl credentials_unavailable
      | some password ↦ elim (lookup (codes "username") entries) [
        | none ↦ inl credentials_unavailable
        | some username ↦ inr (bound_space_track username password)
      ]
    ]

module _ {ℓ} {E F : Type ℓ} where
  unfoldable pub public_http_source : UrlLibrary → Upstream E F → Text → Option Ip
  public_http_source lib up raw = elim (lib.parse_url raw) [
    | none ↦ none
    | some u ↦
        if not (text_eq (lib.to_lower u.scheme) (codes "http"))
        then none
        else elim (up.lookup_ip u.hostname) [ none ↦ none | some ips ↦ first_public ips ]
  ]

  unfoldable pub fetcher_for_source : Upstream E F → EphemerisObject → SetupError ⊎ Fetcher
  unfolding bind_credentials
  fetcher_for_source up o =
      if str_eq o.spec.source_type "CelesTrak"
      then (if up.has_celes_trak then inr celes_trak else inl celestrak_not_configured)
      else if str_eq o.spec.source_type "SpaceTrack"
      then (if not up.has_space_track
          then inl spacetrack_not_configured
          else elim o.spec.credentials [
            | none ↦ inl credentials_required
            | some creds ↦ elim (up.get_secret creds.name) [
              | none ↦ inl credentials_unavailable
              | some entries ↦ bind_credentials creds entries
            ]
          ])
      else inl (unsupported_source o.spec.source_type)
