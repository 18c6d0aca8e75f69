-- ===== src/Readers/Allowlist.antt =====
-- pkg/netutil/allowlist.go. url.Parse and strings.ToLower are parameters.
use ntn_operators.Base.{
  ℕ, ◌==◌, Bool, true, false, not, ◌||◌, any, Option, none, some, List, [], ◌∷◌, Text, codes,
  text_eq, is_empty, trim_space, if◌then◌else◌,
}

-- What Check reads of a url.URL.
pub record Url : Type 0 where
  pub scheme : Text
  pub has_user : Bool
  pub hostname : Text

-- url.Parse, with `none` for its error, and strings.ToLower.
pub record UrlLibrary : Type 0 where
  pub parse_url : Text → Option Url
  pub to_lower : Text → Text

-- The hosts; an empty list permits all.
abbrev pub EndpointAllowlist : Type 0
EndpointAllowlist = List Text

-- strings.Split at a code point.
unfoldable pub split_at : ℕ → Text → List Text
split_at c [] = [] ∷ []
split_at c (d ∷ s) = elim (split_at c s) [
  | [] ↦ []
  | part ∷ parts ↦ if d == c then [] ∷ part ∷ parts else (d ∷ part) ∷ parts
]

module _ (lib : UrlLibrary) where
  abbrev pub hosts_of : List Text → List Text
  hosts_of [] = []
  hosts_of (p ∷ ps) =
      let rest = hosts_of ps in
      if is_empty (trim_space p) then rest else lib.to_lower (trim_space p) ∷ rest

  unfoldable pub parse_endpoint_allowlist : Text → EndpointAllowlist
  unfolding split_at
  parse_endpoint_allowlist csv = if is_empty csv then [] else hosts_of (split_at b',' csv)

  unfoldable pub contains_host : EndpointAllowlist → Text → Bool
  contains_host hosts host =
      if is_empty hosts then false else any (text_eq (lib.to_lower host)) hosts

  abbrev pub is_http : Text → Bool
  is_http scheme = text_eq scheme (codes "http") || text_eq scheme (codes "https")

  -- Whether the error is nil.
  unfoldable pub check : EndpointAllowlist → Text → Bool
  check hosts raw = elim (lib.parse_url raw) [
    | none ↦ false
    | some u ↦
        let host = lib.to_lower u.hostname in
        if not (is_http (lib.to_lower u.scheme))
        then false
        else if u.has_user
        then false
        else if is_empty host
        then false
        else if is_empty hosts
        then true
        else any (text_eq host) hosts
  ]
