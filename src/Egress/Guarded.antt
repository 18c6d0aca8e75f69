-- ===== src/Egress/Guarded.antt =====
-- pkg/netutil/safeclient.go: what safeDialContext connects to, and what CheckRedirect lets through.
use ntn_operators.Base.{
  ℕ, ◌<◌, ◌≡◌, ◌≢◌, refl, sym, subst, ◌∙◌, ◌⊎◌, inl, inr, Bool, true, false, not, any, all, leb,
  Option, none, some, List, [], ◌∷◌, is_empty, Text, arith, Bool-cases, Option-cases,
}
use ntn_operators.Readers.Allowlist.{EndpointAllowlist, contains_host}
use ntn_operators.Egress.{Ip, is_private_ip}
use ntn_operators.Egress.Dial.{
  Network, DialResult, first_private, try_each, safe_dial, is_downgrade, check_redirect,
}

abbrev pub are_public : List Ip → Bool
are_public ips = all (λ (ip : Ip). not (is_private_ip ip)) ips

first_private-hit :
    (ip : Ip) (ips : List Ip) → is_private_ip ip ≡ true → first_private (ip ∷ ips) ≡ some ip
unfolding first_private
first_private-hit ip ips e = rw (e) refl

first_private-miss :
    (ip : Ip) (ips : List Ip)
    → is_private_ip ip ≡ false
    → first_private (ip ∷ ips) ≡ first_private ips
unfolding first_private
first_private-miss ip ips e = rw (e) refl

some-none {ℓ} : {A : Type ℓ} {x : A} → some x ≢ none
some-none h = cc

some_inv {ℓ} : {A : Type ℓ} {x y : A} → some x ≡ some y → x ≡ y
some_inv h = cc

false-true {ℓ} : {A : Type ℓ} {b : Bool} → b ≡ false → b ≡ true → A
false-true h k = absurd (cc)

first_private-none : (ips : List Ip) → first_private ips ≡ none → are_public ips ≡ true
first_private-none [] h = refl
first_private-none (ip ∷ ips) h = elim (Bool-cases (is_private_ip ip)) [
  | inl e ↦ absurd (some-none (sym (first_private-hit ip ips e) ∙ h))
  | inr e ↦ rw (e) (first_private-none ips (sym (first_private-miss ip ips e) ∙ h))
]

first_private-some : (ips : List Ip) → any is_private_ip ips ≡ true → first_private ips ≢ none
first_private-some [] h e = absurd (cc)
first_private-some (ip ∷ ips) h e = elim (Bool-cases (is_private_ip ip)) [
  | inl p ↦ absurd (some-none (sym (first_private-hit ip ips p) ∙ e))
  | inr p ↦ first_private-some ips (ground (arith, h, p)) (sym (first_private-miss ip ips p) ∙ e)
]

module _ {ℓ} {Conn : Type ℓ} (net : Network Conn) where
  try_each-public :
      (ips : List Ip) → are_public ips ≡ true → are_public ((try_each net ips).dialled) ≡ true
  unfolding try_each
  try_each-public [] h = refl
  try_each-public (ip ∷ ips) h = elim (Option-cases (net.dial ip)) [
    | inl d ↦ rw (try_each, d) (ground (arith, h, try_each-public ips))
    | inr (c, d) ↦ rw (try_each, d) (ground (arith, h))
  ]

  -- What dialling an address of a host does; `dialled` holds the addresses that a connection was
  -- tried to.
  pub record IsGuarded (allowed : EndpointAllowlist) (host : Text) (r : DialResult Conn)
      : Type ℓ where
    pub only_public : contains_host net.urls allowed host ≡ false → are_public r.dialled ≡ true
    pub none_private :
        (ips : List Ip)
        → contains_host net.urls allowed host ≡ false
        → net.lookup_ip host ≡ some ips
        → any is_private_ip ips ≡ true
        → r.dialled ≡ []

  -- A connection to a host that is not on the list of private hosts is tried only to public addresses,
  -- and to none at all if one of the addresses that the host resolves to is private.
  pub safe_dial-IsGuarded :
      (allowed : EndpointAllowlist) (addr host : Text)
      → net.host_of addr ≡ some host
      → IsGuarded allowed host (safe_dial net allowed addr)
  unfolding safe_dial
  safe_dial-IsGuarded allowed addr host h = elim (Option-cases (net.lookup_ip host)) [
    | inl l ↦
        rw (safe_dial, h, l) (record { only_public = λ k. refl; none_private = λ ips k e p. refl })
    | inr (ips, l) ↦ elim (Bool-cases (is_empty ips)) [
      | inl z ↦
          rw (safe_dial, h, l, z)
            (record { only_public = λ k. refl; none_private = λ ips k e p. refl })
      | inr z ↦ elim (Bool-cases (contains_host net.urls allowed host)) [
        | inl a ↦
            rw (safe_dial, h, l, z, a)
              (record { only_public = λ k. absurd (cc); none_private = λ ips k e p. absurd (cc) })
        | inr a ↦ elim (Option-cases (first_private ips)) [
          | inr (ip, f) ↦
              rw (safe_dial, h, l, z, a, f)
                (record { only_public = λ k. refl; none_private = λ ips k e p. refl })
          | inl f ↦
              rw (safe_dial, h, l, z, a, f)
                (record {
                  only_public = λ k. try_each-public ips (first_private-none ips f);
                  none_private = λ ips' k e p. absurd (
                      first_private-some ips
                        (subst (λ x. any is_private_ip x ≡ true) (some_inv (sym e ∙ l)) p) f);
                })
        ]
      ]
    ]
  ]

  -- A redirect is followed only if it is one of the first three requests, does not leave https for
  -- http, and goes to a host on the list of private hosts or to one whose addresses are all public.
  pub check_redirect-follows :
      (allowed : EndpointAllowlist) (via : ℕ) (first : Option Text) (scheme host : Text)
      → check_redirect net allowed via first scheme host ≡ true
      → (via < 3)
        × (is_downgrade first scheme ≡ false)
        × ((contains_host net.urls allowed host ≡ true)
            ⊎ ((ips : List Ip) × (net.lookup_ip host ≡ some ips) × (are_public ips ≡ true)))
  unfolding check_redirect
  check_redirect-follows allowed via first scheme host h = elim (Bool-cases (leb 3 via)) [
    | inl v ↦ false-true (rw (check_redirect, v) refl) h
    | inr v ↦ elim (Bool-cases (is_downgrade first scheme)) [
      | inl d ↦ false-true (rw (check_redirect, v, d) refl) h
      | inr d ↦ elim (Bool-cases (contains_host net.urls allowed host)) [
        | inl a ↦ (ground (arith, v), d, inl a)
        | inr a ↦ elim (Option-cases (net.lookup_ip host)) [
          | inl l ↦ false-true (rw (check_redirect, v, d, a, l) refl) h
          | inr (ips, l) ↦ elim (Option-cases (first_private ips)) [
            | inr (ip, f) ↦ false-true (rw (check_redirect, v, d, a, l, f) refl) h
            | inl f ↦ (ground (arith, v), d, inr (ips, l, first_private-none ips f))
          ]
        ]
      ]
    ]
  ]
