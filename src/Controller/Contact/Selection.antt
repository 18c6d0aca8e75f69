-- ===== src/Controller/Contact/Selection.antt =====
-- internal/controller/ntnslice_controller.go: what checkSatelliteAvailability reports, in terms of the
-- windows of the prediction.
use ntn_operators.Base.{
  ◌≡◌, ◌≤◌, ◌<◌, refl, ◌∙◌, ap, ◌⊎◌, inl, inr, Bool, true, false, not, ◌&&◌, ◌||◌, Option, none,
  some, List, [], ◌∷◌, Time, arith, Bool-cases,
}
use ntn_operators.Controller.Contact.{
  PassWindow, PropagatedState, Ephemeris, found, ContactCandidate, earlier_los_candidate, state_of,
  is_active, is_undeliverable, better, scan_windows, conclude, build_contact_candidate,
  check_satellite_availability,
}
use ntn_operators.Controller.Contact.Order.{
  earlier_los_candidate_irrefl, earlier_los_candidate_trans, earlier_los_candidate-not_trans,
}

-- The member is overhead and its element set can be delivered.
abbrev pub is_usable : Time → List PropagatedState → PassWindow → Bool
is_usable now states w = is_active now w && not (is_undeliverable now states w)

abbrev pub any_usable : Time → List PropagatedState → List PassWindow → Bool
any_usable now states [] = false
any_usable now states (w ∷ ws) =
    let rest = any_usable now states ws in is_usable now states w || rest

abbrev pub any_overhead : Time → List PassWindow → Bool
any_overhead now [] = false
any_overhead now (w ∷ ws) = let rest = any_overhead now ws in is_active now w || rest

abbrev is_some : Option PassWindow → Bool
is_some none = false
is_some (some w) = true

scan-is_some :
    (now : Time) (states : List PropagatedState) (ws : List PassWindow) (best : Option PassWindow)
    (stale : Bool)
    → is_some (scan_windows now states ws best stale).0 ≡ is_some best || any_usable now states ws
unfolding scan_windows
scan-is_some now states [] best stale = ground arith
scan-is_some now states (w ∷ ws) best stale = ground (
  arith,
  scan-is_some now states ws best stale,
  scan-is_some now states ws best true,
  scan-is_some now states ws (some (better w best)) stale,
)

-- No usable window of the list precedes the given one.
abbrev pub NoneEarlier : Time → List PropagatedState → PassWindow → List PassWindow → Type 0
NoneEarlier now states b [] = Unit {0}
NoneEarlier now states b (w ∷ ws) =
    (is_usable now states w ≡ true → earlier_los_candidate w b ≡ false)
    × NoneEarlier now states b ws

abbrev pub IsOneOf : PassWindow → List PassWindow → Type 0
IsOneOf b [] = ⊥
IsOneOf b (w ∷ ws) = (b ≡ w) ⊎ IsOneOf b ws

abbrev NotBefore : Option PassWindow → PassWindow → Type 0
NotBefore none b = Unit {0}
NotBefore (some a) b = earlier_los_candidate a b ≡ false

record IsChosen (now : Time) (states : List PropagatedState) (best : Option PassWindow)
    (ws : List PassWindow) (b : PassWindow) : Type 0 where
  first : NoneEarlier now states b ws
  bound : NotBefore best b
  origin : (best ≡ some b) ⊎ (is_usable now states b ≡ true) × IsOneOf b ws

better-NotBefore :
    (w : PassWindow) (best : Option PassWindow) (b : PassWindow)
    → earlier_los_candidate (better w best) b ≡ false
    → (earlier_los_candidate w b ≡ false) × NotBefore best b
unfolding better
better-NotBefore w none b h = (h, tt)
better-NotBefore w (some a) b h = (
  ground (arith, earlier_los_candidate-not_trans w a b),
  ground (arith, earlier_los_candidate_trans w a b),
)

better-origin :
    (w : PassWindow) (best : Option PassWindow)
    → (better w best ≡ w) ⊎ (best ≡ some (better w best))
unfolding better
better-origin w none = inl refl
better-origin w (some a) = ground arith

module _ (now : Time) (states : List PropagatedState) (w : PassWindow) (ws : List PassWindow)
    (best : Option PassWindow) (b : PassWindow) where
  skip-IsChosen :
      is_usable now states w ≡ false
      → IsChosen now states best ws b
      → IsChosen now states best (w ∷ ws) b
  skip-IsChosen u c = record {
    first = (λ y. cc, c.first);
    bound = c.bound;
    origin = later c.origin;
  }
    where
      later :
          (best ≡ some b) ⊎ (is_usable now states b ≡ true) × IsOneOf b ws
          → (best ≡ some b) ⊎ (is_usable now states b ≡ true) × IsOneOf b (w ∷ ws)
      later (inl e) = inl e
      later (inr (y, m)) = inr (y, inr m)

  take-IsChosen :
      is_usable now states w ≡ true
      → IsChosen now states (some (better w best)) ws b
      → IsChosen now states best (w ∷ ws) b
  take-IsChosen u c = record {
    first = (λ y. (better-NotBefore w best b c.bound).0, c.first);
    bound = (better-NotBefore w best b c.bound).1;
    origin = from c.origin (better-origin w best);
  }
    where
      from :
          (some (better w best) ≡ some b) ⊎ (is_usable now states b ≡ true) × IsOneOf b ws
          → (better w best ≡ w) ⊎ (best ≡ some (better w best))
          → (best ≡ some b) ⊎ (is_usable now states b ≡ true) × IsOneOf b (w ∷ ws)
      from (inl e) (inl f) = let same : b ≡ w = cc in inr (rw same u, inl same)
      from (inl e) (inr f) = inl (f ∙ e)
      from (inr (y, m)) _ = inr (y, inr m)

scan-IsChosen :
    (now : Time) (states : List PropagatedState) (ws : List PassWindow) (best : Option PassWindow)
    (stale : Bool) (b : PassWindow)
    → (scan_windows now states ws best stale).0 ≡ some b
    → IsChosen now states best ws b
unfolding scan_windows
scan-IsChosen now states [] best stale b h = record {
  first = tt;
  bound = rw h (earlier_los_candidate_irrefl b);
  origin = inl h;
}
scan-IsChosen now states (w ∷ ws) best stale b h = elim (Bool-cases (is_active now w)) [
  | inl on ↦ elim (Bool-cases (is_undeliverable now states w)) [
    | inl bad ↦
        skip-IsChosen now states w ws best b (rw (on, bad))
          (scan-IsChosen now states ws best true b (rw (on, bad, scan_windows) at h))
    | inr fine ↦ take-IsChosen now states w ws best b (rw (on, fine)) (
        scan-IsChosen now states ws (some (better w best)) stale b
          (rw (on, fine, scan_windows) at h))
  ]
  | inr off ↦
      skip-IsChosen now states w ws best b (rw off)
        (scan-IsChosen now states ws best stale b (rw (off, scan_windows) at h))
]

conclude-verdict :
    (states : List PropagatedState) (r : Option PassWindow × Bool)
    → ((conclude states r).available ≡ is_some r.0) × ((conclude states r).known ≡ true)
unfolding conclude
conclude-verdict states (some w, stale) = (refl, refl)
conclude-verdict states (none, true) = (refl, refl)
conclude-verdict states (none, false) = (refl, refl)

conclude-candidate :
    (states : List PropagatedState) (r : Option PassWindow × Bool) (c : ContactCandidate)
    → (conclude states r).candidate ≡ some c
    → (w : PassWindow) × (r.0 ≡ some w)
      × (c ≡ build_contact_candidate w (state_of w.norad_id states none))
unfolding conclude
conclude-candidate states (some w, stale) c h = (w, refl, cc)
conclude-candidate states (none, true) c h = absurd (cc)
conclude-candidate states (none, false) c h = absurd (cc)

build-shape :
    (w : PassWindow) (s : Option PropagatedState)
    → ((build_contact_candidate w s).norad_id ≡ w.norad_id)
      × ((build_contact_candidate w s).los ≡ w.los)
      × ((build_contact_candidate w s).valid_until ≤ w.los)
unfolding build_contact_candidate
build-shape w none = (refl, refl, omega arith)
build-shape w (some s) = (refl, refl, ground arith)

usable-open :
    (now : Time) (states : List PropagatedState) (w : PassWindow)
    → is_usable now states w ≡ true
    → now < w.los
unfolding is_active
usable-open now states w h = ground arith

came : {A : Type 0} {b : PassWindow} → (none ≡ some b) ⊎ A → A
came (inl e) = cc
came (inr a) = a

-- A contact is available exactly when a window of the prediction is usable: overhead now, and not of
-- a member whose element set is too old to deliver. The answer is known whenever the prediction is.
pub availability_iff :
    (eph : Ephemeris) (now : Time)
    → let c = check_satellite_availability (found eph) now in
      (c.available ≡ eph.passes_predicted && any_usable now eph.states eph.windows)
      × (c.known ≡ eph.passes_predicted)
unfolding check_satellite_availability
availability_iff eph now = elim (Bool-cases eph.passes_predicted) [
  | inl y ↦
      let scan = scan_windows now eph.states eph.windows none false in
      let verdict = conclude-verdict eph.states scan in
      rw (y, verdict.0, verdict.1) (scan-is_some now eph.states eph.windows none false, refl)
  | inr n ↦ rw n (refl, refl)
]

-- The candidate that is reported is one of the predicted windows, it is usable, no usable window
-- precedes it, its pass is not over, and it is said to be valid no longer than its pass.
pub candidate-IsFirst :
    (eph : Ephemeris) (now : Time) (c : ContactCandidate)
    → (check_satellite_availability (found eph) now).candidate ≡ some c
    → (w : PassWindow) × (is_usable now eph.states w ≡ true)
      × IsOneOf w eph.windows
      × NoneEarlier now eph.states w eph.windows
      × (c.norad_id ≡ w.norad_id)
      × (c.los ≡ w.los)
      × (now < c.los)
      × (c.valid_until ≤ c.los)
unfolding check_satellite_availability
candidate-IsFirst eph now c h = elim (Bool-cases eph.passes_predicted) [
  | inl y ↦
      let (w, picked, built) =
        conclude-candidate eph.states (scan_windows now eph.states eph.windows none false) c
          (rw (y, check_satellite_availability) at h) in
      let chosen = scan-IsChosen now eph.states eph.windows none false w picked in
      let origin = came chosen.origin in
      let shape = build-shape w (state_of w.norad_id eph.states none) in
      (
        w,
        origin.0,
        origin.1,
        chosen.first,
        ap (λ k. k.norad_id) built ∙ shape.0,
        ap (λ k. k.los) built ∙ shape.1,
        rw (built, shape.1) (usable-open now eph.states w origin.0),
        rw (built, shape.1) shape.2,
      )
  | inr n ↦ cc (rw (n, check_satellite_availability) at h)
]
