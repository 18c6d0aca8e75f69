-- ===== src/Controller/Contact.antt =====
-- internal/controller/ntnslice_controller.go: checkSatelliteAvailability, on the windows and the
-- propagated states of the referenced SatelliteEphemeris, and the member that it reports.
pub mod Order
pub mod Selection
use ntn_operators.Base.{
  ℕ, ◌+◌, ◌*◌, ltb, ◌==◌, Bool, true, false, not, ◌&&◌, ◌||◌, Option, none, some, List, [], ◌∷◌,
  Text, Time, after, if◌then◌else◌,
}
use ntn_operators.Controller.Freshness.{max_epoch_age, source_epoch_fresh}

-- time.UnixMilli, for an instant from 1970 on.
unfoldable pub unix_milli : ℕ → Time
unix_milli ms = 62135596800000000000 + ms * 1000000

pub record PassWindow : Type 0 where
  pub norad_id : ℕ
  pub satellite : Text
  pub ground_station : Text
  pub aos : Time
  pub los : Time

pub record PropagatedState : Type 0 where
  pub norad_id : ℕ
  pub source_epoch_unix_ms : ℕ
  pub epoch_unix_ms : ℕ

pub record ContactCandidate : Type 0 where
  pub norad_id : ℕ
  pub satellite : Text
  pub ground_station : Text
  pub aos : Time
  pub los : Time
  pub source_epoch_unix_ms : ℕ
  pub propagated_epoch_unix_ms : ℕ
  pub valid_until : Time

pub data ContactReason : Type 0 where
  constellation_member_available no_active_contact all_candidates_stale : ContactReason
  ephemeris_ref_not_found prediction_unavailable satellite_read_failed : ContactReason

pub record ContactEval : Type 0 where
  pub available : Bool
  pub known : Bool
  pub reason : ContactReason
  pub candidate : Option ContactCandidate

-- What the read of the SatelliteEphemeris gives: NotFound, another error, or the object.
pub record Ephemeris : Type 0 where
  pub passes_predicted : Bool
  pub windows : List PassWindow
  pub states : List PropagatedState

pub data EphemerisRead : Type 0 where
  not_found read_failed : EphemerisRead
  found : Ephemeris → EphemerisRead

-- `a < b` on strings: the order of UTF-8 bytes is that of code points.
unfoldable pub text_lt : Text → Text → Bool
text_lt s [] = false
text_lt [] (d ∷ t) = true
text_lt (c ∷ s) (d ∷ t) = let rest = text_lt s t in if c == d then rest else ltb c d

unfoldable pub earlier_los_candidate : PassWindow → PassWindow → Bool
unfolding text_lt
earlier_los_candidate a b =
    if not (a.los == b.los)
    then ltb a.los b.los
    else if not (a.norad_id == b.norad_id)
    then ltb a.norad_id b.norad_id
    else text_lt a.ground_station b.ground_station

-- stale[norad]: some propagated state of that member is not fresh.
unfoldable pub is_stale : Time → List PropagatedState → ℕ → Bool
is_stale now [] norad = false
is_stale now (s ∷ states) norad =
    let rest = is_stale now states norad in
    if s.norad_id == norad && not (source_epoch_fresh now (unix_milli s.source_epoch_unix_ms))
    then true
    else rest

-- states[norad]: the last one in the list.
unfoldable pub state_of : ℕ → List PropagatedState → Option PropagatedState → Option PropagatedState
state_of norad [] last = last
state_of norad (s ∷ states) last =
    state_of norad states (if s.norad_id == norad then some s else last)

-- The clock is inside the window.
unfoldable pub is_active : Time → PassWindow → Bool
is_active now w = not (after w.aos now) && after w.los now

unfoldable pub is_undeliverable : Time → List PropagatedState → PassWindow → Bool
unfolding is_stale
is_undeliverable now states w = not (w.norad_id == 0) && is_stale now states w.norad_id

unfoldable pub better : PassWindow → Option PassWindow → PassWindow
unfolding earlier_los_candidate
better w none = w
better w (some b) = if earlier_los_candidate w b then w else b

-- The loop over the windows, with `best` and `activeStale`.
unfoldable pub scan_windows :
    Time
    → List PropagatedState
    → List PassWindow
    → Option PassWindow
    → Bool
    → Option PassWindow × Bool
unfolding is_active is_undeliverable better
scan_windows now states [] best active_stale = (best, active_stale)
scan_windows now states (w ∷ ws) best active_stale = elim (is_active now w) [
  | false ↦ scan_windows now states ws best active_stale
  | true ↦ elim (is_undeliverable now states w) [
    | true ↦ scan_windows now states ws best true
    | false ↦ scan_windows now states ws (some (better w best)) active_stale
  ]
]

unfoldable pub build_contact_candidate : PassWindow → Option PropagatedState → ContactCandidate
build_contact_candidate w none = record {
  norad_id = w.norad_id;
  satellite = w.satellite;
  ground_station = w.ground_station;
  aos = w.aos;
  los = w.los;
  source_epoch_unix_ms = 0;
  propagated_epoch_unix_ms = 0;
  valid_until = w.los;
}
build_contact_candidate w (some s) =
    let expiry = unix_milli s.source_epoch_unix_ms + max_epoch_age in
    record {
      norad_id = w.norad_id;
      satellite = w.satellite;
      ground_station = w.ground_station;
      aos = w.aos;
      los = w.los;
      source_epoch_unix_ms = s.source_epoch_unix_ms;
      propagated_epoch_unix_ms = s.epoch_unix_ms;
      valid_until = if ltb expiry w.los then expiry else w.los;
    }

abbrev pub unavailable : Bool → ContactReason → ContactEval
unavailable known reason = record {
  available = false;
  known = known;
  reason = reason;
  candidate = none;
}

unfoldable pub conclude : List PropagatedState → Option PassWindow × Bool → ContactEval
unfolding build_contact_candidate state_of
conclude states (some w, active_stale) = record {
  available = true;
  known = true;
  reason = ContactReason.constellation_member_available;
  candidate = some (build_contact_candidate w (state_of w.norad_id states none));
}
conclude states (none, true) = unavailable true ContactReason.all_candidates_stale
conclude states (none, false) = unavailable true ContactReason.no_active_contact

unfoldable pub check_satellite_availability : EphemerisRead → Time → ContactEval
unfolding conclude
check_satellite_availability not_found now = unavailable true ContactReason.ephemeris_ref_not_found
check_satellite_availability read_failed now = unavailable false ContactReason.satellite_read_failed
check_satellite_availability (found eph) now =
    if not eph.passes_predicted
    then unavailable false ContactReason.prediction_unavailable
    else conclude eph.states (scan_windows now eph.states eph.windows none false)
