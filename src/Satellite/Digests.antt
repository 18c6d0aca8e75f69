-- ===== src/Satellite/Digests.antt =====
-- internal/controller/satelliteephemeris_controller.go: the inputs of a pass sweep and their digests
-- (propagationInputHash, passPredictionInputSignature, passSweepDecision).
use ntn_operators.Base.{
  ℕ, Bool, false, not, none, some, List, [], ◌∷◌, map, String, Text, text_lt, ltb, ◌==◌, Time,
  if◌then◌else◌,
}
use ntn_operators.Satellite.{
  PassPrediction, EphemerisSpec, EphemerisStatus, MetaConditions, StationMark, absent, present,
  Printer,
}
use ntn_operators.Satellite.Cadence.{pass_prediction_configured, pass_sweep_due, norad_ids}

module _ {ℓ} {A : Type ℓ} (lt : A → A → Bool) where
  abbrev insert_sorted : A → List A → List A
  insert_sorted x [] = x ∷ []
  insert_sorted x (y ∷ ys) =
      let rest = insert_sorted x ys in if lt y x then y ∷ rest else x ∷ y ∷ ys

  -- sort.Ints and sort.Strings.
  abbrev pub sorted : List A → List A
  sorted [] = []
  sorted (x ∷ xs) = insert_sorted x (sorted xs)

-- slices.Compact.
abbrev pub compact : List ℕ → List ℕ
compact [] = []
compact (x ∷ xs) = elim (compact xs) [
  | [] ↦ x ∷ []
  | y ∷ ys ↦ if x == y then y ∷ ys else x ∷ y ∷ ys
]

unfoldable pub canonical_norads : EphemerisSpec → List ℕ
canonical_norads spec = compact (sorted ltb (norad_ids spec))

unfoldable pub propagation_input_hash : Printer → EphemerisSpec → Text
unfolding canonical_norads
propagation_input_hash print spec =
    print.sha256_hex
      (print.print_propagation_inputs spec.source_type spec.url (canonical_norads spec))

-- What the sweep reads of a GroundStationLifecycle.
pub record StationObject : Type 0 where
  pub uid : String
  pub generation : ℕ
  pub terminating : Bool
  pub lat : Text
  pub lon : Text
  pub alt : Text

-- r.Get of a station; `read_failed` says whether the error is that of the context.
pub data StationRead : Type 0 where
  missing : StationRead
  read_failed : Bool → StationRead
  station : StationObject → StationRead

unfoldable pub mark_of : StationRead → StationMark
mark_of missing = absent
mark_of (read_failed context) = absent
mark_of (station g) = present g.uid g.generation g.terminating

unfoldable pub pass_prediction_input_signature :
    Printer → (Text → StationRead) → EphemerisSpec → PassPrediction → Text
unfolding canonical_norads mark_of
pass_prediction_input_signature print get spec pp = print.sha256_hex (
    print.print_pass_inputs (record {
      min_elevation = pp.min_elevation;
      horizon = pp.horizon;
      norad = canonical_norads spec;
      source_type = spec.source_type;
      url = spec.url;
      stations = map (λ (n : Text). (n, mark_of (get n))) (sorted text_lt pp.ground_stations);
    }))

unfoldable pub pass_sweep_decision {ℓ} :
    {C : Type ℓ} ⦃meta : MetaConditions C⦄
    → Printer
    → (Text → StationRead)
    → EphemerisSpec
    → EphemerisStatus C
    → Time
    → Text × Bool
unfolding pass_prediction_input_signature
pass_sweep_decision print get spec s now =
    if not (pass_prediction_configured spec) then ([], false) else elim spec.pass_prediction [
      | none ↦ ([], false)
      | some pp ↦
          let sig = pass_prediction_input_signature print get spec pp in
          (sig, pass_sweep_due s now sig)
    ]
