-- ===== src/Satellite/Capped.antt =====
-- internal/controller/satelliteephemeris_controller.go: the loop of propagateStates, against what each
-- element set gives by itself.
use mathlib.Core.Option
use ntn_operators.Base.{
  ℕ, ◌+◌, ◌≤◌, ◌≡◌, ◌⊎◌, refl, ap, inl, inr, Bool, true, false, ◌&&◌, Option, none, some, List, [],
  ◌∷◌, ◌++◌, length, is_empty, Bool-cases, Option-cases, leb, arith, Time, if◌then◌else◌,
}
use ntn_operators.Controller.Freshness.{source_epoch_plausible}
use ntn_operators.Passes.{Omm, Sgp4}
use ntn_operators.Satellite.{Ecef, PropagatedState}
use ntn_operators.Satellite.Cadence.{max_propagated_states}
use ntn_operators.Satellite.Canonical.{TimeParser, parse_omm_epoch}
use ntn_operators.Satellite.Propagate.{
  Attempt, refused, not_computable, propagated, Propagated, pushed_state, propagate_to_ecef,
  attempt, propagate_all,
}

abbrev is_none {ℓ} : {A : Type ℓ} → Option A → Bool
is_none none = true
is_none (some x) = false

abbrev append_state {ℓ} : {A : Type ℓ} → Option A → List A → List A
append_state none xs = xs
append_state (some x) xs = x ∷ xs

Attempt-cases :
    (a : Attempt)
    → (a ≡ refused) ⊎ ((a ≡ not_computable) ⊎ ((s : PropagatedState) × (a ≡ propagated s)))
Attempt-cases refused = inl refl
Attempt-cases not_computable = inr (inl refl)
Attempt-cases (propagated s) = inr (inr (s, refl))

module _ {ℓ} {Tle Eci E F : Type ℓ} (parse : TimeParser) (sgp4 : Sgp4 Tle Eci E F)
    (codepoints : Eci → Ecef) (now epoch : Time) where
  -- The state of an element set whose epoch parses, is plausible now, and that can be propagated.
  abbrev pub state_of : Omm E F → Option PropagatedState
  state_of o = elim (parse_omm_epoch parse o.epoch_str) [
    | none ↦ none
    | some t ↦ elim (source_epoch_plausible now t) [
      | false ↦ none
      | true ↦ Option.map (pushed_state epoch t o) (propagate_to_ecef parse sgp4 codepoints o epoch)
    ]
  ]

  -- Its epoch is fine, and it cannot be propagated.
  abbrev pub fails : Omm E F → Bool
  fails o = elim (parse_omm_epoch parse o.epoch_str) [
    | none ↦ false
    | some t ↦
        source_epoch_plausible now t && is_none (propagate_to_ecef parse sgp4 codepoints o epoch)
  ]

  abbrev pub states_of : List (Omm E F) → List PropagatedState
  states_of [] = []
  states_of (o ∷ os) = append_state (state_of o) (states_of os)

  abbrev pub failures_of : List (Omm E F) → List ℕ
  failures_of [] = []
  failures_of (o ∷ os) =
      let rest = failures_of os in if fails o then o.norad_cat_id ∷ rest else rest

  -- The loop stops between two element sets, and only where the cap is reached. The ones before give
  -- their states and failures, the ones behind are counted.
  pub record IsCapped (n : ℕ) (omms : List (Omm E F)) (out : Propagated) : Type ℓ where
    pub before : List (Omm E F)
    pub behind : List (Omm E F)
    pub split : omms ≡ before ++ behind
    pub recorded : out.states ≡ states_of before
    pub failures : out.failed_norads ≡ failures_of before
    pub skipped : out.skipped_by_cap ≡ length behind
    pub full : is_empty behind ≡ false → n + length out.states ≡ max_propagated_states

  -- The attempt of the loop against the two descriptions.
  abbrev Agrees : Omm E F → Attempt → Type 0
  Agrees o refused = (state_of o ≡ none) × (fails o ≡ false)
  Agrees o not_computable = (state_of o ≡ none) × (fails o ≡ true)
  Agrees o (propagated s) = (state_of o ≡ some s) × (fails o ≡ false)

  attempt-Agrees : (o : Omm E F) → Agrees o (attempt parse sgp4 codepoints now epoch o)
  unfolding attempt
  attempt-Agrees o = elim (Option-cases (parse_omm_epoch parse o.epoch_str)) [
    | inl e ↦ rw (attempt, e) (rw (state_of, e) refl, rw (fails, e) refl)
    | inr (t, e) ↦ elim (Bool-cases (source_epoch_plausible now t)) [
      | inr p ↦ rw (attempt, e, p) (rw (state_of, e, p) refl, rw (fails, e, p) refl)
      | inl p ↦ elim (Option-cases (propagate_to_ecef parse sgp4 codepoints o epoch)) [
        | inl a ↦ rw (attempt, e, p, a) (rw (state_of, e, p, a) refl, rw (fails, e, p, a) refl)
        | inr (x, a) ↦ rw (attempt, e, p, a) (rw (state_of, e, p, a) refl, rw (fails, e, p, a) refl)
      ]
    ]
  ]

  IsCapped-more :
      (n m : ℕ) (o : Omm E F) (os : List (Omm E F)) (out next : Propagated)
      → next.states ≡ append_state (state_of o) out.states
      → next.failed_norads
        ≡ (if fails o then o.norad_cat_id ∷ out.failed_norads else out.failed_norads)
      → next.skipped_by_cap ≡ out.skipped_by_cap
      → n + length next.states ≡ m + length out.states
      → IsCapped m os out
      → IsCapped n (o ∷ os) next
  IsCapped-more n m o os out next s f k l h = record {
    before = o ∷ h.before;
    behind = h.behind;
    split = ap (λ (x : List (Omm E F)). o ∷ x) h.split;
    recorded = rw (s, h.recorded) refl;
    failures = rw (f, h.failures) refl;
    skipped = rw (k) (h.skipped);
    full = λ e. omega (arith, h.full e, l);
  }

  pub propagate_all-IsCapped :
      (n : ℕ) (omms : List (Omm E F))
      → n ≤ max_propagated_states
      → IsCapped n omms (propagate_all parse sgp4 codepoints now epoch n omms)
  unfolding propagate_all
  propagate_all-IsCapped n [] h = record {
    before = [];
    behind = [];
    split = refl;
    recorded = refl;
    failures = refl;
    skipped = refl;
    full = λ e. cc;
  }
  propagate_all-IsCapped n (o ∷ os) h = elim (Bool-cases (leb max_propagated_states n)) [
    | inl e ↦
        rw (propagate_all, e)
          (record {
            before = [];
            behind = o ∷ os;
            split = refl;
            recorded = refl;
            failures = refl;
            skipped = refl;
            full = λ k. ground (arith, e);
          })
    | inr e ↦
        let g = attempt-Agrees o in
        elim (Attempt-cases (attempt parse sgp4 codepoints now epoch o)) [
          | inl a ↦
              let (x, y) = rw (a) at g in
              rw (propagate_all, e, a)
                (IsCapped-more n n o os _ _ (rw (x) refl) (rw (y) refl) refl refl
                  (propagate_all-IsCapped n os h))
          | inr (inl a) ↦
              let (x, y) = rw (a) at g in
              rw (propagate_all, e, a)
                (IsCapped-more n n o os _ _ (rw (x) refl) (rw (y) refl) refl refl
                  (propagate_all-IsCapped n os h))
          | inr (inr (s, a)) ↦
              let (x, y) = rw (a) at g in
              rw (propagate_all, e, a)
                (IsCapped-more n (n + 1) o os _ _ (rw (x) refl) (rw (y) refl) refl (omega arith)
                  (propagate_all-IsCapped (n + 1) os (ground (arith, e))))
        ]
  ]
