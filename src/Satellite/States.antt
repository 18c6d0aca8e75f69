-- ===== src/Satellite/States.antt =====
-- internal/controller/satelliteephemeris_controller.go: the states that propagateStates records.
use ntn_operators.Base.{
  ℕ, suc, ◌+◌, ◌≤◌, ◌≡◌, refl, inl, inr, true, List, [], ◌∷◌, map, length, all, leb, ltb, Time,
  arith, Bool-cases,
}
use ntn_operators.Passes.{Omm, Sgp4}
use ntn_operators.Satellite.{Ecef, PropagatedState}
use ntn_operators.Satellite.Cadence.{max_propagated_states}
use ntn_operators.Satellite.Canonical.{TimeParser}
use ntn_operators.Satellite.Propagate.{Propagated, epoch_health, propagate_all}
use ntn_operators.Satellite.Capped.{IsCapped, propagate_all-IsCapped}
use ntn_operators.Satellite.Attempts.{
  Every, IsAscending, IsPushed, above-cons, above-head, above-tail, attempt-view, rejected,
}

module _ {ℓ} {Tle Eci E F : Type ℓ} (parse : TimeParser) (sgp4 : Sgp4 Tle Eci E F)
    (codepoints : Eci → Ecef) (now epoch : Time) where
  -- What the loop leaves of the element sets, from n states on.
  pub record IsCounted (n : ℕ) (omms : List (Omm E F)) (out : Propagated) : Type ℓ where
    pub pushed : Every (IsPushed epoch) out.states
    pub capped : n + length out.states ≤ max_propagated_states
    pub covered :
        length omms
        ≤ length out.states
          + length out.failed_norads
          + out.skipped_by_cap
          + rejected (epoch_health parse now omms)
    pub exact :
        out.skipped_by_cap ≡ 0
        → length omms
          ≡ length out.states + length out.failed_norads + rejected (epoch_health parse now omms)
    pub above :
        (m : ℕ)
        → all (ltb m) (map (λ (o : Omm E F). o.norad_cat_id) omms) ≡ true
        → all (ltb m) (map (λ (s : PropagatedState). s.norad_id) out.states) ≡ true
    pub ascending :
        IsAscending (map (λ (o : Omm E F). o.norad_cat_id) omms)
        → IsAscending (map (λ (s : PropagatedState). s.norad_id) out.states)

  IsCounted-full :
      (n : ℕ) (o : Omm E F) (os : List (Omm E F))
      → n ≤ max_propagated_states
      → IsCounted n
          (o ∷ os)
          (record { states = []; skipped_by_cap = length (o ∷ os); failed_norads = [] })
  IsCounted-full n o os h = record {
    pushed = tt;
    capped = omega arith;
    covered = omega arith;
    exact = λ e. omega (arith, e);
    above = λ m e. refl;
    ascending = λ e. tt;
  }

  IsCounted-nil :
      (n : ℕ)
      → n ≤ max_propagated_states
      → IsCounted n [] (record { states = []; skipped_by_cap = 0; failed_norads = [] })
  unfolding epoch_health
  IsCounted-nil n h = record {
    pushed = tt;
    capped = omega arith;
    covered = omega arith;
    exact = λ e. refl;
    above = λ m e. refl;
    ascending = λ e. tt;
  }

  IsCounted-refused :
      (n : ℕ) (o : Omm E F) (os : List (Omm E F)) (out : Propagated)
      → rejected (epoch_health parse now (o ∷ os)) ≡ suc (rejected (epoch_health parse now os))
      → IsCounted n os out
      → IsCounted n (o ∷ os) out
  IsCounted-refused n o os out r h = record {
    pushed = h.pushed;
    capped = h.capped;
    covered = omega (arith, h.covered, r);
    exact = λ e. omega (arith, h.exact e, r);
    above = λ m e. h.above m (above-tail m _ _ e);
    ascending = λ e. h.ascending e.1;
  }

  IsCounted-failed :
      (n : ℕ) (o : Omm E F) (os : List (Omm E F)) (out : Propagated)
      → rejected (epoch_health parse now (o ∷ os)) ≡ rejected (epoch_health parse now os)
      → IsCounted n os out
      → IsCounted n (o ∷ os) (record out { failed_norads = o.norad_cat_id ∷ out.failed_norads })
  IsCounted-failed n o os out r h = record {
    pushed = h.pushed;
    capped = h.capped;
    covered = omega (arith, h.covered, r);
    exact = λ e. omega (arith, h.exact e, r);
    above = λ m e. h.above m (above-tail m _ _ e);
    ascending = λ e. h.ascending e.1;
  }

  IsCounted-propagated :
      (n : ℕ) (o : Omm E F) (os : List (Omm E F)) (s : PropagatedState) (out : Propagated)
      → rejected (epoch_health parse now (o ∷ os)) ≡ rejected (epoch_health parse now os)
      → IsPushed epoch s
      → s.norad_id ≡ o.norad_cat_id
      → IsCounted (n + 1) os out
      → IsCounted n (o ∷ os) (record out { states = s ∷ out.states })
  IsCounted-propagated n o os s out r p k h = record {
    pushed = (p, h.pushed);
    capped = omega (arith, h.capped);
    covered = omega (arith, h.covered, r);
    exact = λ e. omega (arith, h.exact e, r);
    above = λ m e. rw k (above-cons m _ _ (above-head m _ _ e) (h.above m (above-tail m _ _ e)));
    ascending = λ e. (rw k (h.above o.norad_cat_id e.0), h.ascending e.1);
  }

  propagate_all-IsCounted :
      (n : ℕ) (omms : List (Omm E F))
      → n ≤ max_propagated_states
      → IsCounted n omms (propagate_all parse sgp4 codepoints now epoch n omms)
  unfolding propagate_all
  propagate_all-IsCounted n [] h = IsCounted-nil n h
  propagate_all-IsCounted n (o ∷ os) h = elim (Bool-cases (leb max_propagated_states n)) [
    | inl e ↦ rw (propagate_all, e) (IsCounted-full n o os h)
    | inr e ↦ elim (attempt-view parse sgp4 codepoints now epoch o) [
      | inl (a, r) ↦
          rw (propagate_all, e, a)
            (IsCounted-refused n o os _ (r os) (propagate_all-IsCounted n os h))
      | inr (r, inl a) ↦
          rw (propagate_all, e, a)
            (IsCounted-failed n o os _ (r os) (propagate_all-IsCounted n os h))
      | inr (r, inr (s, a, p, k)) ↦
          rw (propagate_all, e, a)
            (IsCounted-propagated n o os s _ (r os) p k
              (propagate_all-IsCounted (n + 1) os (ground (arith, e))))
    ]
  ]

  pub record IsSound (n : ℕ) (omms : List (Omm E F)) (out : Propagated) : Type ℓ where
    pub counted : IsCounted n omms out
    pub stopped : IsCapped parse sgp4 codepoints now epoch n omms out

  -- From n states on, with n at most 128, the loop splits the element sets into those before and those
  -- behind. It records the state of each set before, where its epoch parses, is plausible and it can
  -- be propagated, names each that has such an epoch and cannot be propagated, and counts the ones
  -- behind; there are such only where the states have reached 128. All states are for the epoch and in
  -- range, at most 128 with those before, and strictly ascending where the element sets are. Every
  -- element set gives a state, fails, is refused for its epoch in the first pass, or is beyond the
  -- cap, and no set is counted twice where none is beyond the cap.
  pub propagate_all-IsSound :
      (n : ℕ) (omms : List (Omm E F))
      → n ≤ max_propagated_states
      → IsSound n omms (propagate_all parse sgp4 codepoints now epoch n omms)
  propagate_all-IsSound n omms h = record {
    counted = propagate_all-IsCounted n omms h;
    stopped = propagate_all-IsCapped parse sgp4 codepoints now epoch n omms h;
  }
