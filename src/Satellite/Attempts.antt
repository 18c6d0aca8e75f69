-- ===== src/Satellite/Attempts.antt =====
-- internal/controller/satelliteephemeris_controller.go: what propagateStates makes of one element
-- set.
use ntn_operators.Base.{
  ℕ, suc, ◌+◌, ◌≡◌, ◌⊎◌, refl, sym, ◌∙◌, subst, inl, inr, true, none, some, List, [], ◌∷◌, all, ltb,
  ltb_ℤ, pos, sub_time, Time, if◌then◌else◌, arith, Bool-cases, Option-cases,
}
use ntn_operators.Controller.Freshness.{max_epoch_age, source_epoch_plausible}
use ntn_operators.Passes.{Omm, Sgp4}
use ntn_operators.Satellite.{Ecef, PropagatedState}
use ntn_operators.Satellite.Canonical.{TimeParser, parse_omm_epoch}
use ntn_operators.Satellite.Propagate.{
  pushed_state, unix_milliseconds, in_ecef_range, refused, not_computable, propagated, EpochHealth,
  epoch_health, propagate_to_ecef, attempt,
}

-- Strictly ascending numbers.
abbrev pub IsAscending : List ℕ → Type 0
IsAscending [] = Unit
IsAscending (n ∷ ns) = (all (ltb n) ns ≡ true) × IsAscending ns

abbrev pub Every {ℓ κ} : {A : Type ℓ} → (A → Type κ) → List A → Type κ
Every P [] = Unit
Every P (x ∷ xs) = P x × Every P xs

pub above-head : (m n : ℕ) (ns : List ℕ) → all (ltb m) (n ∷ ns) ≡ true → ltb m n ≡ true
above-head m n ns h = ground (arith, h)

pub above-tail : (m n : ℕ) (ns : List ℕ) → all (ltb m) (n ∷ ns) ≡ true → all (ltb m) ns ≡ true
above-tail m n ns h = ground (arith, h)

pub above-cons :
    (m n : ℕ) (ns : List ℕ) → ltb m n ≡ true → all (ltb m) ns ≡ true → all (ltb m) (n ∷ ns) ≡ true
above-cons m n ns h k = ground (arith, h, k)

-- A state for the epoch, of the range that TS 38.331 gives.
abbrev pub IsPushed : Time → PropagatedState → Type 0
IsPushed epoch s = (s.epoch_unix_ms ≡ unix_milliseconds epoch) × (in_ecef_range s.ecef ≡ true)

abbrev pub rejected : EpochHealth → ℕ
rejected h = h.unparseable + h.future

none-some {ℓ} : {A : Type ℓ} {x : A} → ¬ (none ≡ some x)
none-some h = cc

some_inv {ℓ} : {A : Type ℓ} {x y : A} → some x ≡ some y → x ≡ y
some_inv h = cc

checked-in_range :
    (x e : Ecef) → (if in_ecef_range x then some x else none) ≡ some e → in_ecef_range e ≡ true
checked-in_range x e h = elim (Bool-cases (in_ecef_range x)) [
  | inl a ↦ subst (λ (y : Ecef). in_ecef_range y ≡ true) (some_inv (rw (a) at h)) a
  | inr a ↦ absurd (none-some (rw (a) at h))
]

module _ {ℓ} {Tle Eci E F : Type ℓ} (parse : TimeParser) (sgp4 : Sgp4 Tle Eci E F)
    (codepoints : Eci → Ecef) (now epoch : Time) where
  -- What an element set of the loop gives, against the counts of the first pass.
  abbrev AttemptView : Omm E F → Type ℓ
  AttemptView o =
      ((attempt parse sgp4 codepoints now epoch o ≡ refused)
        × ((os : List (Omm E F))
            → rejected (epoch_health parse now (o ∷ os))
              ≡ suc (rejected (epoch_health parse now os))))
      ⊎ (((os : List (Omm E F))
            → rejected (epoch_health parse now (o ∷ os)) ≡ rejected (epoch_health parse now os))
          × ((attempt parse sgp4 codepoints now epoch o ≡ not_computable)
              ⊎ ((s : PropagatedState) × (attempt parse sgp4 codepoints now epoch o ≡ propagated s)
                  × IsPushed epoch s
                  × (s.norad_id ≡ o.norad_cat_id))))

  unfold_ecef-no_tle :
      (o : Omm E F) → sgp4.to_tle o ≡ none → propagate_to_ecef parse sgp4 codepoints o epoch ≡ none
  unfolding propagate_to_ecef
  unfold_ecef-no_tle o a = rw (propagate_to_ecef, a)

  unfold_ecef-no_position :
      (o : Omm E F) (tle : Tle)
      → sgp4.to_tle o ≡ some tle
      → sgp4.find_position_at_time tle epoch ≡ none
      → propagate_to_ecef parse sgp4 codepoints o epoch ≡ none
  unfolding propagate_to_ecef
  unfold_ecef-no_position o tle a b = rw (propagate_to_ecef, a, b)

  unfold_ecef-checked :
      (o : Omm E F) (tle : Tle) (eci : Eci)
      → sgp4.to_tle o ≡ some tle
      → sgp4.find_position_at_time tle epoch ≡ some eci
      → propagate_to_ecef parse sgp4 codepoints o epoch
        ≡ (if in_ecef_range (codepoints eci) then some (codepoints eci) else none)
  unfolding propagate_to_ecef
  unfold_ecef-checked o tle eci a b = rw (propagate_to_ecef, a, b)

  ecef-in_range :
      (o : Omm E F) (e : Ecef)
      → propagate_to_ecef parse sgp4 codepoints o epoch ≡ some e
      → in_ecef_range e ≡ true
  unfolding propagate_to_ecef
  ecef-in_range o e h = elim (Option-cases (sgp4.to_tle o)) [
    | inl a ↦ absurd (none-some (sym (unfold_ecef-no_tle o a) ∙ h))
    | inr (tle, a) ↦ elim (Option-cases (sgp4.find_position_at_time tle epoch)) [
      | inl b ↦ absurd (none-some (sym (unfold_ecef-no_position o tle a b) ∙ h))
      | inr (eci, b) ↦
          checked-in_range (codepoints eci) e (sym (unfold_ecef-checked o tle eci a b) ∙ h)
    ]
  ]

  plausible-same :
      (o : Omm E F) (t : Time)
      → parse_omm_epoch parse o.epoch_str ≡ some t
      → source_epoch_plausible now t ≡ true
      → (os : List (Omm E F))
      → rejected (epoch_health parse now (o ∷ os)) ≡ rejected (epoch_health parse now os)
  unfolding epoch_health
  plausible-same o t e p os = elim (Bool-cases (ltb_ℤ (pos max_epoch_age) (sub_time now t))) [
    | inl a ↦ rw (epoch_health, e, p, a) refl
    | inr a ↦ rw (epoch_health, e, p, a) refl
  ]

  pub attempt-view : (o : Omm E F) → AttemptView o
  unfolding attempt epoch_health pushed_state
  attempt-view o = elim (Option-cases (parse_omm_epoch parse o.epoch_str)) [
    | inl e ↦ inl (rw (attempt, e), λ os. rw (epoch_health, e) (omega arith))
    | inr (t, e) ↦ elim (Bool-cases (source_epoch_plausible now t)) [
      | inr p ↦ inl (rw (attempt, e, p), λ os. rw (epoch_health, e, p) (omega arith))
      | inl p ↦ inr (
        plausible-same o t e p,
        elim (Option-cases (propagate_to_ecef parse sgp4 codepoints o epoch)) [
          | inl a ↦ inl (rw (attempt, e, p, a))
          | inr (ecef, a) ↦ inr (
            pushed_state epoch t o ecef,
            rw (attempt, e, p, a),
            (refl, ecef-in_range o ecef a),
            refl,
          )
        ],
      )
    ]
  ]
