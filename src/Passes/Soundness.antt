-- ===== src/Passes/Soundness.antt =====
-- pkg/ephemeris/pass_predictor.go: every pass that PredictPasses returns, from the conversion of the
-- element set to the cap.
use mathlib.Core.List.{flat_map}
use ntn_operators.Base.{
  ℕ, zero, suc, ◌-◌, ◌≤◌, ◌≡◌, refl, sym, subst, ap, inl, inr, Bool, true, ◌&&◌, not, Option, some,
  List, [], ◌∷◌, length, take, all, ltb, leb, ◌==◌, Text, byte_length, Time, truncate_second,
  all-append, arith, Bool-cases, Option-cases, if◌then◌else◌,
}
use ntn_operators.Float.{Float}
use ntn_operators.Passes.{
  Omm, GroundStation, PassResult, PassDetails, Sgp4, max_satellite_name_len,
  bounded_satellite_label, default_step_seconds,
}
use ntn_operators.Passes.Window.{conservative_pass_window}
use ntn_operators.Passes.Mask.{trim_pass_to_mask}
use ntn_operators.Passes.Cap.{Sorter}
use ntn_operators.Passes.Predict.{
  Query, pass_of, elevation_at, predict_single, predicted, conclude_passes,
}
use ntn_operators.Passes.Pool.{PoolState, passes_of, start_pool, Reach}
use ntn_operators.Passes.Bisection.{longest}
use ntn_operators.Passes.Trim.{trim_pass_to_mask-inside}
use ntn_operators.Passes.Rounding.{conservative_pass_window-IsRounded}
use ntn_operators.Passes.Schedules.{conclude-all}

length-byte_length : (s : Text) → length s ≤ byte_length s
length-byte_length [] = omega arith
length-byte_length (c ∷ s) = ground (arith, length-byte_length s)

take-length_le : {A : Type 0} (n : ℕ) (s : List A) → length s ≤ n → take n s ≡ s
take-length_le zero [] h = refl
take-length_le zero (x ∷ s) h = absurd (omega arith)
take-length_le (suc n) [] h = refl
take-length_le (suc n) (x ∷ s) h = ap (λ l. x ∷ l) (take-length_le n s (omega arith))

length-take_le : {A : Type 0} (n : ℕ) (s : List A) → length (take n s) ≤ n
length-take_le zero s = omega arith
length-take_le (suc n) [] = omega arith
length-take_le (suc n) (x ∷ s) = omega (arith, length-take_le n s)

clip-take :
    (n : ℕ) (name : Text)
    → (if leb (byte_length name) n then name else if ltb n (length name) then take n name else name)
      ≡ take n name
clip-take n name = ground (arith, length-byte_length name, take-length_le n name)

-- A label is the first 64 code points of the name.
label-take : (name : Text) → bounded_satellite_label name ≡ take max_satellite_name_len name
unfolding bounded_satellite_label
label-take name = clip-take max_satellite_name_len name

label-length : (name : Text) → length (bounded_satellite_label name) ≤ max_satellite_name_len
label-length name =
    subst (λ (l : Text). length l ≤ max_satellite_name_len) (sym (label-take name))
      (length-take_le max_satellite_name_len name)

module _ {ℓ} {F : Type ℓ} ⦃fl : Float F⦄ (q : Query F) where
  -- A pass window of the query: whole seconds, not empty, within the prediction window, with a peak
  -- that is not below the mask and a short label.
  abbrev pub is_sound : PassResult F → Bool
  is_sound p =
      leb q.start p.aos
      && ltb p.aos p.los
      && leb p.los q.stop
      && truncate_second p.aos == p.aos
      && truncate_second p.los == p.los
      && leb (length p.satellite) max_satellite_name_len
      && not (fl.lt p.max_elevation q.min_elevation)

  -- A pass of GeneratePasses: in the window that was asked for, with its peak between its ends.
  abbrev pub is_pass : PassDetails F → Bool
  is_pass p =
      leb q.start p.aos
      && leb p.aos p.max_elevation_time
      && leb p.max_elevation_time p.los
      && leb p.los q.stop

  pass_of-all :
      {E : Type ℓ} (omm : Omm E F) (gs : GroundStation F) (elev : Time → Option F)
      (p : PassDetails F)
      → q.stop - q.start ≤ longest
      → is_pass p ≡ true
      → all is_sound (pass_of omm gs elev q.min_elevation p) ≡ true
  unfolding pass_of
  pass_of-all omm gs elev p k h =
      let w = trim_pass_to_mask elev p q.min_elevation in
      let inside =
        trim_pass_to_mask-inside elev q.min_elevation p (ground (arith, h)) (ground (arith, h))
          (ground (arith, h, k)) in
      let r = conservative_pass_window-IsRounded w.0 w.1 in
      elim (Bool-cases (fl.lt p.max_elevation q.min_elevation)) [
        | inl e ↦ rw (pass_of, e) refl
        | inr e ↦ elim (Bool-cases (conservative_pass_window w.0 w.1).2) [
          | inr v ↦ rw (pass_of, e, v) refl
          | inl v ↦
              rw (pass_of, e, v)
                (ground (
                  arith,
                  r.inside_left,
                  r.inside_right,
                  r.stored_left,
                  r.stored_right,
                  r.valid_iff,
                  inside,
                  label-length omm.object_name,
                  e,
                  v,
                  h,
                ))
        ]
      ]

  all-flat_map :
      {A : Type ℓ} (good : PassResult F → Bool) (f : A → List (PassResult F)) (test : A → Bool)
      → ((x : A) → test x ≡ true → all good (f x) ≡ true)
      → (xs : List A) → all test xs ≡ true
      → all good (flat_map f xs) ≡ true
  unfolding flat_map
  all-flat_map good f test g [] h = refl
  all-flat_map good f test g (x ∷ xs) h =
      all-append good (f x) (flat_map f xs) (g x (ground (arith, h)))
        (all-flat_map good f test g xs (ground (arith, h)))

module _ {ℓ} {Tle Eci E F : Type ℓ} ⦃fl : Float F⦄ (sgp4 : Sgp4 Tle Eci E F) (q : Query F) where
  -- GeneratePasses gives passes of the window that it is asked for.
  abbrev pub IsGenerator : Type ℓ
  IsGenerator =
      (tle : Tle) (gs : GroundStation F) (ps : List (PassDetails F))
      → sgp4.generate_passes tle gs q.start q.stop default_step_seconds ≡ some ps
      → all (is_pass q) ps ≡ true

  predict_single-all :
      q.stop - q.start ≤ longest
      → IsGenerator
      → (w : Omm E F × GroundStation F)
      → all (is_sound q) (passes_of (predict_single sgp4 q w)) ≡ true
  unfolding predict_single
  predict_single-all k g (omm, gs) = elim (Option-cases (sgp4.to_tle omm)) [
    | inl e ↦ rw (predict_single, e) refl
    | inr (tle, e) ↦
        elim (Option-cases (sgp4.generate_passes tle gs q.start q.stop default_step_seconds)) [
          | inl d ↦ rw (predict_single, e, d) refl
          | inr (ps, d) ↦
              rw (predict_single, e, d)
                (all-flat_map q (is_sound q) _ (is_pass q)
                  (λ p h. pass_of-all q omm gs (elevation_at sgp4 tle gs) p k h) ps (g tle gs ps d))
        ]
  ]

  -- Every pass that PredictPasses returns, in any interleaving of its workers, is a window of whole
  -- seconds that is not empty and lies within the prediction window, has a peak that is not below the
  -- mask, and carries a label of at most 64 code points; GeneratePasses is taken to give passes of the
  -- window that it is asked for, with their peak between their ends, and that window to be at most
  -- 292 years long.
  pub predict-IsSound :
      ⦃sorter : Sorter F⦄ (work : List (Omm E F × GroundStation F))
      (s : PoolState (Omm E F × GroundStation F) F) (ps : List (PassResult F))
      → q.stop - q.start ≤ longest
      → IsGenerator
      → Reach (predict_single sgp4 q) (start_pool (predict_single sgp4 q) work) s
      → conclude_passes s.cancelled s.failed s.all_passes ≡ predicted ps
      → all (is_sound q) ps ≡ true
  predict-IsSound work s ps k g r h =
      conclude-all (predict_single sgp4 q) (is_sound q) (predict_single-all k g) work s ps r h
