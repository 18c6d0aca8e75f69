-- ===== src/Passes/Mask.antt =====
-- pkg/ephemeris/pass_predictor.go: trimPassToMask and refineMaskCrossing. An elevation function gives
-- `none` for an error.
use ntn_operators.Base.{
  ℕ, zero, suc, Bool, true, false, not, Option, none, some, Time, after, sub_time, add_time, half,
  pos, ltb_ℤ, if◌then◌else◌,
}
use ntn_operators.Float.{Float}
use ntn_operators.Passes.{PassDetails}

abbrev pub mask_crossing_iterations : ℕ
mask_crossing_iterations = 40

-- 200 ms
abbrev pub mask_crossing_tol : ℕ
mask_crossing_tol = 200000000

abbrev pub middle : Time → Time → Time
middle lo hi = add_time lo (half (sub_time hi lo))

abbrev pub usable_end : Bool → Time × Time → Time
usable_end rising b = if rising then b.1 else b.0

module _ {ℓ} {F : Type ℓ} ⦃fl : Float F⦄ where
  -- Whether the middle replaces the upper end of the bracket.
  abbrev pub moves_hi : F → F → Bool → Bool
  moves_hi mask el rising = let above = fl.le mask el in if rising then above else not above

  -- The loop, with the rounds that are left; the bracket where it stops.
  unfoldable pub bisect : ℕ → (Time → Option F) → F → Bool → Time → Time → Option (Time × Time)
  bisect zero elev mask rising lo hi = some (lo, hi)
  bisect (suc n) elev mask rising lo hi = elim (ltb_ℤ (pos mask_crossing_tol) (sub_time hi lo)) [
    | false ↦ some (lo, hi)
    | true ↦ elim (elev (middle lo hi)) [
      | none ↦ none
      | some el ↦ elim (moves_hi mask el rising) [
        | true ↦ bisect n elev mask rising lo (middle lo hi)
        | false ↦ bisect n elev mask rising (middle lo hi) hi
      ]
    ]
  ]

  unfoldable pub refine_mask_crossing : (Time → Option F) → Time → Time → F → Bool → Option Time
  refine_mask_crossing elev lo hi mask rising =
      elim (bisect mask_crossing_iterations elev mask rising lo hi) [
        | none ↦ none
        | some b ↦ some (usable_end rising b)
      ]

  -- One side of the pass: `edge` is the end to trim, and the bracket is [lo, hi].
  unfoldable pub trim_side : (Time → Option F) → F → Bool → Time → Time → Time → Time
  trim_side elev mask rising edge lo hi =
      if after hi lo
      then elim (elev edge) [
        | none ↦ edge
        | some el ↦
            if fl.lt el mask
            then elim (refine_mask_crossing elev lo hi mask rising) [ none ↦ edge | some t ↦ t ]
            else edge
      ]
      else edge

  unfoldable pub trim_pass_to_mask : (Time → Option F) → PassDetails F → F → Time × Time
  unfolding trim_side
  trim_pass_to_mask elev p mask = if fl.le mask fl.zero_float then (p.aos, p.los) else (
    trim_side elev mask true p.aos p.aos p.max_elevation_time,
    trim_side elev mask false p.los p.max_elevation_time p.los,
  )
