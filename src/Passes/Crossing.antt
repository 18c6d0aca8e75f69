-- ===== src/Passes/Crossing.antt =====
-- pkg/ephemeris/pass_predictor.go: the crossing that refineMaskCrossing finds.
use ntn_operators.Base.{
  ◌-◌, ◌≤◌, ◌≡◌, ◌≢◌, refl, sym, subst, ◌∙◌, inl, inr, Bool, true, false, Option, none, some, Time,
  arith, Option-cases,
}
use ntn_operators.Float.{Float}
use ntn_operators.Passes.Mask.{
  mask_crossing_iterations, mask_crossing_tol, bisect, usable_end, refine_mask_crossing,
}
use ntn_operators.Passes.Bisection.{
  longest, some_inv, none-some, IsUsable, IsOutside, IsRefined, bisect-IsRefined, bisect-total,
}

module _ {ℓ} {F : Type ℓ} ⦃fl : Float F⦄ where
  -- The refined crossing is usable where that end of [lo, hi] was, and it is one end of a bracket of at
  -- most 200 ms within [lo, hi]; at the other end the elevation is below the mask, unless that end is
  -- the one of [lo, hi].
  pub record IsCrossing (elev : Time → Option F) (mask : F) (rising : Bool) (lo hi t : Time)
      : Type ℓ where
    pub usable : IsUsable elev mask (usable_end rising (lo, hi)) → IsUsable elev mask t
    pub bracket : Time × Time
    pub is_end : usable_end rising bracket ≡ t
    pub begins : lo ≤ bracket.0
    pub ordered : bracket.0 ≤ bracket.1
    pub ends : bracket.1 ≤ hi
    pub narrow : bracket.1 - bracket.0 ≤ mask_crossing_tol
    pub outside : IsOutside elev mask rising (lo, hi) bracket

  IsCrossing-of :
      (elev : Time → Option F) (mask : F) (rising : Bool) (lo hi : Time) (b : Time × Time)
      → IsRefined elev mask rising lo hi b
      → b.1 - b.0 ≤ mask_crossing_tol
      → IsCrossing elev mask rising lo hi (usable_end rising b)
  IsCrossing-of elev mask rising lo hi b r n = record {
    usable = r.usable;
    bracket = b;
    is_end = refl;
    begins = r.left;
    ordered = r.ordered;
    ends = r.right;
    narrow = n;
    outside = r.outside;
  }

  pub crossing-inside :
      (elev : Time → Option F) (mask : F) (rising : Bool) (lo hi t : Time)
      → IsCrossing elev mask rising lo hi t
      → (lo ≤ t) × (t ≤ hi)
  crossing-inside elev mask true lo hi t c =
      (omega (arith, c.begins, c.ordered, c.is_end), omega (arith, c.ends, c.is_end))
  crossing-inside elev mask false lo hi t c =
      (omega (arith, c.begins, c.is_end), omega (arith, c.ends, c.ordered, c.is_end))

  refine-fail :
      (elev : Time → Option F) (lo hi : Time) (mask : F) (rising : Bool)
      → bisect mask_crossing_iterations elev mask rising lo hi ≡ none
      → refine_mask_crossing elev lo hi mask rising ≡ none
  unfolding refine_mask_crossing
  refine-fail elev lo hi mask rising d = rw (refine_mask_crossing, d) refl

  refine-found :
      (elev : Time → Option F) (lo hi : Time) (mask : F) (rising : Bool) (b : Time × Time)
      → bisect mask_crossing_iterations elev mask rising lo hi ≡ some b
      → refine_mask_crossing elev lo hi mask rising ≡ some (usable_end rising b)
  unfolding refine_mask_crossing
  refine-found elev lo hi mask rising b d = rw (refine_mask_crossing, d) refl

  pub found-IsCrossing :
      (elev : Time → Option F) (lo hi : Time) (mask : F) (rising : Bool) (t : Time)
      → lo ≤ hi
      → hi - lo ≤ longest
      → refine_mask_crossing elev lo hi mask rising ≡ some t
      → IsCrossing elev mask rising lo hi t
  unfolding refine_mask_crossing
  found-IsCrossing elev lo hi mask rising t o k e =
      elim (Option-cases (bisect mask_crossing_iterations elev mask rising lo hi)) [
        | inl d ↦ none-some (sym (refine-fail elev lo hi mask rising d) ∙ e)
        | inr (b, d) ↦
            let r = bisect-IsRefined elev mask rising mask_crossing_iterations lo hi b o k d in
            subst (IsCrossing elev mask rising lo hi)
              (some_inv (sym (refine-found elev lo hi mask rising b d) ∙ e))
              (IsCrossing-of elev mask rising lo hi b r.0 (r.1 (omega arith)))
      ]

  pub refine-total :
      (elev : Time → Option F) (lo hi : Time) (mask : F) (rising : Bool)
      → ((t : Time) → elev t ≢ none)
      → refine_mask_crossing elev lo hi mask rising ≢ none
  refine-total elev lo hi mask rising known e =
      elim (Option-cases (bisect mask_crossing_iterations elev mask rising lo hi)) [
        | inl d ↦ bisect-total elev mask rising known mask_crossing_iterations lo hi d
        | inr (b, d) ↦ none-some (sym e ∙ refine-found elev lo hi mask rising b d)
      ]

  -- The forty rounds are enough for every bracket that a Duration can measure. A crossing that is found
  -- is usable if that end of the bracket was, and lies within 200 ms of an instant of the bracket at
  -- which the elevation is below the mask, or of the other end of the bracket. One is found wherever
  -- the elevations are known.
  pub refine-IsCrossing :
      (elev : Time → Option F) (lo hi : Time) (mask : F) (rising : Bool)
      → lo ≤ hi
      → hi - lo ≤ longest
      → ((t : Time)
          → refine_mask_crossing elev lo hi mask rising ≡ some t
          → IsCrossing elev mask rising lo hi t)
        × (((t : Time) → elev t ≢ none) → refine_mask_crossing elev lo hi mask rising ≢ none)
  refine-IsCrossing elev lo hi mask rising o k =
      (λ t e. found-IsCrossing elev lo hi mask rising t o k e, refine-total elev lo hi mask rising)
