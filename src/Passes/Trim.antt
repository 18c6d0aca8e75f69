-- ===== src/Passes/Trim.antt =====
-- pkg/ephemeris/pass_predictor.go: the window that trimPassToMask leaves.
use ntn_operators.Base.{
  ◌-◌, ◌≤◌, ◌≡◌, ◌≢◌, sym, subst, ap, ◌∙◌, inl, inr, Bool, true, false, Option, none, some, Time,
  after, arith, Bool-cases, Option-cases, if◌then◌else◌,
}
use ntn_operators.Float.{Float, FloatLaws}
use ntn_operators.Passes.{PassDetails}
use ntn_operators.Passes.Mask.{usable_end, refine_mask_crossing, trim_side, trim_pass_to_mask}
use ntn_operators.Passes.Bisection.{longest, some_inv, IsUsable}
use ntn_operators.Passes.Crossing.{crossing-inside, found-IsCrossing, refine-total}

abbrev outer_end : Bool → Time → Time → Time
outer_end rising lo hi = if rising then lo else hi

outer_end-inside :
    (rising : Bool) (lo hi : Time)
    → lo ≤ hi
    → (lo ≤ outer_end rising lo hi) × (outer_end rising lo hi ≤ hi)
outer_end-inside true lo hi o = (omega arith, o)
outer_end-inside false lo hi o = (o, omega arith)

ends_meet :
    (rising : Bool) (lo hi : Time)
    → hi ≤ lo
    → lo ≤ hi
    → outer_end rising lo hi ≡ usable_end rising (lo, hi)
ends_meet true lo hi h o = omega arith
ends_meet false lo hi h o = omega arith

module _ {ℓ} {F : Type ℓ} ⦃fl : Float F⦄ where
  -- No elevation below the mask is known at this instant.
  abbrev pub NotBelow : (Time → Option F) → F → Time → Type ℓ
  NotBelow elev mask t = (el : F) → elev t ≡ some el → fl.lt el mask ≡ false

  pub record IsTrimmed (elev : Time → Option F) (mask : F) (lo hi r : Time) : Type ℓ where
    pub left : lo ≤ r
    pub right : r ≤ hi
    pub not_below : NotBelow elev mask r

  module _ (laws : FloatLaws fl) (elev : Time → Option F) (mask : F) where
    usable-NotBelow : (t : Time) → IsUsable elev mask t → NotBelow elev mask t
    usable-NotBelow t (el, e, h) el' e' =
        ap (λ x. fl.lt x mask) (some_inv (sym e' ∙ e)) ∙ laws.le_not_lt mask el h

    trim_side-IsTrimmed :
        (rising : Bool) (lo hi : Time)
        → lo ≤ hi
        → hi - lo ≤ longest
        → ((t : Time) → elev t ≢ none)
        → IsUsable elev mask (usable_end rising (lo, hi))
        → IsTrimmed elev mask lo hi (trim_side elev mask rising (outer_end rising lo hi) lo hi)
    unfolding trim_side
    trim_side-IsTrimmed rising lo hi o k known u = elim (Bool-cases (after hi lo)) [
      | inr h ↦
          rw (trim_side, h)
            (record {
              left = (outer_end-inside rising lo hi o).0;
              right = (outer_end-inside rising lo hi o).1;
              not_below =
                  subst (NotBelow elev mask) (sym (ends_meet rising lo hi (ground arith) o))
                    (usable-NotBelow _ u);
            })
      | inl h ↦ elim (Option-cases (elev (outer_end rising lo hi))) [
        | inl d ↦ absurd (known _ d)
        | inr (el, d) ↦ elim (Bool-cases (fl.lt el mask)) [
          | inr m ↦
              rw (trim_side, h, d, m)
                (record {
                  left = (outer_end-inside rising lo hi o).0;
                  right = (outer_end-inside rising lo hi o).1;
                  not_below = λ el' e'. ap (λ x. fl.lt x mask) (some_inv (sym e' ∙ d)) ∙ m;
                })
          | inl m ↦ elim (Option-cases (refine_mask_crossing elev lo hi mask rising)) [
            | inl r ↦ absurd (refine-total elev lo hi mask rising known r)
            | inr (t, r) ↦
                let c = found-IsCrossing elev lo hi mask rising t o k r in
                rw (trim_side, h, d, m, r)
                  (record {
                    left = (crossing-inside elev mask rising lo hi t c).0;
                    right = (crossing-inside elev mask rising lo hi t c).1;
                    not_below = usable-NotBelow t (c.usable u);
                  })
          ]
        ]
      ]
    ]

    -- Where the elevations are known and the peak is at the mask or above, the window that is left
    -- lies within the pass, holds the peak, and has no known elevation below a mask above zero at
    -- either end.
    pub trim_pass_to_mask-IsTrimmed :
        (p : PassDetails F)
        → p.aos ≤ p.max_elevation_time
        → p.max_elevation_time ≤ p.los
        → p.los - p.aos ≤ longest
        → ((t : Time) → elev t ≢ none)
        → IsUsable elev mask p.max_elevation_time
        → fl.le mask fl.zero_float ≡ false
        → IsTrimmed elev mask p.aos p.max_elevation_time ((trim_pass_to_mask elev p mask).0)
          × IsTrimmed elev mask p.max_elevation_time p.los ((trim_pass_to_mask elev p mask).1)
    unfolding trim_pass_to_mask
    trim_pass_to_mask-IsTrimmed p a l k known u z =
        rw (trim_pass_to_mask, z)
          (
            trim_side-IsTrimmed true p.aos p.max_elevation_time a (omega arith) known u,
            trim_side-IsTrimmed false p.max_elevation_time p.los l (omega arith) known u,
          )

  trim_side-inside :
      (elev : Time → Option F) (mask : F) (rising : Bool) (lo hi : Time)
      → lo ≤ hi
      → hi - lo ≤ longest
      → let r = trim_side elev mask rising (outer_end rising lo hi) lo hi in (lo ≤ r) × (r ≤ hi)
  unfolding trim_side
  trim_side-inside elev mask rising lo hi o k =
      let edge = outer_end-inside rising lo hi o in
      elim (Bool-cases (after hi lo)) [
        | inr h ↦ rw (trim_side, h) edge
        | inl h ↦ elim (Option-cases (elev (outer_end rising lo hi))) [
          | inl d ↦ rw (trim_side, h, d) edge
          | inr (el, d) ↦ elim (Bool-cases (fl.lt el mask)) [
            | inr m ↦ rw (trim_side, h, d, m) edge
            | inl m ↦ elim (Option-cases (refine_mask_crossing elev lo hi mask rising)) [
              | inl r ↦ rw (trim_side, h, d, m, r) edge
              | inr (t, r) ↦
                  let c = found-IsCrossing elev lo hi mask rising t o k r in
                  rw (trim_side, h, d, m, r) (crossing-inside elev mask rising lo hi t c)
            ]
          ]
        ]
      ]

  -- Whatever the elevations say and where they fail, the window lies within the pass.
  pub trim_pass_to_mask-inside :
      (elev : Time → Option F) (mask : F) (p : PassDetails F)
      → p.aos ≤ p.max_elevation_time
      → p.max_elevation_time ≤ p.los
      → p.los - p.aos ≤ longest
      → (p.aos ≤ (trim_pass_to_mask elev p mask).0) × ((trim_pass_to_mask elev p mask).1 ≤ p.los)
  unfolding trim_pass_to_mask
  trim_pass_to_mask-inside elev mask p a l k = elim (Bool-cases (fl.le mask fl.zero_float)) [
    | inl z ↦ rw (trim_pass_to_mask, z) (omega arith, omega arith)
    | inr z ↦
        rw (trim_pass_to_mask, z)
          (
            (trim_side-inside elev mask true p.aos p.max_elevation_time a (omega arith)).0,
            (trim_side-inside elev mask false p.max_elevation_time p.los l (omega arith)).1,
          )
  ]
