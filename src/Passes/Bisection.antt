-- ===== src/Passes/Bisection.antt =====
-- pkg/ephemeris/pass_predictor.go: the bisection loop of refineMaskCrossing.
use ntn_operators.Base.{
  ℕ, zero, suc, ◌+◌, ◌-◌, ◌*◌, ◌/◌, ◌^◌, ◌≤◌, ◌≡◌, ◌≢◌, ◌⊎◌, if◌then◌else◌, refl, sym, subst, ◌∙◌,
  inl, inr, Bool, true, false, Option, none, some, Time, sub_time, pos, ltb_ℤ, arith, Bool-cases,
  Option-cases,
}
use ntn_operators.Float.{Float}
use ntn_operators.Passes.Mask.{mask_crossing_tol, middle, moves_hi, bisect, usable_end}

-- The longest stretch of time that a Duration holds, about 292 years.
abbrev pub longest : ℕ
longest = 2 ^ 63 - 1

pub sub_time-pos : (lo hi : Time) → lo ≤ hi → hi - lo ≤ longest → sub_time hi lo ≡ pos (hi - lo)
unfolding sub_time
sub_time-pos lo hi h k = ground arith

middle_lem : (lo hi : Time) → lo ≤ hi → hi - lo ≤ longest → middle lo hi ≡ lo + (hi - lo) / 2
middle_lem lo hi h k = rw (sub_time-pos lo hi h k) (omega arith)

-- The width of a bracket that n rounds bring down to the tolerance.
abbrev pub reach : ℕ → ℕ
reach zero = mask_crossing_tol
reach (suc n) = 2 * reach n

pub some_inv {ℓ} : {A : Type ℓ} {x y : A} → some x ≡ some y → x ≡ y
some_inv e = cc

pub none-some {ℓ κ} : {A : Type ℓ} {B : Type κ} {x : A} → none ≡ some x → B
none-some e = cc

abbrev pub other_end : Bool → Time × Time → Time
other_end rising b = if rising then b.0 else b.1

module _ {ℓ} {F : Type ℓ} ⦃fl : Float F⦄ where
  -- The elevation is known and at the mask or above.
  abbrev pub IsUsable : (Time → Option F) → F → Time → Type ℓ
  IsUsable elev mask t = (el : F) × (elev t ≡ some el) × (fl.le mask el ≡ true)

  -- The elevation is known and below the mask.
  abbrev pub IsUnusable : (Time → Option F) → F → Time → Type ℓ
  IsUnusable elev mask t = (el : F) × (elev t ≡ some el) × (fl.le mask el ≡ false)

  -- The end of b that is not taken is that of the first bracket, or the elevation there is below.
  abbrev pub IsOutside : (Time → Option F) → F → Bool → Time × Time → Time × Time → Type ℓ
  IsOutside elev mask rising first b =
      (other_end rising b ≡ other_end rising first) ⊎ IsUnusable elev mask (other_end rising b)

  pub record IsRefined (elev : Time → Option F) (mask : F) (rising : Bool) (lo hi : Time)
      (b : Time × Time) : Type ℓ where
    pub left : lo ≤ b.0
    pub ordered : b.0 ≤ b.1
    pub right : b.1 ≤ hi
    pub usable :
        IsUsable elev mask (usable_end rising (lo, hi)) → IsUsable elev mask (usable_end rising b)
    pub outside : IsOutside elev mask rising (lo, hi) b

  IsOutside-upper :
      (elev : Time → Option F) (mask : F) (rising : Bool) (lo m hi : Time) (el : F)
      (b : Time × Time)
      → elev m ≡ some el
      → moves_hi mask el rising ≡ true
      → IsOutside elev mask rising (lo, m) b
      → IsOutside elev mask rising (lo, hi) b
  IsOutside-upper elev mask true lo m hi el b e move h = h
  IsOutside-upper elev mask false lo m hi el b e move (inr u) = inr u
  IsOutside-upper elev mask false lo m hi el b e move (inl k) =
      inr (subst (IsUnusable elev mask) (sym k) (el, e, ground (arith, move)))

  IsOutside-lower :
      (elev : Time → Option F) (mask : F) (rising : Bool) (lo m hi : Time) (el : F)
      (b : Time × Time)
      → elev m ≡ some el
      → moves_hi mask el rising ≡ false
      → IsOutside elev mask rising (m, hi) b
      → IsOutside elev mask rising (lo, hi) b
  IsOutside-lower elev mask false lo m hi el b e move h = h
  IsOutside-lower elev mask true lo m hi el b e move (inr u) = inr u
  IsOutside-lower elev mask true lo m hi el b e move (inl k) =
      inr (subst (IsUnusable elev mask) (sym k) (el, e, move))

  IsUsable-upper :
      (elev : Time → Option F) (mask : F) (rising : Bool) (lo m hi : Time) (el : F)
      → elev m ≡ some el
      → moves_hi mask el rising ≡ true
      → IsUsable elev mask (usable_end rising (lo, hi))
      → IsUsable elev mask (usable_end rising (lo, m))
  IsUsable-upper elev mask true lo m hi el e move u = (el, e, move)
  IsUsable-upper elev mask false lo m hi el e move u = u

  IsUsable-lower :
      (elev : Time → Option F) (mask : F) (rising : Bool) (lo m hi : Time) (el : F)
      → elev m ≡ some el
      → moves_hi mask el rising ≡ false
      → IsUsable elev mask (usable_end rising (lo, hi))
      → IsUsable elev mask (usable_end rising (m, hi))
  IsUsable-lower elev mask true lo m hi el e move u = u
  IsUsable-lower elev mask false lo m hi el e move u = (el, e, ground (arith, move))

  module _ (elev : Time → Option F) (mask : F) (rising : Bool) where
    stop-IsRefined : (lo hi : Time) → lo ≤ hi → IsRefined elev mask rising lo hi (lo, hi)
    stop-IsRefined lo hi o = record {
      left = omega arith;
      ordered = o;
      right = omega arith;
      usable = λ u. u;
      outside = inl refl;
    }

    -- The middle replaces the upper end, or the lower one.
    upper-IsRefined :
        (lo m hi : Time) (el : F) (b : Time × Time)
        → m ≤ hi
        → elev m ≡ some el
        → moves_hi mask el rising ≡ true
        → IsRefined elev mask rising lo m b
        → IsRefined elev mask rising lo hi b
    upper-IsRefined lo m hi el b h e move r = record {
      left = r.left;
      ordered = r.ordered;
      right = omega (arith, r.right);
      usable = λ u. r.usable (IsUsable-upper elev mask rising lo m hi el e move u);
      outside = IsOutside-upper elev mask rising lo m hi el b e move r.outside;
    }

    lower-IsRefined :
        (lo m hi : Time) (el : F) (b : Time × Time)
        → lo ≤ m
        → elev m ≡ some el
        → moves_hi mask el rising ≡ false
        → IsRefined elev mask rising m hi b
        → IsRefined elev mask rising lo hi b
    lower-IsRefined lo m hi el b h e move r = record {
      left = omega (arith, r.left);
      ordered = r.ordered;
      right = r.right;
      usable = λ u. r.usable (IsUsable-lower elev mask rising lo m hi el e move u);
      outside = IsOutside-lower elev mask rising lo m hi el b e move r.outside;
    }

    bisect-stop :
        (n : ℕ) (lo hi : Time)
        → ltb_ℤ (pos mask_crossing_tol) (sub_time hi lo) ≡ false
        → bisect (suc n) elev mask rising lo hi ≡ some (lo, hi)
    unfolding bisect
    bisect-stop n lo hi h = rw (h, bisect) refl

    bisect-fail :
        (n : ℕ) (lo hi : Time)
        → ltb_ℤ (pos mask_crossing_tol) (sub_time hi lo) ≡ true
        → elev (middle lo hi) ≡ none
        → bisect (suc n) elev mask rising lo hi ≡ none
    unfolding bisect
    bisect-fail n lo hi h e = rw (bisect, h, e) refl

    bisect-upper :
        (n : ℕ) (lo hi : Time) (el : F)
        → ltb_ℤ (pos mask_crossing_tol) (sub_time hi lo) ≡ true
        → elev (middle lo hi) ≡ some el
        → moves_hi mask el rising ≡ true
        → bisect (suc n) elev mask rising lo hi ≡ bisect n elev mask rising lo (middle lo hi)
    unfolding bisect
    bisect-upper n lo hi el h e m = rw (bisect, h, e, m) refl

    bisect-lower :
        (n : ℕ) (lo hi : Time) (el : F)
        → ltb_ℤ (pos mask_crossing_tol) (sub_time hi lo) ≡ true
        → elev (middle lo hi) ≡ some el
        → moves_hi mask el rising ≡ false
        → bisect (suc n) elev mask rising lo hi ≡ bisect n elev mask rising (middle lo hi) hi
    unfolding bisect
    bisect-lower n lo hi el h e m = rw (bisect, h, e, m) refl

    at_start-IsRefined :
        (lo hi : Time) (w : ℕ) (b : Time × Time)
        → lo ≤ hi
        → (hi - lo ≤ w → hi - lo ≤ mask_crossing_tol)
        → (lo, hi) ≡ b
        → IsRefined elev mask rising lo hi b × (hi - lo ≤ w → b.1 - b.0 ≤ mask_crossing_tol)
    at_start-IsRefined lo hi w b o narrow e =
        subst
          (λ x. IsRefined elev mask rising lo hi x × (hi - lo ≤ w → x.1 - x.0 ≤ mask_crossing_tol))
          e (stop-IsRefined lo hi o, narrow)

    pub bisect-IsRefined :
        (n : ℕ) (lo hi : Time) (b : Time × Time)
        → lo ≤ hi
        → hi - lo ≤ longest
        → bisect n elev mask rising lo hi ≡ some b
        → IsRefined elev mask rising lo hi b × (hi - lo ≤ reach n → b.1 - b.0 ≤ mask_crossing_tol)
    unfolding bisect
    bisect-IsRefined zero lo hi b o k e =
        at_start-IsRefined lo hi (mask_crossing_tol) b o (λ w. w) (cc)
    bisect-IsRefined (suc n) lo hi b o k e =
        let c = middle_lem lo hi o k in
        elim (Bool-cases (ltb_ℤ (pos mask_crossing_tol) (sub_time hi lo))) [
          | inr h ↦
              at_start-IsRefined lo hi (reach (suc n)) b o
                (λ w. ground (arith, sub_time-pos lo hi o k, h))
                (some_inv (sym (bisect-stop n lo hi h) ∙ e))
          | inl h ↦ elim (Option-cases (elev (middle lo hi))) [
            | inl d ↦ none-some (sym (bisect-fail n lo hi h d) ∙ e)
            | inr (el, d) ↦ elim (Bool-cases (moves_hi mask el rising)) [
              | inl m ↦
                  let r =
                    bisect-IsRefined n lo (middle lo hi) b (omega (arith, c)) (omega (arith, c))
                      (sym (bisect-upper n lo hi el h d m) ∙ e) in
                  (
                    upper-IsRefined lo (middle lo hi) hi el b (omega (arith, c)) d m r.0,
                    λ w. r.1 (omega (arith, c)),
                  )
              | inr m ↦
                  let r =
                    bisect-IsRefined n (middle lo hi) hi b (omega (arith, c)) (omega (arith, c))
                      (sym (bisect-lower n lo hi el h d m) ∙ e) in
                  (
                    lower-IsRefined lo (middle lo hi) hi el b (omega (arith, c)) d m r.0,
                    λ w. r.1 (omega (arith, c)),
                  )
            ]
          ]
        ]

    -- Where the elevations are known the loop gives a bracket.
    pub bisect-total :
        ((t : Time) → elev t ≢ none)
        → (n : ℕ) (lo hi : Time) → bisect n elev mask rising lo hi ≢ none
    unfolding bisect
    bisect-total known zero lo hi e = cc
    bisect-total known (suc n) lo hi e =
        elim (Bool-cases (ltb_ℤ (pos mask_crossing_tol) (sub_time hi lo))) [
          | inr h ↦ none-some (sym e ∙ bisect-stop n lo hi h)
          | inl h ↦ elim (Option-cases (elev (middle lo hi))) [
            | inl d ↦ known (middle lo hi) d
            | inr (el, d) ↦ elim (Bool-cases (moves_hi mask el rising)) [
              | inl m ↦
                  bisect-total known n lo (middle lo hi) (sym (bisect-upper n lo hi el h d m) ∙ e)
              | inr m ↦
                  bisect-total known n (middle lo hi) hi (sym (bisect-lower n lo hi el h d m) ∙ e)
            ]
          ]
        ]
