-- ===== src/Passes/Shares.antt =====
-- pkg/ephemeris/pass_predictor.go: the counting behind capPerSatellite's quota.
use native.Mathlib.Nat.{suc-mul}
use ntn_operators.Base.{
  ℕ, ◌+◌, ◌-◌, ◌*◌, ◌≤◌, ◌<◌, ◌≡◌, refl, ap, inl, inr, true, false, List, [], ◌∷◌, length, any,
  Text, text_eq, text_eq_iff, arith, Bool-cases, if◌then◌else◌,
}
use ntn_operators.Passes.Cap.{bump}

-- How often a label stands in a list of labels.
abbrev pub occurrences : Text → List Text → ℕ
occurrences a [] = 0
occurrences a (b ∷ bs) = if text_eq a b then occurrences a bs + 1 else occurrences a bs

-- What a map counts over a list of labels.
abbrev pub total : (Text → ℕ) → List Text → ℕ
total count [] = 0
total count (b ∷ bs) = count b + total count bs

total-bump :
    (a : Text) (count : Text → ℕ) (bs : List Text)
    → total (bump a count) bs ≡ total count bs + occurrences a bs
total-bump a count [] = refl
total-bump a count (b ∷ bs) = ground (arith, total-bump a count bs)

total-le :
    (count : Text → ℕ) (quota : ℕ) (bs : List Text)
    → ((b : Text) → count b ≤ quota)
    → total count bs ≤ length bs * quota
total-le count quota [] h = omega arith
total-le count quota (b ∷ bs) h =
    omega (arith, h b, total-le count quota bs h, suc-mul (length bs) quota)

total-lt :
    (count : Text → ℕ) (quota : ℕ) (a : Text) (bs : List Text)
    → ((b : Text) → count b ≤ quota)
    → count a < quota
    → 0 < occurrences a bs
    → total count bs < length bs * quota
total-lt count quota a [] h k o = omega arith
total-lt count quota a (b ∷ bs) h k o = elim (Bool-cases (text_eq a b)) [
  | inl e ↦
      let same : count a ≡ count b = ap count ((text_eq_iff a b).0 e) in
      omega (arith, same, total-le count quota bs h, suc-mul (length bs) quota)
  | inr e ↦
      omega (arith, h b, suc-mul (length bs) quota, total-lt count quota a bs h k (ground arith))
]

pub any-occurrences : (a : Text) (bs : List Text) → any (text_eq a) bs ≡ true → 0 < occurrences a bs
any-occurrences a [] h = ground arith
any-occurrences a (b ∷ bs) h = ground (arith, any-occurrences a bs)

not_any-occurrences :
    (a : Text) (bs : List Text) → any (text_eq a) bs ≡ false → occurrences a bs ≡ 0
not_any-occurrences a [] h = refl
not_any-occurrences a (b ∷ bs) h = ground (arith, not_any-occurrences a bs)

add_once :
    (b a : Text) (seen : List Text)
    → ((c : Text) → occurrences c seen ≤ 1)
    → occurrences a seen ≡ 0
    → occurrences b (a ∷ seen) ≤ 1
add_once b a seen h z = elim (Bool-cases (text_eq b a)) [
  | inl e ↦
      let same : occurrences b seen ≡ occurrences a seen =
        ap (λ c. occurrences c seen) ((text_eq_iff b a).0 e) in
      ground (arith, e, same, z)
  | inr e ↦ ground (arith, e, h b)
]

-- The map `seen` after one more pass.
abbrev pub note : Text → List Text → List Text
note a seen = if any (text_eq a) seen then seen else a ∷ seen

pub note-keeps :
    (b a : Text) (seen : List Text)
    → any (text_eq b) seen ≡ true
    → any (text_eq b) (note a seen) ≡ true
note-keeps b a seen h = ground arith

pub note-has : (a : Text) (seen : List Text) → any (text_eq a) (note a seen) ≡ true
note-has a seen = ground (arith, text_eq_iff a a)

pub note-once :
    (b a : Text) (seen : List Text)
    → ((c : Text) → occurrences c seen ≤ 1)
    → occurrences b (note a seen) ≤ 1
note-once b a seen h = elim (Bool-cases (any (text_eq a) seen)) [
  | inl e ↦ rw (e) (h b)
  | inr e ↦ rw (e) (add_once b a seen h (not_any-occurrences a seen e))
]

bump-fair :
    {quota : ℕ} (a : Text) (count : Text → ℕ) (b : Text)
    → count b ≤ quota
    → count a < quota
    → bump a count b ≤ quota
bump-fair a count b h k = elim (Bool-cases (text_eq a b)) [
  | inl e ↦
      let same : count a ≡ count b = ap count ((text_eq_iff a b).0 e) in ground (arith, e, same)
  | inr e ↦ ground (arith, e)
]

module _ (labels : List Text) (quota limit : ℕ) (enough : length labels * quota ≤ limit) where
  -- What the loop keeps true: the room is what the counts leave, and no count is above the quota.
  pub record IsShared (room : ℕ) (count : Text → ℕ) : Type 0 where
    pub spent : room + total count labels ≡ limit
    pub fair : (b : Text) → count b ≤ quota

  pub has_room :
      (room : ℕ) (count : Text → ℕ) (a : Text)
      → IsShared room count
      → count a < quota
      → 0 < occurrences a labels
      → 0 < room
  has_room room count a s k o =
      omega (arith, s.spent, total-lt count quota a labels s.fair k o, enough)

  pub bump-IsShared :
      (room : ℕ) (count : Text → ℕ) (a : Text)
      → IsShared room count
      → 0 < room
      → count a < quota
      → occurrences a labels ≡ 1
      → IsShared (room - 1) (bump a count)
  bump-IsShared room count a s r k o = record {
    spent = omega (arith, s.spent, total-bump a count labels);
    fair = λ b. bump-fair a count b (s.fair b) k;
  }
