-- ===== src/Passes/Cap.antt =====
-- pkg/ephemeris/pass_predictor.go: lessPass and capPerSatellite.
use mathlib.Core.List.{Perm, Pairwise}
use ntn_operators.Base.{
  ℕ, ◌+◌, ◌-◌, ◌/◌, ◌≡◌, Bool, false, not, ◌&&◌, ltb, leb, ◌==◌, List, [], ◌∷◌, ◌++◌, length, take,
  any, Text, text_eq, text_lt, if◌then◌else◌,
}
use ntn_operators.Passes.{PassResult}

abbrev pub bump : Text → (Text → ℕ) → Text → ℕ
bump a count b = if text_eq a b then count b + 1 else count b

abbrev pub quota_of : ℕ → ℕ → ℕ
quota_of limit n = let q = limit / n in if ltb q 1 then 1 else q

module _ {ℓ} {F : Type ℓ} where
  unfoldable pub less_pass : PassResult F → PassResult F → Bool
  less_pass a b =
      if not (a.aos == b.aos)
      then ltb a.aos b.aos
      else if not (text_eq a.satellite b.satellite)
      then text_lt a.satellite b.satellite
      else if not (text_eq a.ground_station b.ground_station)
      then text_lt a.ground_station b.ground_station
      else ltb a.los b.los

  abbrev pub NotLess : PassResult F → PassResult F → Type 0
  NotLess a b = less_pass b a ≡ false

  -- The keys of the map `seen`, of which nSat is the number.
  unfoldable pub satellites : List Text → List (PassResult F) → List Text
  satellites seen [] = seen
  satellites seen (p ∷ ps) =
      satellites (if any (text_eq p.satellite) seen then seen else p.satellite ∷ seen) ps

  -- The loop over the passes, with the map `count`: what it appends to kept and to leftover, where
  -- `room` is what is left of the limit.
  unfoldable pub share :
      ℕ → ℕ → (Text → ℕ) → List (PassResult F) → List (PassResult F) × List (PassResult F)
  share quota room count [] = ([], [])
  share quota room count (p ∷ ps) =
      let kept = share quota (room - 1) (bump p.satellite count) ps in
      let left = share quota room count ps in
      if ltb 0 room && ltb (count p.satellite) quota
      then (p ∷ kept.0, kept.1)
      else (left.0, p ∷ left.1)

-- sort.Slice with lessPass: a permutation in which no pass is less than an earlier one. Which of two
-- passes that are not less than one another comes first is not said.
pub record Sorter {ℓ} (F : Type ℓ) : Type ℓ where
  pub sort : List (PassResult F) → List (PassResult F)
  pub sort-perm : (l : List (PassResult F)) → Perm (sort l) l
  pub sort-ordered : (l : List (PassResult F)) → Pairwise NotLess (sort l)

module _ {ℓ} {F : Type ℓ} ⦃sorter : Sorter F⦄ where
  unfoldable pub cap_per_satellite : List (PassResult F) → ℕ → List (PassResult F)
  cap_per_satellite passes limit =
      if leb (length passes) limit
      then passes
      else let quota = quota_of limit (length (satellites [] passes)) in
        let r = share quota limit (λ a. 0) passes in
        sorter.sort (r.0 ++ take (limit - length r.0) r.1)
