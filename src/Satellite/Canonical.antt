-- ===== src/Satellite/Canonical.antt =====
-- internal/controller/satelliteephemeris_controller.go: parseOMMEpoch and canonicalizeOMMs.
use mathlib.Core.List.{Perm, Pairwise}
use ntn_operators.Base.{
  ℕ, ◌≡◌, Bool, true, false, Option, none, some, List, [], ◌∷◌, map, Text, codes, Time, after, ltb,
  ◌==◌, ==_iff, if◌then◌else◌,
}
use ntn_operators.Base.Dict.{Key, lookup, insert}
use ntn_operators.Passes.{Omm}

instance abbrev pub norad_key : Key ℕ
norad_key = record { same = λ a b. a == b; same_iff = ==_iff }

-- time.Parse, with `none` for its error.
abbrev pub TimeParser : Type 0
TimeParser = Text → Text → Option Time

abbrev pub omm_epoch_layouts : List Text
omm_epoch_layouts =
    codes "2006-01-02T15:04:05.000000"
    ∷ codes "2006-01-02T15:04:05"
    ∷ codes "2006-01-02T15:04:05.999999999Z07:00"
    ∷ codes "2006-01-02T15:04:05Z07:00"
    ∷ []

abbrev first_parsed : TimeParser → Text → List Text → Option Time
first_parsed parse s [] = none
first_parsed parse s (l ∷ ls) = elim (parse l s) [
  | some t ↦ some t
  | none ↦ first_parsed parse s ls
]

unfoldable pub parse_omm_epoch : TimeParser → Text → Option Time
parse_omm_epoch parse s = first_parsed parse s omm_epoch_layouts

-- The best element set of a satellite, with its epoch where it parses.
pub record Pick {ℓ} (E F : Type ℓ) : Type ℓ where
  pub omm : Omm E F
  pub epoch : Option Time

-- sort.Slice by NoradCatID on what `range best` gives: some sorted arrangement of it.
pub record OmmSorter {ℓ} (E F : Type ℓ) : Type ℓ where
  pub arrange : List (Omm E F) → List (Omm E F)
  pub arrange-perm : (l : List (Omm E F)) → Perm (arrange l) l
  pub arrange-ordered :
      (l : List (Omm E F))
      → Pairwise (λ (a b : Omm E F). ltb b.norad_cat_id a.norad_cat_id ≡ false) (arrange l)

abbrev pub is_newer : Option Time → Option Time → Bool
is_newer none u = false
is_newer (some t) none = true
is_newer (some t) (some u) = after t u

module _ {ℓ} {E F : Type ℓ} (parse : TimeParser) where
  -- One round of the loop over the element sets.
  unfoldable pub keep_best : Omm E F → List (ℕ × Pick E F) → List (ℕ × Pick E F)
  keep_best o best =
      let pick : Pick E F = record { omm = o; epoch = parse_omm_epoch parse o.epoch_str } in
      elim (lookup o.norad_cat_id best) [
        | none ↦ insert o.norad_cat_id pick best
        | some cur ↦
            if is_newer (parse_omm_epoch parse o.epoch_str) cur.epoch
            then insert o.norad_cat_id pick best
            else best
      ]

  unfoldable pub best_picks : List (Omm E F) → List (ℕ × Pick E F) → List (ℕ × Pick E F)
  best_picks [] best = best
  best_picks (o ∷ os) best = best_picks os (keep_best o best)

  unfoldable pub canonicalize_omms : OmmSorter E F → List (Omm E F) → List (Omm E F)
  canonicalize_omms sorter omms =
      sorter.arrange (map (λ (e : ℕ × Pick E F). e.1.omm) (best_picks omms []))
