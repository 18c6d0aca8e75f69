-- ===== src/Tests/Arranging.antt =====
-- Insertion sort by the numbers of the satellites, in the place of sort.Slice.
use mathlib.Core.List.{Perm, Pairwise, Pairwise-singleton, forall_mem-cons, Mem}
use mathlib.Core.List.Perm
use ntn_operators.Base.{inl, inr, List, [], ◌∷◌, ltb, Bool-cases, if◌then◌else◌, arith}
use ntn_operators.Passes.{Omm}
use ntn_operators.Satellite.Canonical.{OmmSorter}
use ntn_operators.Satellite.Order.{NotAfter}

module _ {ℓ} {E F : Type ℓ} where
  abbrev insert_omm : Omm E F → List (Omm E F) → List (Omm E F)
  insert_omm p [] = p ∷ []
  insert_omm p (q ∷ qs) =
      let rest = insert_omm p qs in
      if ltb q.norad_cat_id p.norad_cat_id then q ∷ rest else p ∷ q ∷ qs

  abbrev sort_omms : List (Omm E F) → List (Omm E F)
  sort_omms [] = []
  sort_omms (p ∷ ps) = insert_omm p (sort_omms ps)

  insert_omm-perm : (p : Omm E F) (ps : List (Omm E F)) → Perm (insert_omm p ps) (p ∷ ps)
  insert_omm-perm p [] = Perm.rfl
  insert_omm-perm p (q ∷ qs) = elim (Bool-cases (ltb q.norad_cat_id p.norad_cat_id)) [
    | inl e ↦ rw (e) (Perm.trans (Perm.cons q (insert_omm-perm p qs)) (Perm.swap p q qs))
    | inr e ↦ rw (e) Perm.rfl
  ]

  pub sort_omms-perm : (ps : List (Omm E F)) → Perm (sort_omms ps) ps
  sort_omms-perm [] = Perm.rfl
  sort_omms-perm (p ∷ ps) =
      Perm.trans (insert_omm-perm p (sort_omms ps)) (Perm.cons p (sort_omms-perm ps))

  NotAfter-IsProp : (p q : Omm E F) → IsProp (NotAfter p q)
  NotAfter-IsProp p q = hlevel

  NotAfter-trans : (p q r : Omm E F) → NotAfter p q → NotAfter q r → NotAfter p r
  NotAfter-trans p q r h k = ground (arith, h, k)

  below-cons :
      (p q : Omm E F) (qs : List (Omm E F))
      → NotAfter p q
      → ((r : Omm E F) → Mem r qs → NotAfter p r)
      → (r : Omm E F) → Mem r (q ∷ qs)
      → NotAfter p r
  below-cons p q qs h below = (forall_mem-cons (NotAfter-IsProp p)).1 (h, below)

  insert_omm-ordered :
      (p : Omm E F) (ps : List (Omm E F))
      → Pairwise NotAfter ps
      → Pairwise NotAfter (insert_omm p ps)
  insert_omm-ordered p [] s = Pairwise-singleton _ p
  insert_omm-ordered p (q ∷ qs) (Pairwise.cons below s) =
      elim (Bool-cases (ltb q.norad_cat_id p.norad_cat_id)) [
        | inl e ↦ rw (e) (
            Pairwise.cons
              (λ r m.
                below-cons q p qs (ground (arith, e)) below r
                  ((Perm.mem_iff (insert_omm-perm p qs)).0 m))
              (insert_omm-ordered p qs s))
        | inr e ↦ rw (e) (
            Pairwise.cons (below-cons p q qs e (λ r m. NotAfter-trans p q r e (below r m)))
              (Pairwise.cons below s))
      ]

  pub sort_omms-ordered : (ps : List (Omm E F)) → Pairwise NotAfter (sort_omms ps)
  sort_omms-ordered [] = Pairwise.nil
  sort_omms-ordered (p ∷ ps) = insert_omm-ordered p (sort_omms ps) (sort_omms-ordered ps)

abbrev pub omm_sorter {ℓ} : {E F : Type ℓ} → OmmSorter E F
omm_sorter = record {
  arrange = sort_omms;
  arrange-perm = sort_omms-perm;
  arrange-ordered = sort_omms-ordered;
}
