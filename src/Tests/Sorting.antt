-- ===== src/Tests/Sorting.antt =====
-- Insertion sort by lessPass, in the place of sort.Slice.
use mathlib.Core.List.{Perm, Pairwise, Pairwise-singleton, forall_mem-cons, Mem}
use mathlib.Core.List.Perm
use ntn_operators.Base.{inl, inr, List, [], ◌∷◌, ℤ, Bool-cases, if◌then◌else◌}
use ntn_operators.Passes.{PassResult}
use ntn_operators.Passes.Cap.{less_pass, NotLess, Sorter}
use ntn_operators.Passes.Order.{less_pass_asymm, NotLess-trans}

abbrev insert_pass : PassResult ℤ → List (PassResult ℤ) → List (PassResult ℤ)
insert_pass p [] = p ∷ []
insert_pass p (q ∷ qs) =
    let rest = insert_pass p qs in if less_pass q p then q ∷ rest else p ∷ q ∷ qs

abbrev sort_passes : List (PassResult ℤ) → List (PassResult ℤ)
sort_passes [] = []
sort_passes (p ∷ ps) = insert_pass p (sort_passes ps)

insert_pass-perm : (p : PassResult ℤ) (ps : List (PassResult ℤ)) → Perm (insert_pass p ps) (p ∷ ps)
insert_pass-perm p [] = Perm.rfl
insert_pass-perm p (q ∷ qs) = elim (Bool-cases (less_pass q p)) [
  | inl e ↦ rw (e) (Perm.trans (Perm.cons q (insert_pass-perm p qs)) (Perm.swap p q qs))
  | inr e ↦ rw (e) Perm.rfl
]

pub sort_passes-perm : (ps : List (PassResult ℤ)) → Perm (sort_passes ps) ps
sort_passes-perm [] = Perm.rfl
sort_passes-perm (p ∷ ps) =
    Perm.trans (insert_pass-perm p (sort_passes ps)) (Perm.cons p (sort_passes-perm ps))

NotLess-IsProp : (p q : PassResult ℤ) → IsProp (NotLess p q)
NotLess-IsProp p q = hlevel

below-cons :
    (p q : PassResult ℤ) (qs : List (PassResult ℤ))
    → NotLess p q
    → ((r : PassResult ℤ) → Mem r qs → NotLess p r)
    → (r : PassResult ℤ) → Mem r (q ∷ qs)
    → NotLess p r
below-cons p q qs h below = (forall_mem-cons (NotLess-IsProp p)).1 (h, below)

insert_pass-ordered :
    (p : PassResult ℤ) (ps : List (PassResult ℤ))
    → Pairwise NotLess ps
    → Pairwise NotLess (insert_pass p ps)
insert_pass-ordered p [] s = Pairwise-singleton _ p
insert_pass-ordered p (q ∷ qs) (Pairwise.cons below s) = elim (Bool-cases (less_pass q p)) [
  | inl e ↦ rw (e) (
      Pairwise.cons
        (λ r m.
          below-cons q p qs (less_pass_asymm q p e) below r
            ((Perm.mem_iff (insert_pass-perm p qs)).0 m))
        (insert_pass-ordered p qs s))
  | inr e ↦ rw (e) (
      Pairwise.cons (below-cons p q qs e (λ r m. NotLess-trans p q r e (below r m)))
        (Pairwise.cons below s))
]

pub sort_passes-ordered : (ps : List (PassResult ℤ)) → Pairwise NotLess (sort_passes ps)
sort_passes-ordered [] = Pairwise.nil
sort_passes-ordered (p ∷ ps) = insert_pass-ordered p (sort_passes ps) (sort_passes-ordered ps)

instance abbrev pub sorter : Sorter ℤ
sorter = record {
  sort = sort_passes;
  sort-perm = sort_passes-perm;
  sort-ordered = sort_passes-ordered;
}
