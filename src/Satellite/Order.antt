-- ===== src/Satellite/Order.antt =====
-- internal/controller/satelliteephemeris_controller.go: the order of what canonicalizeOMMs
-- gives.
use mathlib.Core.List.{Pairwise, Mem, forall_mem-cons, not-mem-nil, mem-cons_self, mem-cons_of_mem}
use mathlib.Core.List.Perm
use ntn_operators.Base.{
  ℕ, ◌≤◌, ◌≡◌, refl, sym, ◌∙◌, subst, Bool, true, false, not, ◌||◌, List, [], ◌∷◌, all, ltb, leb,
  ◌==◌, arith,
}
use ntn_operators.Passes.{Omm}
use ntn_operators.Satellite.Canonical.{
  norad_key, TimeParser, OmmSorter, best_picks, canonicalize_omms,
}
use ntn_operators.Satellite.Attempts.{IsAscending}
use ntn_operators.Satellite.Picks.{
  IsDistinct, above-both, canonical-tests, keyed-norads, norads, omms_of, picks-IsDistinct,
  picks-IsKeyed,
}

-- Two element sets of different satellites, and two of which the first does not come later.
abbrev Differ {ℓ} : {E F : Type ℓ} → Omm E F → Omm E F → Type 0
Differ a b = (a.norad_cat_id == b.norad_cat_id) ≡ false

abbrev pub NotAfter {ℓ} : {E F : Type ℓ} → Omm E F → Omm E F → Type 0
NotAfter a b = ltb b.norad_cat_id a.norad_cat_id ≡ false

module _ {ℓ} {E F : Type ℓ} where
  Differ-prop : (a b : Omm E F) → IsProp (Differ a b)
  Differ-prop a b = hlevel

  Differ-sym : (a b : Omm E F) → Differ a b → Differ b a
  Differ-sym a b h = ground (arith, h)

  all-Differ :
      (o : Omm E F) (os : List (Omm E F))
      → all (λ (m : ℕ). not (m == o.norad_cat_id)) (norads os) ≡ true
      → (r : Omm E F) → Mem r os
      → Differ o r
  all-Differ o [] h = λ r m. absurd (not-mem-nil m)
  all-Differ o (q ∷ os) h =
      (forall_mem-cons (Differ-prop o)).1 (ground (arith, h), all-Differ o os (ground (arith, h)))

  distinct-Differ : (os : List (Omm E F)) → IsDistinct (norads os) → Pairwise Differ os
  distinct-Differ [] h = Pairwise.nil
  distinct-Differ (o ∷ os) h = Pairwise.cons (all-Differ o os h.0) (distinct-Differ os h.1)

  all-above :
      (o : Omm E F) (os : List (Omm E F))
      → ((r : Omm E F) → Mem r os → Differ o r)
      → ((r : Omm E F) → Mem r os → NotAfter o r)
      → all (ltb o.norad_cat_id) (norads os) ≡ true
  all-above o [] d a = refl
  all-above o (q ∷ os) d a =
      above-both (o.norad_cat_id) (q.norad_cat_id) (norads os) (d q mem-cons_self)
        (a q mem-cons_self)
        (all-above o os (λ r m. d r (mem-cons_of_mem q m)) (λ r m. a r (mem-cons_of_mem q m)))

  ordered-IsAscending :
      (os : List (Omm E F)) → Pairwise Differ os → Pairwise NotAfter os → IsAscending (norads os)
  ordered-IsAscending [] d a = tt
  ordered-IsAscending (o ∷ os) (Pairwise.cons d ds) (Pairwise.cons a as_) =
      (all-above o os d a, ordered-IsAscending os ds as_)

  pub canonical-IsAscending :
      (parse : TimeParser) (sorter : OmmSorter E F) (os : List (Omm E F))
      → IsAscending (norads (canonicalize_omms parse sorter os))
  unfolding canonicalize_omms
  canonical-IsAscending parse sorter os =
      let picks = best_picks parse os [] in
      ordered-IsAscending (canonicalize_omms parse sorter os)
        (Perm.pairwise Differ-prop Differ-sym (Perm.symm (sorter.arrange-perm (omms_of picks))) (
          distinct-Differ (omms_of picks) (
            subst IsDistinct (sym (keyed-norads picks (picks-IsKeyed parse os [] tt)))
              (picks-IsDistinct parse os [] tt))))
        (sorter.arrange-ordered (omms_of picks))

-- Two lists that pass the same tests.
abbrev pub IsSame : List ℕ → List ℕ → Type 0
IsSame xs ys = (p : ℕ → Bool) → all p xs ≡ all p ys

leb-head : (x : ℕ) (xs : List ℕ) → all (ltb x) xs ≡ true → all (leb x) xs ≡ true
leb-head x [] h = refl
leb-head x (y ∷ ys) h = ground (arith, h, leb-head x ys (ground (arith, h)))

head-le : (x y : ℕ) (xs ys : List ℕ) → all (ltb x) xs ≡ true → IsSame (x ∷ xs) (y ∷ ys) → x ≤ y
head-le x y xs ys h e = ground (arith, leb-head x xs h, e (leb x))

skip-head :
    (x : ℕ) (xs : List ℕ) (p : ℕ → Bool)
    → all (ltb x) xs ≡ true
    → all (λ (z : ℕ). z == x || p z) (x ∷ xs) ≡ all p xs
skip-head x [] p h = ground arith
skip-head x (y ∷ ys) p h = ground (arith, h, skip-head x ys p (ground (arith, h)))

ascending_unique : (xs ys : List ℕ) → IsAscending xs → IsAscending ys → IsSame xs ys → xs ≡ ys
ascending_unique [] [] a b e = refl
ascending_unique [] (y ∷ ys) a b e = absurd (cc (e (λ z. false)))
ascending_unique (x ∷ xs) [] a b e = absurd (cc (e (λ z. false)))
ascending_unique (x ∷ xs) (y ∷ ys) a b e =
    let same : x ≡ y =
      omega (arith, head-le x y xs ys a.0 e, head-le y x ys xs b.0 (λ p. sym (e p))) in
    λ i.
      same i
      ∷ ascending_unique xs ys a.1 b.1
          (λ p.
            sym (skip-head x xs p a.0)
            ∙ e (λ (z : ℕ). z == x || p z)
            ∙ subst (λ (k : ℕ). all (λ (z : ℕ). z == k || p z) (y ∷ ys) ≡ all p ys) (sym same)
                (skip-head y ys p b.0))
          i

-- canonicalize_omms gives every satellite of a response once, in ascending order of the numbers, and
-- two responses that name the same satellites, in whatever order and however often, give the same
-- sequence of satellites.
pub canonicalize-IsCanonical {ℓ} :
    {E F : Type ℓ} (parse : TimeParser) (sorter : OmmSorter E F) (a b : List (Omm E F))
    → (let out = canonicalize_omms parse sorter a in
        IsAscending (norads out) × IsSame (norads out) (norads a))
      × (IsSame (norads a) (norads b)
          → norads (canonicalize_omms parse sorter a) ≡ norads (canonicalize_omms parse sorter b))
canonicalize-IsCanonical parse sorter a b = (
  (canonical-IsAscending parse sorter a, canonical-tests parse sorter a),
  λ e.
      ascending_unique (norads (canonicalize_omms parse sorter a))
        (norads (canonicalize_omms parse sorter b)) (canonical-IsAscending parse sorter a)
        (canonical-IsAscending parse sorter b)
        (λ p. canonical-tests parse sorter a p ∙ e p ∙ sym (canonical-tests parse sorter b p)),
)
