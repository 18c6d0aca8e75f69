-- ===== src/Satellite/Picks.antt =====
-- internal/controller/satelliteephemeris_controller.go: which satellites canonicalizeOMMs
-- keeps.
use ntn_operators.Base.{
  ℕ, ◌≡◌, refl, sym, ◌∙◌, ap, subst, inl, inr, Bool, true, false, not, ◌&&◌, none, some, List, [],
  ◌∷◌, ◌++◌, map, all, all-perm, ltb, ◌==◌, ==_iff, arith, Bool-cases, Option-cases,
}
use ntn_operators.Base.Dict.{lookup, insert}
use ntn_operators.Passes.{Omm}
use ntn_operators.Satellite.Canonical.{
  norad_key, TimeParser, parse_omm_epoch, Pick, OmmSorter, is_newer, keep_best, best_picks,
  canonicalize_omms,
}

and-absorb : (a b : Bool) → (a && b) ≡ ((a && b) && a)
and-absorb a b = ground arith

and_assoc : (a b c : Bool) → b ≡ (b && c) → (a && b) ≡ ((a && b) && c)
and_assoc a b c h = ground (arith, h)

and-true : (a : Bool) → (a && true) ≡ a
and-true a = ground arith

and-shift : (a b c : Bool) → ((a && b) && c) ≡ (a && (b && c))
and-shift a b c = ground arith

pub above-both :
    (m n : ℕ) (ns : List ℕ)
    → (m == n) ≡ false
    → ltb n m ≡ false
    → all (ltb m) ns ≡ true
    → all (ltb m) (n ∷ ns) ≡ true
above-both m n ns d a h = ground (arith, h)

abbrev pub norads {ℓ} : {E F : Type ℓ} → List (Omm E F) → List ℕ
norads = map (λ o. o.norad_cat_id)

module _ {ℓ} {V : Type ℓ} where
  abbrev keys : List (ℕ × V) → List ℕ
  keys [] = []
  keys (e ∷ m) = e.0 ∷ keys m

  keys-insert_known :
      (k : ℕ) (v c : V) (m : List (ℕ × V)) → lookup k m ≡ some c → keys (insert k v m) ≡ keys m
  unfolding lookup insert
  keys-insert_known k v c [] h = absurd (cc)
  keys-insert_known k v c ((j, w) ∷ m) h = ground (arith, h, keys-insert_known k v c m)

  keys-insert_new :
      (k : ℕ) (v : V) (m : List (ℕ × V))
      → lookup k m ≡ none
      → keys (insert k v m) ≡ keys m ++ (k ∷ [])
  unfolding lookup insert
  keys-insert_new k v [] h = refl
  keys-insert_new k v ((j, w) ∷ m) h = ground (arith, h, keys-insert_new k v m)

  new-other :
      (k : ℕ) (m : List (ℕ × V)) → lookup k m ≡ none → all (λ (j : ℕ). not (j == k)) (keys m) ≡ true
  unfolding lookup
  new-other k [] h = refl
  new-other k ((j, w) ∷ m) h = ground (arith, h, new-other k m)

  known-tested :
      (p : ℕ → Bool) (k : ℕ) (c : V) (m : List (ℕ × V))
      → lookup k m ≡ some c
      → all p (keys m) ≡ (all p (keys m) && p k)
  unfolding lookup
  known-tested p k c [] h = absurd (cc)
  known-tested p k c ((j, w) ∷ m) h = elim (Bool-cases (j == k)) [
    | inl e ↦
        subst (λ (i : ℕ). (p j && all p (keys m)) ≡ ((p j && all p (keys m)) && p i))
          ((==_iff j k).0 e) (and-absorb (p j) (all p (keys m)))
    | inr e ↦ and_assoc (p j) (all p (keys m)) (p k) (known-tested p k c m (ground (arith, e, h)))
  ]

abbrev pub IsDistinct : List ℕ → Type 0
IsDistinct [] = Unit
IsDistinct (n ∷ ns) = (all (λ (m : ℕ). not (m == n)) ns ≡ true) × IsDistinct ns

all-snoc_eq : (p : ℕ → Bool) (ns : List ℕ) (k : ℕ) → all p (ns ++ (k ∷ [])) ≡ (all p ns && p k)
all-snoc_eq p [] k = ground arith
all-snoc_eq p (n ∷ ns) k = ground (arith, all-snoc_eq p ns k)

all-snoc :
    (p : ℕ → Bool) (ns : List ℕ) (k : ℕ)
    → all p ns ≡ true
    → p k ≡ true
    → all p (ns ++ (k ∷ [])) ≡ true
all-snoc p ns k h e = rw (all-snoc_eq p ns k, h, e) refl

append-IsDistinct :
    (ns : List ℕ) (k : ℕ)
    → all (λ (j : ℕ). not (j == k)) ns ≡ true
    → IsDistinct ns
    → IsDistinct (ns ++ (k ∷ []))
append-IsDistinct [] k h d = (refl, tt)
append-IsDistinct (n ∷ ns) k h d = (
  all-snoc (λ (m : ℕ). not (m == n)) ns k d.0 (ground (arith, h)),
  append-IsDistinct ns k (ground (arith, h)) d.1,
)

module _ {ℓ} {E F : Type ℓ} (parse : TimeParser) where
  -- The keys after a round: those before it, and the satellite of the element set.
  keep_best-keys :
      (o : Omm E F) (best : List (ℕ × Pick E F)) (p : ℕ → Bool)
      → all p (keys (keep_best parse o best)) ≡ (all p (keys best) && p o.norad_cat_id)
  unfolding keep_best
  keep_best-keys o best p = elim (Option-cases (lookup o.norad_cat_id best)) [
    | inl e ↦
        rw (keep_best, e, keys-insert_new o.norad_cat_id _ best e)
          (all-snoc_eq p (keys best) o.norad_cat_id)
    | inr (c, e) ↦ elim (Bool-cases (is_newer (parse_omm_epoch parse o.epoch_str) c.epoch)) [
      | inl f ↦
          rw (keep_best, e, f, keys-insert_known o.norad_cat_id _ c best e)
            (known-tested p o.norad_cat_id c best e)
      | inr f ↦ rw (keep_best, e, f) (known-tested p o.norad_cat_id c best e)
    ]
  ]

  keep_best-IsDistinct :
      (o : Omm E F) (best : List (ℕ × Pick E F))
      → IsDistinct (keys best)
      → IsDistinct (keys (keep_best parse o best))
  unfolding keep_best
  keep_best-IsDistinct o best d = elim (Option-cases (lookup o.norad_cat_id best)) [
    | inl e ↦
        rw (keep_best, e, keys-insert_new o.norad_cat_id _ best e)
          (append-IsDistinct (keys best) o.norad_cat_id (new-other o.norad_cat_id best e) d)
    | inr (c, e) ↦ elim (Bool-cases (is_newer (parse_omm_epoch parse o.epoch_str) c.epoch)) [
      | inl f ↦ rw (keep_best, e, f, keys-insert_known o.norad_cat_id _ c best e) d
      | inr f ↦ rw (keep_best, e, f) d
    ]
  ]

module _ {ℓ} {E F : Type ℓ} where
  -- The entries stand under the satellites of their element sets.
  abbrev IsKeyed : List (ℕ × Pick E F) → Type 0
  IsKeyed [] = Unit
  IsKeyed (e ∷ m) = (e.1.omm.norad_cat_id ≡ e.0) × IsKeyed m

  abbrev pub omms_of : List (ℕ × Pick E F) → List (Omm E F)
  omms_of = map (λ (e : ℕ × Pick E F). e.1.omm)

  insert-IsKeyed :
      (k : ℕ) (v : Pick E F) (m : List (ℕ × Pick E F))
      → v.omm.norad_cat_id ≡ k
      → IsKeyed m
      → IsKeyed (insert k v m)
  unfolding insert
  insert-IsKeyed k v [] e h = (e, tt)
  insert-IsKeyed k v ((j, w) ∷ m) e h = elim (Bool-cases (j == k)) [
    | inl f ↦ rw (insert, f) (e, h.1)
    | inr f ↦ rw (insert, f) (h.0, insert-IsKeyed k v m e h.1)
  ]

  pub keyed-norads : (m : List (ℕ × Pick E F)) → IsKeyed m → norads (omms_of m) ≡ keys m
  keyed-norads [] h = refl
  keyed-norads (e ∷ m) h = λ i. h.0 i ∷ keyed-norads m h.1 i

  all-norads :
      (p : ℕ → Bool) (os : List (Omm E F))
      → all (λ (o : Omm E F). p o.norad_cat_id) os ≡ all p (norads os)
  all-norads p [] = refl
  all-norads p (o ∷ os) = ap (λ b. p o.norad_cat_id && b) (all-norads p os)

module _ {ℓ} {E F : Type ℓ} (parse : TimeParser) where
  keep_best-IsKeyed :
      (o : Omm E F) (best : List (ℕ × Pick E F)) → IsKeyed best → IsKeyed (keep_best parse o best)
  unfolding keep_best
  keep_best-IsKeyed o best h = elim (Option-cases (lookup o.norad_cat_id best)) [
    | inl e ↦ rw (keep_best, e) (insert-IsKeyed o.norad_cat_id _ best refl h)
    | inr (c, e) ↦ elim (Bool-cases (is_newer (parse_omm_epoch parse o.epoch_str) c.epoch)) [
      | inl f ↦ rw (keep_best, e, f) (insert-IsKeyed o.norad_cat_id _ best refl h)
      | inr f ↦ rw (keep_best, e, f) h
    ]
  ]

  pub picks-IsKeyed :
      (os : List (Omm E F)) (best : List (ℕ × Pick E F))
      → IsKeyed best
      → IsKeyed (best_picks parse os best)
  unfolding best_picks
  picks-IsKeyed [] best h = h
  picks-IsKeyed (o ∷ os) best h =
      picks-IsKeyed os (keep_best parse o best) (keep_best-IsKeyed o best h)

  pub picks-IsDistinct :
      (os : List (Omm E F)) (best : List (ℕ × Pick E F))
      → IsDistinct (keys best)
      → IsDistinct (keys (best_picks parse os best))
  unfolding best_picks
  picks-IsDistinct [] best h = h
  picks-IsDistinct (o ∷ os) best h =
      picks-IsDistinct os (keep_best parse o best) (keep_best-IsDistinct parse o best h)

  picks-keys :
      (os : List (Omm E F)) (best : List (ℕ × Pick E F)) (p : ℕ → Bool)
      → all p (keys (best_picks parse os best)) ≡ (all p (keys best) && all p (norads os))
  unfolding best_picks
  picks-keys [] best p = sym (and-true (all p (keys best)))
  picks-keys (o ∷ os) best p =
      picks-keys os (keep_best parse o best) p
      ∙ ap (λ b. b && all p (norads os)) (keep_best-keys parse o best p)
      ∙ and-shift (all p (keys best)) (p o.norad_cat_id) (all p (norads os))

  -- The satellites of the result pass the tests that those of the response pass.
  pub canonical-tests :
      (sorter : OmmSorter E F) (os : List (Omm E F)) (p : ℕ → Bool)
      → all p (norads (canonicalize_omms parse sorter os)) ≡ all p (norads os)
  unfolding canonicalize_omms
  canonical-tests sorter os p =
      sym (all-norads p (canonicalize_omms parse sorter os))
      ∙ all-perm (λ (o : Omm E F). p o.norad_cat_id)
          (sorter.arrange-perm (omms_of (best_picks parse os [])))
      ∙ all-norads p (omms_of (best_picks parse os []))
      ∙ ap (all p) (keyed-norads (best_picks parse os []) (picks-IsKeyed os [] tt))
      ∙ picks-keys os [] p
