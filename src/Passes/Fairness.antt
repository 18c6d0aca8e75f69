-- ===== src/Passes/Fairness.antt =====
-- pkg/ephemeris/pass_predictor.go: what capPerSatellite keeps.
use mathlib.Core.List.{Mem, mem-cons_self, mem-cons_of_mem, mem-append_left}
use mathlib.Core.List.Perm
use native.Mathlib.Nat.{mul-div-le, le-div_iff_mul-le}
use ntn_operators.Base.{
  ℕ, zero, suc, ◌+◌, ◌-◌, ◌*◌, ◌/◌, ◌≤◌, ◌<◌, ◌≡◌, refl, ◌∙◌, inl, inr, Bool, true, ◌&&◌, ltb, leb,
  List, [], ◌∷◌, ◌++◌, length, take, any, all, Text, text_eq, length-append, length-perm,
  all-append, all-perm, arith, Bool-cases, if◌then◌else◌,
}
use ntn_operators.Passes.{PassResult}
use ntn_operators.Passes.Shares.{
  occurrences, note, any-occurrences, note-keeps, note-has, note-once, IsShared, has_room,
  bump-IsShared, total,
}
use ntn_operators.Passes.Cap.{satellites, bump, share, quota_of, Sorter, cap_per_satellite}

module _ {ℓ} {F : Type ℓ} where
  satellites-keeps :
      (a : Text) (ps : List (PassResult F)) (seen : List Text)
      → any (text_eq a) seen ≡ true
      → any (text_eq a) (satellites seen ps) ≡ true
  unfolding satellites
  satellites-keeps a [] seen h = h
  satellites-keeps a (p ∷ ps) seen h =
      satellites-keeps a ps (note p.satellite seen) (note-keeps a p.satellite seen h)

  -- Every pass has its label in the map.
  satellites-all :
      (ps : List (PassResult F)) (seen : List Text)
      → all (λ (q : PassResult F). any (text_eq q.satellite) (satellites seen ps)) ps ≡ true
  unfolding satellites
  satellites-all [] seen = refl
  satellites-all (p ∷ ps) seen = ground (
    arith,
    satellites-keeps p.satellite ps (note p.satellite seen) (note-has p.satellite seen),
    satellites-all ps (note p.satellite seen),
  )

  -- No label is there twice.
  satellites-once :
      (ps : List (PassResult F)) (seen : List Text)
      → ((a : Text) → occurrences a seen ≤ 1)
      → (a : Text) → occurrences a (satellites seen ps) ≤ 1
  unfolding satellites
  satellites-once [] seen h a = h a
  satellites-once (p ∷ ps) seen h a =
      satellites-once ps (note p.satellite seen) (λ b. note-once b p.satellite seen h) a

  -- The passes of a satellite in a list.
  abbrev pub passes_of_satellite : Text → List (PassResult F) → ℕ
  passes_of_satellite a [] = 0
  passes_of_satellite a (p ∷ ps) =
      if text_eq p.satellite a then passes_of_satellite a ps + 1 else passes_of_satellite a ps

  module _ (labels : List Text) (quota limit : ℕ) (enough : length labels * quota ≤ limit)
      (once : (a : Text) → occurrences a labels ≤ 1) where
    -- A pass with fewer than quota passes of its satellite before it is kept.
    share-keeps :
        (before behind : List (PassResult F)) (p : PassResult F) (room : ℕ) (count : Text → ℕ)
        → IsShared labels quota limit enough room count
        → all (λ (q : PassResult F). any (text_eq q.satellite) labels) (before ++ (p ∷ behind))
          ≡ true
        → count p.satellite + passes_of_satellite p.satellite before < quota
        → Mem p ((share quota room count (before ++ (p ∷ behind))).0)
    unfolding share
    share-keeps [] behind p room count s k h =
        let r =
          has_room labels quota limit enough room count p.satellite s (ground (arith, h))
            (any-occurrences p.satellite labels (ground (arith, k))) in
        let t : ((ltb 0 room && ltb (count p.satellite) quota) ≡ true) = ground (arith, r, h) in
        rw (share, t) mem-cons_self
    share-keeps (q ∷ before) behind p room count s k h =
        elim (Bool-cases (ltb 0 room && ltb (count q.satellite) quota)) [
          | inl e ↦
              let s' =
                bump-IsShared labels quota limit enough room count q.satellite s (ground (arith, e))
                  (ground (arith, e))
                  (ground (arith, k, once q.satellite, any-occurrences q.satellite labels)) in
              rw (share, e)
                (mem-cons_of_mem q (
                  share-keeps before behind p (room - 1) (bump q.satellite count) s'
                    (ground (arith, k)) (ground (arith, h))))
          | inr e ↦
              rw (share, e)
                (share-keeps before behind p room count s (ground (arith, k)) (ground (arith, h)))
        ]

  share-length :
      (quota room : ℕ) (count : Text → ℕ) (ps : List (PassResult F))
      → length ((share quota room count ps).0) ≤ room
  unfolding share
  share-length quota room count [] = omega arith
  share-length quota room count (p ∷ ps) = ground (
    arith,
    share-length quota (room - 1) (bump p.satellite count) ps,
    share-length quota room count ps,
  )

  share-all :
      (good : PassResult F → Bool) (quota room : ℕ) (count : Text → ℕ) (ps : List (PassResult F))
      → all good ps ≡ true
      → (all good ((share quota room count ps).0) ≡ true)
        × (all good ((share quota room count ps).1) ≡ true)
  unfolding share
  share-all good quota room count [] h = (refl, refl)
  share-all good quota room count (p ∷ ps) h = ground (
    arith,
    share-all good quota (room - 1) (bump p.satellite count) ps,
    share-all good quota room count ps,
  )

  take-all :
      (good : PassResult F → Bool) (n : ℕ) (ps : List (PassResult F))
      → all good ps ≡ true
      → all good (take n ps) ≡ true
  take-all good zero ps h = refl
  take-all good (suc n) [] h = refl
  take-all good (suc n) (p ∷ ps) h = ground (arith, take-all good n ps)

  take-length : (n : ℕ) (ps : List (PassResult F)) → length (take n ps) ≤ n
  take-length zero ps = omega arith
  take-length (suc n) [] = omega arith
  take-length (suc n) (p ∷ ps) = omega (arith, take-length n ps)

mem-middle {ℓ} : {A : Type ℓ} (xs ys : List A) (a : A) → Mem a (xs ++ (a ∷ ys))
mem-middle [] ys a = mem-cons_self
mem-middle (x ∷ xs) ys a = mem-cons_of_mem x (mem-middle xs ys a)

all-middle {ℓ} :
    {A : Type ℓ} (f : A → Bool) (xs ys : List A) (a : A)
    → all f (xs ++ (a ∷ ys)) ≡ true
    → f a ≡ true
all-middle f [] ys a h = ground (arith, h)
all-middle f (x ∷ xs) ys a h = all-middle f xs ys a (ground (arith, h))

any-length {ℓ} : {A : Type ℓ} (f : A → Bool) (xs : List A) → any f xs ≡ true → 0 < length xs
any-length f [] h = ground (arith, h)
any-length f (x ∷ xs) h = omega arith

total-zero : (bs : List Text) → total (λ a. 0) bs ≡ 0
total-zero [] = refl
total-zero (b ∷ bs) = omega (arith, total-zero bs)

quota-enough : (limit n : ℕ) → 0 < n → n ≤ limit → n * quota_of limit n ≤ limit
quota-enough limit n p h =
    let one : 1 ≤ limit / n = (le-div_iff_mul-le p).1 (omega arith) in
    ground (arith, one, mul-div-le limit n)

module _ {ℓ} {F : Type ℓ} ⦃sorter : Sorter F⦄ where
  -- Never more than the limit.
  pub cap_per_satellite-length :
      (ps : List (PassResult F)) (limit : ℕ) → length (cap_per_satellite ps limit) ≤ limit
  unfolding cap_per_satellite
  cap_per_satellite-length ps limit = elim (Bool-cases (leb (length ps) limit)) [
    | inl e ↦ rw (cap_per_satellite, e) (ground (arith, e))
    | inr e ↦
        let quota = quota_of limit (length (satellites [] ps)) in
        let r = share quota limit (λ a. 0) ps in
        rw (cap_per_satellite, e)
          (omega (
            arith,
            length-perm (sorter.sort-perm (r.0 ++ take (limit - length r.0) r.1)),
            length-append r.0 (take (limit - length r.0) r.1),
            take-length (limit - length r.0) r.1,
            share-length quota limit (λ a. 0) ps,
          ))
  ]

  -- Nothing but the passes it was given.
  pub cap_per_satellite-all :
      (good : PassResult F → Bool) (ps : List (PassResult F)) (limit : ℕ)
      → all good ps ≡ true
      → all good (cap_per_satellite ps limit) ≡ true
  unfolding cap_per_satellite
  cap_per_satellite-all good ps limit h = elim (Bool-cases (leb (length ps) limit)) [
    | inl e ↦ rw (cap_per_satellite, e) h
    | inr e ↦
        let quota = quota_of limit (length (satellites [] ps)) in
        let r = share quota limit (λ a. 0) ps in
        let k = share-all good quota limit (λ a. 0) ps h in
        rw (cap_per_satellite, e)
          (all-perm good (sorter.sort-perm (r.0 ++ take (limit - length r.0) r.1))
            ∙ all-append good r.0 (take (limit - length r.0) r.1) k.0
                (take-all good (limit - length r.0) r.1 k.1))
  ]

  -- With no more satellites than the limit, every pass is kept that has fewer than a fair quota of
  -- passes of its satellite before it; so the first pass of every satellite is kept.
  pub cap_per_satellite-keeps :
      (before behind : List (PassResult F)) (p : PassResult F) (limit : ℕ)
      → let ps = before ++ (p ∷ behind) in
        let n = length (satellites [] ps) in
        n ≤ limit
        → passes_of_satellite p.satellite before < quota_of limit n
        → Mem p (cap_per_satellite ps limit)
  unfolding cap_per_satellite
  cap_per_satellite-keeps before behind p limit h k =
      let ps : List (PassResult F) = before ++ (p ∷ behind) in
      let labels = satellites [] ps in
      let quota = quota_of limit (length labels) in
      let r = share quota limit (λ a. 0) ps in
      elim (Bool-cases (leb (length ps) limit)) [
        | inl e ↦ rw (cap_per_satellite, e) (mem-middle before behind p)
        | inr e ↦
            rw (cap_per_satellite, e)
              ((Perm.mem_iff (sorter.sort-perm (r.0 ++ take (limit - length r.0) r.1))).1 (
                mem-append_left (take (limit - length r.0) r.1) (
                  share-keeps labels quota limit
                    (quota-enough limit (length labels)
                      (any-length _ labels (all-middle _ before behind p (satellites-all ps []))) h)
                    (satellites-once ps [] (λ a. omega arith)) before behind p limit (λ a. 0)
                    (record { spent = omega (arith, total-zero labels); fair = λ b. omega arith })
                    (satellites-all ps []) (omega (arith, k)))))
      ]
