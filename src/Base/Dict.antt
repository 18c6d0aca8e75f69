-- ===== src/Base/Dict.antt =====
-- A Go map as an association list, over a key type with a Boolean equality.
use mathlib.Core.Path.{◌≡◌, refl, sym, subst, ◌∙◌}
use mathlib.Core.Logic.{◌↔◌, ◌⊎◌, inl, inr}
use mathlib.Core.Bool.{Bool, true, false}
use mathlib.Core.Option.{Option, none, some}
use mathlib.Core.List.{List, [], ◌∷◌}
use native.Mathlib.Omega.{arith}
use ntn_operators.Base.Tests.{Bool-cases, if◌then◌else◌}

pub record Key {ℓ} (K : Type ℓ) : Type ℓ where
  pub same : K → K → Bool
  pub same_iff : (a b : K) → (same a b ≡ true) ↔ (a ≡ b)

some_inv {κ} : {V : Type κ} {x y : V} → some x ≡ some y → x ≡ y
some_inv h = cc

none-some {κ} : {V : Type κ} {x : V} → ¬ (none ≡ some x)
none-some h = cc

module _ {ℓ κ} {K : Type ℓ} {V : Type κ} ⦃e : Key K⦄ where
  unfoldable pub lookup : K → List (K × V) → Option V
  lookup k [] = none
  lookup k ((j, v) ∷ m) = if e.same j k then some v else lookup k m

  unfoldable pub insert : K → V → List (K × V) → List (K × V)
  insert k v [] = (k, v) ∷ []
  insert k v ((j, w) ∷ m) = if e.same j k then (k, v) ∷ m else (j, w) ∷ insert k v m

  unfoldable pub delete : K → List (K × V) → List (K × V)
  delete k [] = []
  delete k ((j, v) ∷ m) = let rest = delete k m in if e.same j k then rest else (j, v) ∷ rest

  pub lookup-insert :
      (k j : K) (v : V) (m : List (K × V))
      → lookup j (insert k v m) ≡ (if e.same k j then some v else lookup j m)
  unfolding lookup insert
  lookup-insert k j v [] = refl
  lookup-insert k j v ((i, w) ∷ m) =
      ground (arith, e.same_iff k j, e.same_iff i k, e.same_iff i j, lookup-insert k j v m)

  pub lookup-delete :
      (k j : K) (m : List (K × V))
      → lookup j (delete k m) ≡ (if e.same k j then none else lookup j m)
  unfolding lookup delete
  lookup-delete k j [] = ground arith
  lookup-delete k j ((i, w) ∷ m) =
      ground (arith, e.same_iff k j, e.same_iff i k, e.same_iff i j, lookup-delete k j m)

  -- Go's `for k := range m { if p(k) { delete(m, k) } }`.
  unfoldable pub delete_where : (K → Bool) → List (K × V) → List (K × V)
  delete_where p [] = []
  delete_where p ((j, v) ∷ m) = let rest = delete_where p m in if p j then rest else (j, v) ∷ rest

  pub lookup-delete_where :
      (p : K → Bool) (k : K) (m : List (K × V))
      → lookup k (delete_where p m) ≡ (if p k then none else lookup k m)
  unfolding lookup delete_where
  lookup-delete_where p k [] = ground arith
  lookup-delete_where p k ((j, v) ∷ m) = elim (Bool-cases (e.same j k)) [
    | inr d ↦ ground (arith, d, lookup-delete_where p k m)
    | inl d ↦
        subst
          (λ (i : K).
            lookup k (delete_where p ((i, v) ∷ m)) ≡ (if p k then none else lookup k ((i, v) ∷ m)))
          (sym ((e.same_iff j k).0 d))
          (ground (arith, lookup-delete_where p k m, (e.same_iff k k).1 refl))
  ]

  -- Where an entry of a changed map comes from.
  pub insert_entry :
      (k j : K) (v s : V) (m : List (K × V))
      → lookup j (insert k v m) ≡ some s
      → ((k ≡ j) × (v ≡ s)) ⊎ (lookup j m ≡ some s)
  insert_entry k j v s m h = elim (Bool-cases (e.same k j)) [
    | inl d ↦ inl ((e.same_iff k j).0 d, some_inv (sym (rw (d) at (lookup-insert k j v m)) ∙ h))
    | inr d ↦ inr (sym (rw (d) at (lookup-insert k j v m)) ∙ h)
  ]

  pub delete_where_entry :
      (p : K → Bool) (k : K) (s : V) (m : List (K × V))
      → lookup k (delete_where p m) ≡ some s
      → (p k ≡ false) × (lookup k m ≡ some s)
  delete_where_entry p k s m h = elim (Bool-cases (p k)) [
    | inl d ↦ absurd (none-some (sym (rw (d) at (lookup-delete_where p k m)) ∙ h))
    | inr d ↦ (d, sym (rw (d) at (lookup-delete_where p k m)) ∙ h)
  ]
