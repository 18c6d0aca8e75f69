-- ===== src/Base/Perms.antt =====
-- What a permutation keeps, over the native numbers.
use Prim.Native.Nat.{suc}
use native.Mathlib.Nat.{ℕ_set}
use mathlib.Core.Path.{◌≡◌, refl, sym, ◌∙◌, ap}
use mathlib.Core.Bool.{Bool, true, ◌&&◌, Bool-set}
use mathlib.Core.List.{List, [], ◌∷◌, Perm, foldr}
use mathlib.Core.List.Perm
use native.Mathlib.Omega.{arith}
use ntn_operators.Base.Lists.{length, all}

swap_and : (a b c : Bool) → (a && (b && c)) ≡ (b && (a && c))
swap_and a b c = ground arith

module _ {ℓ} {A : Type ℓ} where
  length-foldr : (xs : List A) → foldr (λ x n. suc n) 0 xs ≡ length xs
  length-foldr [] = refl
  length-foldr (x ∷ xs) = ap suc (length-foldr xs)

  pub length-perm : {xs ys : List A} → Perm xs ys → length xs ≡ length ys
  length-perm {xs} {ys} p =
      sym (length-foldr xs)
      ∙ Perm.foldr-eq ℕ_set (λ x n. suc n) (λ a b x. refl) p 0
      ∙ length-foldr ys

  all-foldr : (p : A → Bool) (xs : List A) → foldr (λ x b. p x && b) true xs ≡ all p xs
  all-foldr p [] = refl
  all-foldr p (x ∷ xs) = ap (λ b. p x && b) (all-foldr p xs)

  pub all-perm : (p : A → Bool) {xs ys : List A} → Perm xs ys → all p xs ≡ all p ys
  all-perm p {xs} {ys} h =
      sym (all-foldr p xs)
      ∙ Perm.foldr-eq Bool-set (λ x b. p x && b) (λ a b x. swap_and (p a) (p b) x) h true
      ∙ all-foldr p ys
