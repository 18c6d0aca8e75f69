-- ===== src/Float.antt =====
-- float64, as a type with the operations that the program uses; the operators are Go's, so that a
-- comparison with a NaN is false. `parse_float` is strconv.ParseFloat, with `none` for its error.
-- `FloatLaws` states what IEEE 754 gives of these operations.
use ntn_operators.Base.{◌≡◌, Bool, true, false, Option, Text}

pub record Float {ℓ} (F : Type ℓ) : Type ℓ where
  pub zero_float : F
  pub add : F → F → F
  pub sub : F → F → F
  pub lt : F → F → Bool
  pub le : F → F → Bool
  pub is_nan : F → Bool
  pub is_inf : F → Bool
  pub parse_float : Text → Option F

pub record FloatLaws {ℓ} {F : Type ℓ} (fl : Float F) : Type ℓ where
  pub lt_not_le : (x y : F) → fl.lt x y ≡ true → fl.le y x ≡ false
  pub le_not_lt : (x y : F) → fl.le x y ≡ true → fl.lt y x ≡ false
  pub le_trans : (x y z : F) → fl.le x y ≡ true → fl.le y z ≡ true → fl.le x z ≡ true
  pub lt_le_trans : (x y z : F) → fl.lt x y ≡ true → fl.le y z ≡ true → fl.lt x z ≡ true
  pub le_lt_trans : (x y z : F) → fl.le x y ≡ true → fl.lt y z ≡ true → fl.lt x z ≡ true
  -- A finite value does not fall by adding a margin that is not negative, nor rise by taking it off.
  pub le-add :
      (x m : F)
      → fl.is_nan x ≡ false
      → fl.is_inf x ≡ false
      → fl.le fl.zero_float m ≡ true
      → fl.le x (fl.add x m) ≡ true
  pub sub-le :
      (x m : F)
      → fl.is_nan x ≡ false
      → fl.is_inf x ≡ false
      → fl.le fl.zero_float m ≡ true
      → fl.le (fl.sub x m) x ≡ true
