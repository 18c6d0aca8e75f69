-- ===== src/Passes/Order.antt =====
-- pkg/ephemeris/pass_predictor.go: the order of lessPass.
use ntn_operators.Base.{◌≡◌, refl, true, false, [], ◌∷◌, Text, text_eq, text_lt, arith}
use ntn_operators.Passes.{PassResult}
use ntn_operators.Passes.Cap.{less_pass, NotLess}

text_lt-eq : (s t : Text) → text_eq s t ≡ true → text_lt s t ≡ false
text_lt-eq [] [] h = refl
text_lt-eq [] (d ∷ t) h = ground (arith, h)
text_lt-eq (c ∷ s) [] h = refl
text_lt-eq (c ∷ s) (d ∷ t) h = ground (arith, h, text_lt-eq s t)

text_eq_trans : (s t u : Text) → text_eq s t ≡ true → text_eq t u ≡ true → text_eq s u ≡ true
text_eq_trans [] [] u h k = k
text_eq_trans [] (d ∷ t) u h k = ground (arith, h)
text_eq_trans (c ∷ s) [] u h k = ground (arith, h)
text_eq_trans (c ∷ s) (d ∷ t) [] h k = ground (arith, k)
text_eq_trans (c ∷ s) (d ∷ t) (e ∷ u) h k = ground (arith, h, k, text_eq_trans s t u)

-- s is not before t, and t is not before u.
text_lt_trans :
    (s t u : Text)
    → text_lt s t ≡ false
    → text_lt t u ≡ false
    → (text_lt s u ≡ false) × (text_eq s u ≡ true → (text_eq s t ≡ true) × (text_eq t u ≡ true))
text_lt_trans s [] [] h k = (refl, λ e. (e, refl))
text_lt_trans s [] (e ∷ u) h k = ground (arith, k)
text_lt_trans [] (d ∷ t) u h k = ground (arith, h)
text_lt_trans (c ∷ s) (d ∷ t) [] h k = (refl, λ e. ground (arith, e))
text_lt_trans (c ∷ s) (d ∷ t) (e ∷ u) h k = ground (arith, h, k, text_lt_trans s t u)

text_eq_symm : (s t : Text) → text_eq s t ≡ true → text_eq t s ≡ true
text_eq_symm [] [] h = refl
text_eq_symm [] (d ∷ t) h = ground (arith, h)
text_eq_symm (c ∷ s) [] h = ground (arith, h)
text_eq_symm (c ∷ s) (d ∷ t) h = ground (arith, h, text_eq_symm s t)

text_lt_asymm : (s t : Text) → text_lt s t ≡ true → text_lt t s ≡ false
text_lt_asymm s [] h = ground (arith, h)
text_lt_asymm [] (d ∷ t) h = refl
text_lt_asymm (c ∷ s) (d ∷ t) h = ground (arith, h, text_lt_asymm s t)

module _ {ℓ} {F : Type ℓ} where
  pub less_pass_asymm : (a b : PassResult F) → less_pass a b ≡ true → less_pass b a ≡ false
  unfolding less_pass
  less_pass_asymm a b h = ground (
    arith,
    h,
    text_eq_symm a.satellite b.satellite,
    text_eq_symm b.satellite a.satellite,
    text_eq_symm a.ground_station b.ground_station,
    text_eq_symm b.ground_station a.ground_station,
    text_lt_asymm a.satellite b.satellite,
    text_lt_asymm a.ground_station b.ground_station,
  )

  pub NotLess-trans : (a b c : PassResult F) → NotLess a b → NotLess b c → NotLess a c
  unfolding less_pass
  NotLess-trans a b c h k = ground (
    arith,
    h,
    k,
    text_lt-eq c.satellite b.satellite,
    text_lt-eq b.satellite a.satellite,
    text_lt-eq c.ground_station b.ground_station,
    text_lt-eq b.ground_station a.ground_station,
    text_eq_trans c.satellite b.satellite a.satellite,
    text_eq_trans c.ground_station b.ground_station a.ground_station,
    text_lt_trans c.satellite b.satellite a.satellite,
    text_lt_trans c.ground_station b.ground_station a.ground_station,
  )

-- What sort.Slice asks of its less function, and which passes it leaves unordered.
pub record IsWeakOrder {ℓ} {F : Type ℓ} (a b c : PassResult F) : Type 0 where
  pub asymmetric : less_pass a b ≡ true → less_pass b a ≡ false
  pub negatively_transitive : less_pass b a ≡ false → less_pass c b ≡ false → less_pass c a ≡ false
  pub ties :
      less_pass a b ≡ false
      → less_pass b a ≡ false
      → (a.aos ≡ b.aos)
        × (a.los ≡ b.los)
        × (text_eq a.satellite b.satellite ≡ true)
        × (text_eq a.ground_station b.ground_station ≡ true)

text_connected : (s t : Text) → text_lt s t ≡ false → text_lt t s ≡ false → text_eq s t ≡ true
text_connected [] [] h k = refl
text_connected [] (d ∷ t) h k = ground (arith, h)
text_connected (c ∷ s) [] h k = ground (arith, k)
text_connected (c ∷ s) (d ∷ t) h k = ground (arith, h, k, text_connected s t)

-- lessPass is a strict weak order, as sort.Slice demands: asymmetric, with a transitive negation; two
-- passes that are not ordered agree in AOS, satellite, ground station and LOS.
pub less_pass-IsWeakOrder {ℓ} : {F : Type ℓ} (a b c : PassResult F) → IsWeakOrder a b c
unfolding less_pass
less_pass-IsWeakOrder a b c = record {
  asymmetric = less_pass_asymm a b;
  negatively_transitive = NotLess-trans a b c;
  ties = λ h k. ground (
    arith,
    h,
    k,
    text_connected a.satellite b.satellite,
    text_connected a.ground_station b.ground_station,
    text_eq_symm b.satellite a.satellite,
    text_eq_symm a.satellite b.satellite,
    text_eq_symm a.ground_station b.ground_station,
    text_eq_symm b.ground_station a.ground_station,
  );
}
