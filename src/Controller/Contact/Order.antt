-- ===== src/Controller/Contact/Order.antt =====
-- The tie-break of internal/controller/ntnslice_controller.go as an order on windows.
use ntn_operators.Base.{◌≡◌, refl, true, false, [], ◌∷◌, Text, arith}
use ntn_operators.Controller.Contact.{PassWindow, text_lt, earlier_los_candidate}

text_lt_trans : (s t u : Text) → text_lt s t ≡ true → text_lt t u ≡ true → text_lt s u ≡ true
unfolding text_lt
text_lt_trans s t [] h k = cc
text_lt_trans [] t (e ∷ u) h k = refl
text_lt_trans (c ∷ s) [] (e ∷ u) h k = cc
text_lt_trans (c ∷ s) (d ∷ t) (e ∷ u) h k = ground (arith, text_lt_trans s t u)

text_lt-not_trans : (s t u : Text) → text_lt s t ≡ false → text_lt t u ≡ false → text_lt s u ≡ false
unfolding text_lt
text_lt-not_trans s t [] h k = refl
text_lt-not_trans s [] (e ∷ u) h k = cc
text_lt-not_trans [] (d ∷ t) (e ∷ u) h k = cc
text_lt-not_trans (c ∷ s) (d ∷ t) (e ∷ u) h k = ground (arith, text_lt-not_trans s t u)

text_lt_irrefl : (s : Text) → text_lt s s ≡ false
unfolding text_lt
text_lt_irrefl [] = refl
text_lt_irrefl (c ∷ s) = ground (arith, text_lt_irrefl s)

pub earlier_los_candidate_irrefl : (a : PassWindow) → earlier_los_candidate a a ≡ false
unfolding earlier_los_candidate
earlier_los_candidate_irrefl a = ground (arith, text_lt_irrefl a.ground_station)

pub earlier_los_candidate_trans :
    (a b c : PassWindow)
    → earlier_los_candidate a b ≡ true
    → earlier_los_candidate b c ≡ true
    → earlier_los_candidate a c ≡ true
unfolding earlier_los_candidate
earlier_los_candidate_trans a b c h k =
    ground (arith, text_lt_trans a.ground_station b.ground_station c.ground_station)

-- What does not precede is ordered too.
pub earlier_los_candidate-not_trans :
    (a b c : PassWindow)
    → earlier_los_candidate a b ≡ false
    → earlier_los_candidate b c ≡ false
    → earlier_los_candidate a c ≡ false
unfolding earlier_los_candidate
earlier_los_candidate-not_trans a b c h k =
    ground (arith, text_lt-not_trans a.ground_station b.ground_station c.ground_station)
