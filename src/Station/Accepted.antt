-- ===== src/Station/Accepted.antt =====
-- pkg/lifecycle/maintenance_window.go: what an accepted window says, whatever its text.
use ntn_operators.Base.{
  ℕ, ◌<◌, ◌≡◌, ◌≢◌, refl, inl, inr, Bool, ltb, ◌==◌, Option, none, some, [], ◌∷◌, Text, Time, arith,
  Bool-cases,
}
use ntn_operators.Station.Window.{
  WindowError, match_window, minutes_of, parse_hhmm, within, window_error, minute_of_day,
  evaluate_window, is_within_maintenance_window,
}
use ntn_operators.Station.Windows.{minutes_until, in_window-circular}

-- The ends of a window, two different minutes of the day, and whether it holds at a third.
pub record IsArc (w : Text) (m : ℕ) (open_now : Bool) : Type 0 where
  pub from : ℕ
  pub to : ℕ
  pub from_clock : Text
  pub to_clock : Text
  pub matches : match_window w ≡ some (from_clock, to_clock)
  pub from_parsed : parse_hhmm from_clock ≡ some from
  pub to_parsed : parse_hhmm to_clock ≡ some to
  pub from_bound : from < 1440
  pub to_bound : to < 1440
  pub are_distinct : from ≢ to
  pub holds : open_now ≡ ltb (minutes_until from m) (minutes_until from to)

minutes_of-bound : (h m n : ℕ) → minutes_of h m ≡ some n → n < 1440
unfolding minutes_of
minutes_of-bound h m n e = ground arith

parse_hhmm-bound : (s : Text) (n : ℕ) → parse_hhmm s ≡ some n → n < 1440
unfolding parse_hhmm minutes_of
parse_hhmm-bound [] n e = ground (arith, e)
parse_hhmm-bound (a ∷ []) n e = ground (arith, e)
parse_hhmm-bound (a ∷ b ∷ []) n e = ground (arith, e)
parse_hhmm-bound (a ∷ b ∷ c ∷ []) n e = ground (arith, e)
parse_hhmm-bound (a ∷ c ∷ d ∷ x ∷ []) n e = ground (arith, e)
parse_hhmm-bound (a ∷ b ∷ c ∷ d ∷ x ∷ []) n e = ground (arith, e)
parse_hhmm-bound (a ∷ b ∷ c ∷ d ∷ x ∷ y ∷ s) n e = ground (arith, e)

evaluate_window-IsArc :
    (w p q : Text) (m : ℕ) (open_now : Bool) (from to : Option ℕ)
    → m < 1440
    → match_window w ≡ some (p, q)
    → parse_hhmm p ≡ from
    → parse_hhmm q ≡ to
    → evaluate_window from to m ≡ within open_now
    → IsArc w m open_now
unfolding evaluate_window
evaluate_window-IsArc w p q m open_now none to b h f t e = ground (arith, e)
evaluate_window-IsArc w p q m open_now (some from) none b h f t e = ground (arith, e)
evaluate_window-IsArc w p q m open_now (some from) (some to) b h f t e =
    elim (Bool-cases (from == to)) [
      | inl same ↦ ground (arith, e)
      | inr other ↦
          let n : (from ≢ to) = (λ k. ground (arith, other)) in
          record {
            from = from;
            to = to;
            from_clock = p;
            to_clock = q;
            matches = h;
            from_parsed = f;
            to_parsed = t;
            from_bound = parse_hhmm-bound p from f;
            to_bound = parse_hhmm-bound q to t;
            are_distinct = n;
            holds = ground (
              arith,
              e,
              in_window-circular from to m (parse_hhmm-bound p from f) (parse_hhmm-bound q to t) b
                  n,
            );
          }
    ]

accepted-IsArc :
    (w : Text) (m : ℕ) (open_now : Bool) (o : Option (Text × Text))
    → m < 1440
    → match_window w ≡ o
    → elim o [
      | none ↦ window_error WindowError.invalid_format
      | some p ↦ evaluate_window (parse_hhmm p.0) (parse_hhmm p.1) m
    ]
      ≡ within open_now
    → IsArc w m open_now
accepted-IsArc w m open_now none b h e = ground (arith, e)
accepted-IsArc w m open_now (some p) b h e =
    evaluate_window-IsArc w p.0 p.1 m open_now (parse_hhmm p.0) (parse_hhmm p.1) b h refl refl e

-- Where a window that is not empty is accepted, at any instant, its text has two clock times that
-- are different minutes of the day, and the answer is whether now lies on the arc between them.
pub is_within-IsArc :
    (c : ℕ) (w : Text) (now : Time) (open_now : Bool)
    → is_within_maintenance_window (c ∷ w) now ≡ within open_now
    → IsArc (c ∷ w) (minute_of_day now) open_now
unfolding is_within_maintenance_window
is_within-IsArc c w now open_now e = accepted-IsArc _ _ open_now _ (omega arith) refl e
