-- ===== src/Station/Windows.antt =====
-- pkg/lifecycle/maintenance_window.go: a window in the documented format against an independent
-- description of it, an arc of the day.
use ntn_operators.Base.{
  ℕ, zero, suc, Bool, ◌+◌, ◌-◌, ◌/◌, ◌%◌, ◌<◌, ◌≡◌, ◌≢◌, refl, sym, ◌∙◌, true, not, ltb, some, [],
  ◌∷◌, Text, codes, Time, arith,
}
use ntn_operators.Station.Window.{
  skip_blanks, is_utc, clock_prefix, after_dash, match_window, minutes_of, parse_hhmm, within,
  minute_of_day, in_window, evaluate_window, is_within_maintenance_window,
}

-- HH:MM of a minute of the day, before a text.
unfoldable pub with_clock : ℕ → Text → Text
with_clock m s =
    (48 + m / 60 / 10) ∷ (48 + m / 60 % 10) ∷ 58 ∷ (48 + m % 60 / 10) ∷ (48 + m % 60 % 10) ∷ s

unfoldable pub with_spaces : ℕ → Text → Text
with_spaces zero s = s
with_spaces (suc k) s = 32 ∷ with_spaces k s

-- "HH:MM-HH:MM UTC", with one space or more.
unfoldable pub window_text : ℕ → ℕ → ℕ → Text
window_text from to extra =
    with_clock from (45 ∷ with_clock to (with_spaces (suc extra) (codes "UTC")))

-- The minutes from one minute of the day to the next occurrence of another.
unfoldable pub minutes_until : ℕ → ℕ → ℕ
minutes_until from m = (m + 1440 - from) % 1440

clock_prefix-with_clock :
    (m : ℕ) (s : Text) → m < 1440 → clock_prefix (with_clock m s) ≡ some (with_clock m [], s)
unfolding clock_prefix with_clock
clock_prefix-with_clock m s h = ground arith

parse_hhmm-with_clock : (m : ℕ) → m < 1440 → parse_hhmm (with_clock m []) ≡ some m
unfolding parse_hhmm with_clock minutes_of
parse_hhmm-with_clock m h = ground arith

skip_blanks-with_spaces : (k : ℕ) → skip_blanks (with_spaces k (codes "UTC")) ≡ codes "UTC"
unfolding with_spaces skip_blanks
skip_blanks-with_spaces zero = refl
skip_blanks-with_spaces (suc k) = skip_blanks-with_spaces k

pub in_window-circular :
    (from to m : ℕ)
    → from < 1440
    → to < 1440
    → m < 1440
    → from ≢ to
    → in_window from to m ≡ ltb (minutes_until from m) (minutes_until from to)
unfolding in_window minutes_until
in_window-circular from to m a b c n = ground arith

clock_prefix-open :
    (from : ℕ) (rest : Text)
    → from < 1440
    → clock_prefix (with_clock from (45 ∷ rest)) ≡ some (with_clock from [], 45 ∷ rest)
clock_prefix-open from rest h = clock_prefix-with_clock from (45 ∷ rest) h

match-parts :
    (w p q r rest : Text)
    → clock_prefix w ≡ some (p, 45 ∷ r)
    → clock_prefix r ≡ some (q, rest)
    → is_utc rest ≡ true
    → match_window w ≡ some (p, q)
unfolding after_dash match_window
match-parts w p q r rest e f u = rw (match_window, e, f, u)

is_utc-with_spaces : (k : ℕ) → is_utc (with_spaces (suc k) (codes "UTC")) ≡ true
unfolding with_spaces is_utc
is_utc-with_spaces k = rw (is_utc, skip_blanks-with_spaces k)

match_window-window_text :
    (from to extra : ℕ)
    → from < 1440
    → to < 1440
    → match_window (window_text from to extra) ≡ some (with_clock from [], with_clock to [])
unfolding window_text
match_window-window_text from to extra a b =
    match-parts _ _ _ (with_clock to (with_spaces (suc extra) (codes "UTC"))) _
      (clock_prefix-with_clock from _ a) (clock_prefix-with_clock to _ b) (is_utc-with_spaces extra)

is_within-match :
    (c : ℕ) (w p q : Text) (now : Time)
    → match_window (c ∷ w) ≡ some (p, q)
    → is_within_maintenance_window (c ∷ w) now
      ≡ evaluate_window (parse_hhmm p) (parse_hhmm q) (minute_of_day now)
unfolding is_within_maintenance_window evaluate_window
is_within-match c w p q now h = rw (is_within_maintenance_window, h)

evaluate_window-clocks :
    (from to m : ℕ)
    → from < 1440
    → to < 1440
    → m < 1440
    → from ≢ to
    → evaluate_window (parse_hhmm (with_clock from [])) (parse_hhmm (with_clock to [])) m
      ≡ within (ltb (minutes_until from m) (minutes_until from to))
unfolding evaluate_window
evaluate_window-clocks from to m a b c n =
    rw (parse_hhmm-with_clock from a, parse_hhmm-with_clock to b)
      (ground (arith, in_window-circular from to m a b c n))

-- A window from one minute of the day to another one, written in the documented format with any
-- number of spaces before UTC, is accepted at every instant, and holds exactly on the arc of the
-- day from its start to its end: where the wait from the start to now is less than the wait from
-- the start to the end. Midnight is no exception.
pub is_within-circular :
    (from to extra : ℕ) (now : Time)
    → from < 1440
    → to < 1440
    → from ≢ to
    → is_within_maintenance_window (window_text from to extra) now
      ≡ within (ltb (minutes_until from (minute_of_day now)) (minutes_until from to))
unfolding with_clock window_text
is_within-circular from to extra now a b n =
    is_within-match _ _ _ _ now (match_window-window_text from to extra a b)
    ∙ evaluate_window-clocks from to (minute_of_day now) a b (omega arith) n

minutes_until-swap :
    (from to m : ℕ)
    → from < 1440
    → to < 1440
    → m < 1440
    → from ≢ to
    → ltb (minutes_until to m) (minutes_until to from)
      ≡ not (ltb (minutes_until from m) (minutes_until from to))
unfolding minutes_until
minutes_until-swap from to m a b c n = ground arith

-- A window and the one with its ends swapped are never both open nor both closed.
pub is_within-swap :
    (from to extra : ℕ) (now : Time) (open_now : Bool)
    → from < 1440
    → to < 1440
    → from ≢ to
    → is_within_maintenance_window (window_text from to extra) now ≡ within open_now
    → is_within_maintenance_window (window_text to from extra) now ≡ within (not open_now)
is_within-swap from to extra now open_now a b n h = ground (
  arith,
  is_within-circular from to extra now a b n,
  is_within-circular to from extra now b a (λ e. n (sym e)),
  minutes_until-swap from to (minute_of_day now) a b (omega arith) n,
)
