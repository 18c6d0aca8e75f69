-- ===== src/Station/Window.antt =====
-- pkg/lifecycle/maintenance_window.go: a daily maintenance window "HH:MM-HH:MM UTC".
use ntn_operators.Base.{
  ℕ, ◌+◌, ◌-◌, ◌*◌, ◌/◌, ◌%◌, Bool, false, ◌&&◌, ◌||◌, ltb, leb, ◌==◌, Option, none, some, [], ◌∷◌,
  Text, codes, text_eq, Time, if◌then◌else◌,
}

abbrev is_digit : ℕ → Bool
is_digit c = leb 48 c && leb c 57

-- \s of the regular expression: tab, line feed, form feed, carriage return, space.
abbrev is_blank : ℕ → Bool
is_blank c = c == 9 || c == 10 || c == 12 || c == 13 || c == 32

unfoldable pub skip_blanks : Text → Text
skip_blanks [] = []
skip_blanks (c ∷ s) = let rest = skip_blanks s in if is_blank c then rest else c ∷ s

-- \s+UTC$
unfoldable pub is_utc : Text → Bool
unfolding skip_blanks
is_utc [] = false
is_utc (c ∷ s) = is_blank c && text_eq (skip_blanks s) (codes "UTC")

-- (\d{2}:\d{2}), with what follows it.
unfoldable pub clock_prefix : Text → Option (Text × Text)
clock_prefix (a ∷ b ∷ c ∷ d ∷ e ∷ s) =
    if is_digit a && is_digit b && c == 58 && is_digit d && is_digit e
    then some (a ∷ b ∷ c ∷ d ∷ e ∷ [], s)
    else none
clock_prefix _ = none

unfoldable pub after_dash : Text → Option Text
after_dash [] = none
after_dash (c ∷ s) = if c == 45 then some s else none

-- maintenanceWindowRE.FindStringSubmatch, with the two submatches.
unfoldable pub match_window : Text → Option (Text × Text)
match_window w = elim (clock_prefix w) [
  | none ↦ none
  | some p ↦ elim (after_dash p.1) [
    | none ↦ none
    | some r ↦ elim (clock_prefix r) [
      | none ↦ none
      | some q ↦ if is_utc q.1 then some (p.0, q.0) else none
    ]
  ]
]

-- time.Parse("15:04", s): an hour of one or two digits below 24, and a minute of two below 60.
unfoldable pub minutes_of : ℕ → ℕ → Option ℕ
minutes_of h m = if ltb h 24 && ltb m 60 then some (h * 60 + m) else none

unfoldable pub parse_hhmm : Text → Option ℕ
unfolding minutes_of
parse_hhmm (a ∷ b ∷ c ∷ d ∷ e ∷ []) =
    if is_digit a && is_digit b && c == 58 && is_digit d && is_digit e
    then minutes_of ((a - 48) * 10 + (b - 48)) ((d - 48) * 10 + (e - 48))
    else none
parse_hhmm (a ∷ c ∷ d ∷ e ∷ []) =
    if is_digit a && c == 58 && is_digit d && is_digit e
    then minutes_of (a - 48) ((d - 48) * 10 + (e - 48))
    else none
parse_hhmm _ = none

pub data WindowError : Type 0 where
  invalid_format invalid_start invalid_end same_start_and_end : WindowError

-- (bool, error)
pub data WindowResult : Type 0 where
  within : Bool → WindowResult
  window_error : WindowError → WindowResult

-- now.UTC().Hour()*60 + now.UTC().Minute()
abbrev pub minute_of_day : Time → ℕ
minute_of_day now = now / 60000000000 % 1440

unfoldable pub in_window : ℕ → ℕ → ℕ → Bool
in_window from to m = if ltb from to then leb from m && ltb m to else leb from m || ltb m to

unfoldable pub evaluate_window : Option ℕ → Option ℕ → ℕ → WindowResult
evaluate_window none _ m = window_error invalid_start
evaluate_window (some from) none m = window_error invalid_end
evaluate_window (some from) (some to) m =
    if from == to then window_error same_start_and_end else within (in_window from to m)

unfoldable pub is_within_maintenance_window : Text → Time → WindowResult
is_within_maintenance_window [] now = within false
is_within_maintenance_window w now = elim (match_window w) [
  | none ↦ window_error invalid_format
  | some p ↦ evaluate_window (parse_hhmm p.0) (parse_hhmm p.1) (minute_of_day now)
]
