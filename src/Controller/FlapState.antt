-- ===== src/Controller/FlapState.antt =====
-- internal/controller/ntnslice_controller.go: the in-memory anti-flap state of each slice, and its
-- dwell clock in status.lastSwitchbackTime.
use text.Mathlib.Text.{◌==◌ as str_eq}
use text.Mathlib.TextEquality.{eq_iff}
use ntn_operators.Base.{
  ℕ, ◌==◌, ◌≡◌, ◌↔◌, Bool, true, not, ◌&&◌, ◌||◌, Option, none, some, List, String, Time, zero_time,
  is_zero, after, truncate_second, if◌then◌else◌, arith,
}
use ntn_operators.Base.Dict.{Key, lookup, insert, delete}
use ntn_operators.Slice.AntiFlap.{AntiFlapState, zero_state}

-- types.NamespacedName.
pub record NamespacedName : Type 0 where
  pub namespace : String
  pub name : String

abbrev same_name : NamespacedName → NamespacedName → Bool
same_name a b = str_eq a.namespace b.namespace && str_eq a.name b.name

pub same_name_iff : (a b : NamespacedName) → (same_name a b ≡ true) ↔ (a ≡ b)
same_name_iff a b = (
  λ h. ground (arith, eq_iff a.namespace b.namespace, eq_iff a.name b.name),
  λ e. ground (arith, eq_iff a.namespace b.namespace, eq_iff a.name b.name),
)

instance abbrev pub name_key : Key NamespacedName
name_key = record { same = same_name; same_iff = same_name_iff }

pub record FlapStateEntry : Type 0 where
  pub uid : String
  pub generation : ℕ
  pub state : AntiFlapState

abbrev pub FlapMap : Type 0
FlapMap = List (NamespacedName × FlapStateEntry)

-- A spec edit clears the streaks and the cursor, and keeps the dwell clock.
unfoldable pub renew : ℕ → FlapStateEntry → FlapStateEntry
renew generation e = record e {
  generation = generation;
  state = record (e.state) {
    consecutive_degraded = 0;
    recovery_observed_at = zero_time;
    last_counted_observed_at = zero_time;
  };
}

unfoldable pub load_flap_state : NamespacedName → String → ℕ → FlapMap → AntiFlapState × FlapMap
unfolding renew
load_flap_state key uid generation m = elim (lookup key m) [
  | none ↦ (zero_state, delete key m)
  | some e ↦
      if not (str_eq e.uid uid)
      then (zero_state, delete key m)
      else if not (e.generation == generation)
      then ((renew generation e).state, insert key (renew generation e) m)
      else (e.state, m)
]

unfoldable pub store_flap_state : NamespacedName → String → ℕ → AntiFlapState → FlapMap → FlapMap
store_flap_state key uid generation st m =
    insert key (record { uid = uid; generation = generation; state = st }) m

-- Both streaks are cleared, and the dwell clock and the cursor are kept.
unfoldable pub reset_recovery_streak : NamespacedName → FlapMap → FlapMap
reset_recovery_streak key m = elim (lookup key m) [
  | none ↦ m
  | some e ↦
      if is_zero e.state.recovery_observed_at && e.state.consecutive_degraded == 0
      then m
      else insert key
          (record e {
            state = record (e.state) { recovery_observed_at = zero_time; consecutive_degraded = 0 };
          })
          m
]

unfoldable pub drop_flap_state : NamespacedName → FlapMap → FlapMap
drop_flap_state key m = delete key m

-- The state and status.lastSwitchbackTime after the merge.
unfoldable pub seed_last_switchback :
    Time → AntiFlapState → Option Time → AntiFlapState × Option Time
seed_last_switchback now st none = (st, none)
seed_last_switchback now st (some p) =
    if after p now
    then (st, none)
    else if not (after p st.last_switchback)
    then (st, some p)
    else (record st { last_switchback = p }, some p)

is_behind : Time → Time → Option Time → Bool
is_behind latest now none = true
is_behind latest now (some p) = after (truncate_second latest) p || after p now

unfoldable pub persist_last_switchback : Time → Time → Option Time → Option Time
unfolding is_behind
persist_last_switchback latest now p =
    if is_zero latest then p else if is_behind latest now p then some latest else p
