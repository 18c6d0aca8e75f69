-- ===== src/Tests/Orbits.antt =====
-- An object, a cache, a source that is down and the libraries, for the tests of the satellite
-- ephemeris controller.
use ntn_operators.Base.{
  ℕ, ◌*◌, ◌≡◌, refl, sym, inl, inr, Bool, true, false, Option, none, some, [], ◌∷◌, ◌++◌, map,
  codes, ℤ, pos, Time, ◌+◌, ◌==◌, ==_iff, Bool-cases, if◌then◌else◌, arith,
}
use ntn_operators.Controller.Freshness.{hour}
use ntn_operators.Passes.{Omm, Sgp4}
use ntn_operators.Passes.Predict.{predicted}
use ntn_operators.Readers.Allowlist.{UrlLibrary}
use ntn_operators.Satellite.{
  EphemerisObject, EphemerisStatus, FetchError, is_other, ConditionType, gp_data_fetched,
  gp_data_parsed, refresh_interval_clamped, passes_predicted, unsupported_orbit_regime,
  states_truncated, ephemeris_epoch_stale, source_epoch_rejected, propagation_failed, EphCondition,
  MetaConditions, MetaLaws, Ecef, GpFetchResult, Printer,
}
use ntn_operators.Satellite.Cadence.{minute}
use ntn_operators.Satellite.Backoff.{CachedFetch}
use ntn_operators.Satellite.Durable.{OmmCodec, ObjectAccess}
use ntn_operators.Satellite.Failure.{World, StatusWrite}
use ntn_operators.Satellite.Sources.{fetch_failed}
use ntn_operators.Satellite.Acquire.{AcquireInputs}
use ntn_operators.Satellite.Canonical.{TimeParser}
use ntn_operators.Satellite.Digests.{station}
use ntn_operators.Satellite.Reconcile.{Deps, Inputs}
use ntn_operators.Tests.Whole.{whole}
use ntn_operators.Tests.Arranging.{omm_sorter}

abbrev pub code_of : ConditionType → ℕ
code_of gp_data_fetched = 0
code_of gp_data_parsed = 1
code_of refresh_interval_clamped = 2
code_of passes_predicted = 3
code_of unsupported_orbit_regime = 4
code_of states_truncated = 5
code_of ephemeris_epoch_stale = 6
code_of source_epoch_rejected = 7
code_of propagation_failed = 8

code_of-inj : (t u : ConditionType) → code_of t ≡ code_of u → t ≡ u
code_of-inj t u h = ground (arith, h)

-- Conditions as a function.
abbrev pub Store : Type 0
Store = ConditionType → Option EphCondition

instance abbrev pub store : MetaConditions Store
store = record {
  set = λ t c cs u. if code_of t == code_of u then some c else cs u;
  changes = λ t c cs. true;
  find = λ t cs. cs t;
  remove = λ t cs u. if code_of t == code_of u then none else cs u;
}

pub store_laws : MetaLaws store
store_laws = record {
  find-set = λ t c cs. ground arith;
  find-set_other = λ t u c cs n. elim (Bool-cases (code_of u == code_of t)) [
    | inl e ↦ absurd (n (code_of-inj t u (sym ((==_iff (code_of u) (code_of t)).0 e))))
    | inr e ↦ rw e refl
  ];
  find-remove = λ t cs. ground arith;
}

abbrev pub named_omm : ℕ → Omm Bool ℤ
named_omm n = record {
  object_name = codes "SAT";
  norad_cat_id = n;
  epoch_str = n ∷ [];
  mean_motion = pos 15;
  elements = true;
}

-- Keys and digests that keep what is printed.
abbrev pub print : Printer
print = record {
  print_fetch_key = λ t u. u;
  print_retry_key = λ n k d. n ++ k;
  print_propagation_inputs = λ t u ns. u ++ ns;
  print_pass_inputs = λ p. p.min_elevation ++ p.norad;
  sha256_hex = λ t. t;
}

abbrev pub codec : OmmCodec Bool ℤ
codec = record {
  marshal = λ l. some (map (λ (o : Omm Bool ℤ). o.norad_cat_id) l);
  parse_valid_omms = λ s. some (map named_omm s);
  format_time = λ t. t ∷ [];
  parse_time = λ s. elim s [ [] ↦ none | t ∷ r ↦ some t ];
}

abbrev pub urls : UrlLibrary
urls = record {
  parse_url = λ s. some (record { scheme = codes "https"; has_user = false; hostname = [] });
  to_lower = λ s. s;
}

abbrev pub parse : TimeParser
parse layout s = elim s [ [] ↦ none | t ∷ r ↦ some t ]

abbrev pub sgp4 : Sgp4 ℕ Time Bool ℤ
sgp4 = record {
  to_tle = λ o. some o.norad_cat_id;
  generate_passes = λ tle g a b n. some [];
  find_position_at_time = λ tle t. some t;
  get_look_angle = λ eci g t. some (pos 0);
}

abbrev pub codepoints : Time → Ecef
codepoints t = record {
  pos_x = pos 1;
  pos_y = pos 2;
  pos_z = pos 3;
  vel_x = pos 4;
  vel_y = pos 5;
  vel_z = pos 6;
}

abbrev pub deps : Deps ℕ Time Bool ℤ
deps = record {
  urls = urls;
  print = print;
  codec = codec;
  parse = parse;
  sgp4 = sgp4;
  codepoints = codepoints;
  sorter = omm_sorter;
  regime = record {
    minutes_of_motion = λ x. pos 96;
    deep_space_period_minutes = pos 225;
    print_minutes = λ x. codes "96";
  };
  predictor = record {
    predict_passes = λ omms gs el h ids t. predicted [];
    print_elevation = λ x. codes "45.0";
    ten = pos 10;
    ninety = pos 90;
  };
}

abbrev pub object : EphemerisObject
object = record {
  key = record { namespace = "ntn"; name = "leo" };
  uid = "u1";
  generation = 1;
  spec = record {
    source_type = "CelesTrak";
    url = codes "gp";
    refresh_interval = pos (2 * hour);
    credentials = none;
    selector = none;
    pass_prediction =
        some
          (record { ground_stations = codes "taipei" ∷ []; min_elevation = []; horizon = pos 0 });
  };
}

abbrev pub fetched_result : GpFetchResult Bool ℤ
fetched_result = record {
  omms = named_omm 7 ∷ named_omm 5 ∷ [];
  satellite_count = 2;
  fetched_at = 10;
  not_modified = false;
  etag = [];
  last_modified = [];
}

abbrev pub entry : CachedFetch Bool ℤ
entry = record {
  result = fetched_result;
  fetch_key = codes "gp";
  uid = "u1";
  next_fetch_attempt = 0;
  last_fetch_err = none;
  fetch_failures = 0;
  retry_key = [];
}

abbrev pub blank : EphemerisStatus Store
blank = record {
  satellite_count = 0;
  last_updated = none;
  propagated_states = [];
  propagated_states_input_hash = [];
  truncated_satellite_count = 0;
  next_pass_windows = [];
  last_pass_prediction_time = none;
  last_pass_prediction_input_hash = [];
  conditions = λ t. none;
}

abbrev pub world : World Bool ℤ Store
world = record {
  status = blank;
  cache = (object.key, entry) ∷ [];
  cache_object = none;
  legacy = none;
  ready = none;
  events = [];
}

abbrev pub can_write : StatusWrite
can_write = record { write_ok = true; stored = λ t. t }

abbrev pub can_access : ObjectAccess
can_access = record { get_ok = true; write_ok = true }

abbrev pub timeout : FetchError
timeout = is_other "timeout"

-- The source is down; the clock stands at three hours, and a little later.
abbrev pub outage : Time → AcquireInputs Bool ℤ
outage t = record {
  upstream = record {
    has_celes_trak = true;
    has_space_track = false;
    get_secret = λ n. none;
    lookup_ip = λ h. none;
    fetch_from = λ f u. fetch_failed timeout;
  };
  now = t;
  failed_at = t;
  restore_access = can_access;
  persist_access = can_access;
  early_write = can_write;
}

abbrev pub inputs : Inputs Bool ℤ
inputs = record {
  acquire = outage (3 * hour);
  propagated_at = 3 * hour;
  swept_at = 3 * hour + minute;
  get_station = λ n.
      station
        (record { uid = "g1"; generation = 1; terminating = false; lat = []; lon = []; alt = [] });
  write_a = can_write;
  write_b = can_write;
}
