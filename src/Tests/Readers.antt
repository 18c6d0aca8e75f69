-- ===== src/Tests/Readers.antt =====
-- The theorems on the metrics readers at concrete sources, and test runs.
use ntn_operators.Base.{
  ℕ, ◌≡◌, refl, ap₂, true, false, none, some, List, [], ◌∷◌, ◌++◌, length, codes, trim_space, Text,
  ℤ, pos, negsuc, arith,
}
use ntn_operators.Base.Dict.{lookup}
use ntn_operators.Slice.Trigger.{Metrics}
use ntn_operators.Slice.AntiFlap.{zero_state, observe}
use ntn_operators.Readers.{Sample, query_error, got, failed}
use ntn_operators.Readers.Annotation.{annotation_latency, parse_finite, read_annotations}
use ntn_operators.Readers.Prometheus.{
  Queries, scalar, vector, rsrp, latency, packet_loss, Client, fetch, read_fields, read_prometheus,
}
use ntn_operators.Readers.Stale.{CacheState, read_stale}
use ntn_operators.Readers.Allowlist.{UrlLibrary, split_at, parse_endpoint_allowlist}
use ntn_operators.Readers.Provider.{SliceKey, Fingerprint, Wiring, select_reader}
use ntn_operators.Readers.Outage.{Read, Round, after_rounds, outage-counts_once}
use ntn_operators.Readers.Served.{Call, choose, drop, after_calls, IsServed, after_calls-IsServed}
use ntn_operators.Tests.Whole.{whole}

abbrev defaults : Metrics ℤ
defaults = record {
  rsrp_dbm = negsuc 79;
  latency_ms = pos 20;
  packet_loss_percent = pos 0;
  rsrp_missing = false;
  latency_missing = false;
  packet_loss_missing = false;
}

-- A signal strength and a latency of two scrapes, and no query for the packet loss.
abbrev prometheus : Client ℤ
prometheus rsrp query = some (vector ((negsuc 94, 500) ∷ []))
prometheus latency query = some (scalar (pos 35) 700)
prometheus packet_loss query = none

abbrev queries : Queries
queries = record { rsrp_dbm = codes "rsrp"; latency_ms = codes "latency"; packet_loss_percent = [] }

abbrev sample : Sample ℤ
sample = record {
  metrics = record {
    rsrp_dbm = negsuc 94;
    latency_ms = pos 35;
    packet_loss_percent = pos 0;
    rsrp_missing = false;
    latency_missing = false;
    packet_loss_missing = true;
  };
  stale = false;
  last_fresh_at = 0;
  observed_at = 700;
}

read_prometheus_test : read_prometheus prometheus queries defaults false ≡ got sample
unfolding read_prometheus read_fields fetch
read_prometheus_test = refl

read_annotations_test :
    (read_annotations defaults ((annotation_latency, codes "90") ∷ [])).metrics
    ≡ record defaults { latency_ms = pos 90; rsrp_missing = true; packet_loss_missing = true }
unfolding read_annotations parse_finite lookup
read_annotations_test = refl

abbrev empty_cache : CacheState ℤ
empty_cache = record { cache = []; stale_used = 0 }

abbrev slice_a : Text
slice_a = codes "uid-a"

abbrev other_read : Read ℤ
other_read = record { uid = codes "uid-b"; inner = got sample; ctx_done = false; now = 820 }

abbrev failed_read : Read ℤ
failed_read = record { uid = slice_a; inner = failed query_error; ctx_done = false; now = 830 }

abbrev outage : List Round
outage =
    record { error = query_error; read_at = 810; degraded = true; recovered = false; now = 810 }
    ∷ record { error = query_error; read_at = 820; degraded = true; recovered = false; now = 820 }
    ∷ []

outage-counts_once_example :
    let st = observe 700 true false 800 zero_state in
    after_rounds slice_a outage ((read_stale slice_a (got sample) false 800 empty_cache).1) st ≡ st
outage-counts_once_example =
    outage-counts_once slice_a sample false 800 800 true false outage empty_cache zero_state refl
      refl

-- An encoding with the length of each part before it.
abbrev frame : Text → Text → Text
frame s rest = length s ∷ (s ++ rest)

abbrev encode_duration : ℤ → Text
encode_duration (pos n) = 0 ∷ n ∷ []
encode_duration (negsuc n) = 1 ∷ n ∷ []

abbrev encode : Fingerprint → Text
encode f = frame f.endpoint (
    frame f.queries.rsrp_dbm (
      frame f.queries.latency_ms (frame f.queries.packet_loss_percent (encode_duration f.timeout))))

append_inv : (s t u v : Text) → length s ≡ length t → s ++ u ≡ t ++ v → (s ≡ t) × (u ≡ v)
append_inv [] [] u v h e = (refl, e)
append_inv [] (d ∷ t) u v h e = absurd (omega (arith, h))
append_inv (c ∷ s) [] u v h e = absurd (omega (arith, h))
append_inv (c ∷ s) (d ∷ t) u v h e =
    let tails = append_inv s t u v (omega (arith, h)) (cc) in (ap₂ ◌∷◌ (cc) tails.0, tails.1)

frame_inv : (s t u v : Text) → frame s u ≡ frame t v → (s ≡ t) × (u ≡ v)
frame_inv s t u v e = append_inv s t u v (cc) (cc)

duration_inv : (a b : ℤ) → encode_duration a ≡ encode_duration b → a ≡ b
duration_inv (pos m) (pos n) e = cc
duration_inv (pos m) (negsuc n) e = absurd (ground (arith, e))
duration_inv (negsuc m) (pos n) e = absurd (ground (arith, e))
duration_inv (negsuc m) (negsuc n) e = cc

encode_inv : (a b : Fingerprint) → encode a ≡ encode b → a ≡ b
encode_inv a b e =
    let x = frame_inv a.endpoint b.endpoint _ _ e in
    let y = frame_inv a.queries.rsrp_dbm b.queries.rsrp_dbm _ _ x.1 in
    let z = frame_inv a.queries.latency_ms b.queries.latency_ms _ _ y.1 in
    let w = frame_inv a.queries.packet_loss_percent b.queries.packet_loss_percent _ _ z.1 in
    let t = duration_inv a.timeout b.timeout w.1 in cc

abbrev urls : UrlLibrary
urls = record {
  parse_url = λ raw. some (record { scheme = codes "http"; has_user = false; hostname = raw });
  to_lower = λ s. s;
}

abbrev wiring : Wiring ℕ
wiring = record {
  urls = urls;
  build = λ endpoint. some (length endpoint);
  encode = encode;
  allowlist = codes "prom" ∷ codes "prom2" ∷ [];
}

abbrev slice_with : Text → SliceKey
slice_with endpoint = record {
  namespace = codes "ns";
  name = codes "a";
  uid = slice_a;
  metrics_source = some (record {
    source_type = codes "prometheus";
    prometheus = some (record { endpoint = endpoint; queries = queries; query_timeout = none });
  });
}

-- A slice whose endpoint was edited, and another that was deleted.
abbrev calls : List Call
calls = choose (slice_with (codes "prom")) ∷ drop (codes "ns") (codes "b") ∷ []

after_calls-IsServed_example :
    IsServed {F = ℤ} wiring
      (slice_with (codes "prom2"))
      (select_reader wiring (slice_with (codes "prom2")) (after_calls wiring encode_inv calls))
after_calls-IsServed_example =
    after_calls-IsServed {F = ℤ} wiring encode_inv calls (slice_with (codes "prom2"))

allowlist_test :
    parse_endpoint_allowlist urls (codes " prom, ,thanos ") ≡ codes "prom" ∷ codes "thanos" ∷ []
unfolding parse_endpoint_allowlist split_at trim_space
allowlist_test = refl
