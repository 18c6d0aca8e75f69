-- ===== src/Readers/Provider.antt =====
-- pkg/slice/metrics/provider.go: For, Evict, buildReader, prometheusFingerprint, and NewPrometheusReader
-- and NewStaleCache, which build the reader. `encode` is json.Marshal on the fingerprint's fields.
use ntn_operators.Base.{
  ◌*◌, ◌≡◌, ◌↔◌, Bool, true, not, ◌&&◌, ◌||◌, Option, none, some, List, [], Text, codes, text_eq,
  text_eq_iff, is_empty, ℤ, pos, leb_ℤ, Duration, arith, if◌then◌else◌,
}
use ntn_operators.Base.Dict.{Key, lookup, insert, delete_where}
use ntn_operators.Readers.Prometheus.{Queries}
use ntn_operators.Readers.Stale.{StaleEntry}
use ntn_operators.Readers.Allowlist.{UrlLibrary, EndpointAllowlist, check}
use ntn_operators.Readers.Clients.{get_client}

pub record PrometheusSource : Type 0 where
  pub endpoint : Text
  pub queries : Queries
  pub query_timeout : Option Duration

-- spec.metricsSource; an absent one has an empty type.
pub record MetricsSource : Type 0 where
  pub source_type : Text
  pub prometheus : Option PrometheusSource

-- What For reads of an NTNSlice.
pub record SliceKey : Type 0 where
  pub namespace : Text
  pub name : Text
  pub uid : Text
  pub metrics_source : Option MetricsSource

pub record ReaderKey : Type 0 where
  pub namespace : Text
  pub name : Text
  pub uid : Text
  pub fingerprint : Text

abbrev same_key : ReaderKey → ReaderKey → Bool
same_key a b =
    text_eq a.namespace b.namespace
    && text_eq a.name b.name
    && text_eq a.uid b.uid
    && text_eq a.fingerprint b.fingerprint

pub same_key_iff : (a b : ReaderKey) → (same_key a b ≡ true) ↔ (a ≡ b)
same_key_iff a b = ground (
  arith,
  text_eq_iff a.namespace b.namespace,
  text_eq_iff a.name b.name,
  text_eq_iff a.uid b.uid,
  text_eq_iff a.fingerprint b.fingerprint,
)

instance abbrev pub reader_key : Key ReaderKey
reader_key = record { same = same_key; same_iff = same_key_iff }

-- A stale cache around a Prometheus reader.
pub record PooledReader {ℓ} (C F : Type ℓ) : Type ℓ where
  pub client : C
  pub queries : Queries
  pub timeout : Duration
  pub cache : List (Text × StaleEntry F)

pub record ProviderState {ℓ} (C F : Type ℓ) : Type ℓ where
  pub clients : List (Text × C)
  pub readers : List (ReaderKey × PooledReader C F)

pub data ProviderError : Type 0 where
  unsupported_type no_prometheus_block no_uid endpoint_not_allowed no_query no_client :
      ProviderError

pub data Selected {ℓ} (C F : Type ℓ) : Type ℓ where
  annotations : Selected C F
  pooled : ReaderKey → PooledReader C F → Selected C F
  refused : ProviderError → Selected C F

pub data Built {ℓ} (C F : Type ℓ) : Type ℓ where
  reader : PooledReader C F → Built C F
  build_error : ProviderError → Built C F

abbrev pub default_prometheus_timeout : ℤ
default_prometheus_timeout = pos (2 * 1000000000)

abbrev pub configured_timeout : PrometheusSource → Duration
configured_timeout src = elim src.query_timeout [ none ↦ pos 0 | some t ↦ t ]

-- NewPrometheusReader.
abbrev pub effective_timeout : Duration → Duration
effective_timeout t = if leb_ℤ t (pos 0) then default_prometheus_timeout else t

-- The fields of a fingerprint, in the order of its encoding.
pub record Fingerprint : Type 0 where
  pub endpoint : Text
  pub queries : Queries
  pub timeout : Duration

abbrev pub fingerprint_of : PrometheusSource → Fingerprint
fingerprint_of src = record {
  endpoint = src.endpoint;
  queries = src.queries;
  timeout = configured_timeout src;
}

abbrev pub has_no_query : Queries → Bool
has_no_query q = is_empty q.rsrp_dbm && is_empty q.latency_ms && is_empty q.packet_loss_percent

-- What the provider calls, and its allow-list.
pub record Wiring {ℓ} (C : Type ℓ) : Type ℓ where
  pub urls : UrlLibrary
  pub build : Text → Option C
  pub encode : Fingerprint → Text
  pub allowlist : EndpointAllowlist

-- Whether For evicts an entry: one of the same uid with another fingerprint.
abbrev pub is_outdated : ReaderKey → ReaderKey → Bool
is_outdated key k = text_eq k.uid key.uid && not (text_eq k.fingerprint key.fingerprint)

module _ {ℓ} {C : Type ℓ} (w : Wiring C) where
  abbrev pub key_of : SliceKey → PrometheusSource → ReaderKey
  key_of ns src = record {
    namespace = ns.namespace;
    name = ns.name;
    uid = ns.uid;
    fingerprint = w.encode (fingerprint_of src);
  }

module _ {ℓ} {C F : Type ℓ} (w : Wiring C) where
  unfoldable pub build_reader : PrometheusSource → List (Text × C) → Built C F × List (Text × C)
  build_reader src clients =
      if not (check w.urls w.allowlist src.endpoint)
      then (build_error endpoint_not_allowed, clients)
      else if has_no_query src.queries
      then (build_error no_query, clients)
      else let got = get_client w.build src.endpoint clients in
        elim got.0 [
          | none ↦ (build_error no_client, got.1)
          | some c ↦ (
            reader (record {
              client = c;
              queries = src.queries;
              timeout = effective_timeout (configured_timeout src);
              cache = [];
            }),
            got.1,
          )
        ]

  -- The section under the write lock.
  unfoldable pub store_reader :
      ReaderKey
      → PooledReader C F
      → List (ReaderKey × PooledReader C F)
      → PooledReader C F × List (ReaderKey × PooledReader C F)
  store_reader key built readers = elim (lookup key readers) [
    | some existing ↦ (existing, readers)
    | none ↦ (built, insert key built (delete_where (is_outdated key) readers))
  ]

  unfoldable pub reader_of :
      SliceKey → PrometheusSource → ProviderState C F → Selected C F × ProviderState C F
  unfolding build_reader store_reader
  reader_of ns src p =
      let key = key_of w ns src in
      elim (lookup key p.readers) [
        | some r ↦ (pooled key r, p)
        | none ↦
            let b = build_reader src p.clients in
            elim b.0 [
              | build_error e ↦ (refused e, record p { clients = b.1 })
              | reader built ↦
                  let r = store_reader key built p.readers in
                  (pooled key r.0, record { clients = b.1; readers = r.1 })
            ]
      ]

  -- For.
  unfoldable pub select_reader : SliceKey → ProviderState C F → Selected C F × ProviderState C F
  unfolding reader_of
  select_reader ns p = elim ns.metrics_source [
    | none ↦ (annotations, p)
    | some source ↦
        if is_empty source.source_type || text_eq source.source_type (codes "annotations")
        then (annotations, p)
        else if not (text_eq source.source_type (codes "prometheus"))
        then (refused unsupported_type, p)
        else elim source.prometheus [
          | none ↦ (refused no_prometheus_block, p)
          | some src ↦ if is_empty ns.uid then (refused no_uid, p) else reader_of ns src p
        ]
  ]

  unfoldable pub evict : Text → Text → ProviderState C F → ProviderState C F
  evict namespace name p = record p {
    readers =
        delete_where (λ (k : ReaderKey). text_eq k.namespace namespace && text_eq k.name name)
          p.readers;
  }
