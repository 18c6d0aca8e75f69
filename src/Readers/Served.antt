-- ===== src/Readers/Served.antt =====
-- pkg/slice/metrics/provider.go: what For and Evict do to the readers of a provider.
use ntn_operators.Base.{
  ◌≡◌, ◌≢◌, sym, ap, subst, ◌∙◌, inl, inr, true, ◌&&◌, ◌||◌, Option, none, some, List, [], ◌∷◌,
  Text, codes, text_eq, is_empty, Bool-cases, Option-cases, if◌then◌else◌,
}
use ntn_operators.Base.Dict.{lookup, lookup-delete_where, delete_where_entry}
use ntn_operators.Readers.Allowlist.{check}
use ntn_operators.Readers.Provider.{
  PrometheusSource, MetricsSource, SliceKey, ReaderKey, reader_key, PooledReader, ProviderState,
  Selected, pooled, configured_timeout, effective_timeout, Fingerprint, fingerprint_of, Wiring,
  build_reader, key_of, reader_of, select_reader, evict,
}
use ntn_operators.Readers.Configured.{
  IsConfigured, IsConsistent, Built-cases, build_reader-IsConfigured, store_reader-IsConsistent,
}

source_inv :
    {a : Option MetricsSource} {x y : MetricsSource} {s t : PrometheusSource}
    → a ≡ some x
    → x.prometheus ≡ some s
    → a ≡ some y
    → y.prometheus ≡ some t
    → s ≡ t
source_inv m e m' e' = cc

module _ {ℓ} {C F : Type ℓ} (w : Wiring C) where
  -- What For leaves and hands out for a slice with this source.
  record IsSelected (ns : SliceKey) (src : PrometheusSource) (o : Selected C F × ProviderState C F)
      : Type ℓ where
    pub consistent : IsConsistent w (o.1).readers
    pub selected :
        (k : ReaderKey) (r : PooledReader C F)
        → o.0 ≡ pooled k r
        → (key_of w ns src ≡ k) × IsConfigured w k r × (lookup k (o.1).readers ≡ some r)

  pooled_inv :
      {k j : ReaderKey} {r s : PooledReader C F} → pooled k r ≡ pooled j s → (k ≡ j) × (r ≡ s)
  pooled_inv h = (cc, cc)

  hand_out :
      (ns : SliceKey) (src : PrometheusSource) (r : PooledReader C F) (p : ProviderState C F)
      → IsConsistent w p.readers
      → IsConfigured w (key_of w ns src) r
      → lookup (key_of w ns src) p.readers ≡ some r
      → IsSelected ns src (pooled (key_of w ns src) r, p)
  hand_out ns src r p i c l = record {
    consistent = i;
    selected = λ k s h.
        let e = pooled_inv h in
        (
          e.0,
          subst (λ q. IsConfigured w q s) e.0 (subst (IsConfigured w (key_of w ns src)) e.1 c),
          subst (λ q. lookup q p.readers ≡ some s) e.0
              (subst (λ q. lookup (key_of w ns src) p.readers ≡ some q) e.1 l),
        );
  }

  refuse :
      (ns : SliceKey) (src : PrometheusSource) (o : Selected C F) (p : ProviderState C F)
      → ((k : ReaderKey) (r : PooledReader C F) → o ≢ pooled k r)
      → IsConsistent w p.readers
      → IsSelected ns src (o, p)
  refuse ns src o p other i = record { consistent = i; selected = λ k r h. absurd (other k r h) }

  reader_of-IsSelected :
      (ns : SliceKey) (src : PrometheusSource) (p : ProviderState C F)
      → IsConsistent w p.readers
      → IsSelected ns src (reader_of w ns src p)
  unfolding reader_of
  reader_of-IsSelected ns src p i = elim (Option-cases (lookup (key_of w ns src) p.readers)) [
    | inr (r, e) ↦ rw (reader_of, e) (hand_out ns src r p i (i.configured _ r e) e)
    | inl e ↦ elim (Built-cases w (build_reader {F = F} w src p.clients).0) [
      | inl (x, b) ↦ rw (reader_of, e, b) (refuse ns src _ _ (λ k r h. cc) i)
      | inr (r, b) ↦
          let st =
            store_reader-IsConsistent w (key_of w ns src) r p.readers
              (build_reader-IsConfigured w ns src p.clients r b) i in
          rw (reader_of, e, b) (hand_out ns src _ _ st.0 (st.0.configured _ _ st.1) st.1)
    ]
  ]

  -- What For promises a slice: the readers stay consistent; a pooled reader has the queries and the
  -- timeout of the slice's source, whose endpoint is allowed, and no reader of another configuration
  -- is left for the slice's uid.
  pub record IsServed (ns : SliceKey) (o : Selected C F × ProviderState C F) : Type ℓ where
    pub consistent : IsConsistent w (o.1).readers
    pub as_configured :
        (k : ReaderKey) (r : PooledReader C F)
        → o.0 ≡ pooled k r
        → (source : MetricsSource) (src : PrometheusSource) → ns.metrics_source ≡ some source
        → source.prometheus ≡ some src
        → (r.queries ≡ src.queries)
          × (r.timeout ≡ effective_timeout (configured_timeout src))
          × (check w.urls w.allowlist src.endpoint ≡ true)
    pub only_one :
        (k j : ReaderKey) (r s : PooledReader C F)
        → o.0 ≡ pooled k r
        → lookup j (o.1).readers ≡ some s
        → j.uid ≡ ns.uid
        → j.fingerprint ≡ k.fingerprint

  IsServed-other :
      (ns : SliceKey) (o : Selected C F) (p : ProviderState C F)
      → ((k : ReaderKey) (r : PooledReader C F) → o ≢ pooled k r)
      → IsConsistent w p.readers
      → IsServed ns (o, p)
  IsServed-other ns o p other i = record {
    consistent = i;
    as_configured = λ k r h. absurd (other k r h);
    only_one = λ k j r s h. absurd (other k r h);
  }

  module _ (injective : (a b : Fingerprint) → w.encode a ≡ w.encode b → a ≡ b) where
    IsServed-pooled :
        (ns : SliceKey) (source : MetricsSource) (src : PrometheusSource)
        (o : Selected C F × ProviderState C F)
        → ns.metrics_source ≡ some source
        → source.prometheus ≡ some src
        → IsSelected ns src o
        → IsServed ns o
    IsServed-pooled ns source src o m e sel = record {
      consistent = sel.consistent;
      as_configured = λ k r h source' src' m' e'.
          let chosen = sel.selected k r h in
          let c = chosen.1 in
          let same =
            injective _ _ (c.same_fingerprint ∙ sym (ap (λ q. q.fingerprint) chosen.0))
            ∙ ap fingerprint_of (source_inv m e m' e') in
          (
            c.same_queries ∙ ap (λ f. f.queries) same,
            c.same_timeout ∙ ap (λ f. effective_timeout f.timeout) same,
            subst (λ f. check w.urls w.allowlist f.endpoint ≡ true) same c.allowed,
          );
      only_one = λ k j r s h l u.
          let chosen = sel.selected k r h in
          sel.consistent.exclusive j k s r l chosen.2 (u ∙ ap (λ q. q.uid) chosen.0);
    }

    pub select_reader-IsServed :
        (ns : SliceKey) (p : ProviderState C F)
        → IsConsistent w p.readers
        → IsServed ns (select_reader w ns p)
    unfolding select_reader
    select_reader-IsServed ns p i = elim (Option-cases ns.metrics_source) [
      | inl m ↦ simp (select_reader, m) (IsServed-other ns _ p (λ k r h. cc) i)
      | inr (source, m) ↦
          elim (Bool-cases
            (is_empty source.source_type || text_eq source.source_type (codes "annotations"))) [
              | inl a ↦ simp (select_reader, m, a) (IsServed-other ns _ p (λ k r h. cc) i)
              | inr a ↦ elim (Bool-cases (text_eq source.source_type (codes "prometheus"))) [
                | inr t ↦ simp (select_reader, m, a, t) (IsServed-other ns _ p (λ k r h. cc) i)
                | inl t ↦ elim (Option-cases source.prometheus) [
                  | inl e ↦ simp (select_reader, m, a, t, e) (IsServed-other ns _ p (λ k r h. cc) i)
                  | inr (src, e) ↦ elim (Bool-cases (is_empty ns.uid)) [
                    | inl z ↦
                        simp (select_reader, m, a, t, e, z) (IsServed-other ns _ p (λ k r h. cc) i)
                    | inr z ↦
                        simp (select_reader, m, a, t, e, z)
                          (IsServed-pooled ns source src _ m e (reader_of-IsSelected ns src p i))
                  ]
                ]
              ]
            ]
    ]

  -- Evict forgets every reader of the slice, and no other.
  pub evict-lookup :
      (namespace name : Text) (p : ProviderState C F) (k : ReaderKey)
      → lookup k (evict w namespace name p).readers ≡ (
          if text_eq k.namespace namespace && text_eq k.name name then none else lookup k p.readers)
  unfolding evict
  evict-lookup namespace name p k = lookup-delete_where _ k p.readers

  evict-IsConsistent :
      (namespace name : Text) (p : ProviderState C F)
      → IsConsistent w p.readers
      → IsConsistent w (evict w namespace name p).readers
  unfolding evict
  evict-IsConsistent namespace name p i = record {
    exclusive = λ k j r s h g u.
        i.exclusive k j r s (delete_where_entry _ k r p.readers h).1
          (delete_where_entry _ j s p.readers g).1 u;
    configured = λ k r h. i.configured k r (delete_where_entry _ k r p.readers h).1;
  }

-- The calls of the provider's users: For, and Evict on a deleted slice.
pub data Call : Type 0 where
  choose : SliceKey → Call
  drop : Text → Text → Call

module _ {ℓ} {C F : Type ℓ} (w : Wiring C)
    (injective : (a b : Fingerprint) → w.encode a ≡ w.encode b → a ≡ b) where
  abbrev pub after_call : Call → ProviderState C F → ProviderState C F
  after_call (choose ns) p = (select_reader w ns p).1
  after_call (drop namespace name) p = evict w namespace name p

  abbrev pub after_calls : List Call → ProviderState C F
  after_calls [] = record { clients = []; readers = [] }
  after_calls (c ∷ cs) = after_call c (after_calls cs)

  after_calls-IsConsistent : (cs : List Call) → IsConsistent w (after_calls cs).readers
  unfolding lookup
  after_calls-IsConsistent [] = record {
    exclusive = λ k j r s h. absurd (cc);
    configured = λ k r h. absurd (cc);
  }
  after_calls-IsConsistent (choose ns ∷ cs) =
      (select_reader-IsServed w injective ns (after_calls cs)
        (after_calls-IsConsistent cs)).consistent
  after_calls-IsConsistent (drop namespace name ∷ cs) =
      evict-IsConsistent w namespace name (after_calls cs) (after_calls-IsConsistent cs)

  -- After any calls of For and Evict, the reader that For hands out for a Prometheus source has the
  -- queries and the timeout of that source, whose endpoint is on the allow-list, and no reader of
  -- another configuration, with its stale values, is left for the slice's uid; the encoding of a
  -- fingerprint is taken to be injective.
  pub after_calls-IsServed :
      (cs : List Call) (ns : SliceKey) → IsServed w ns (select_reader w ns (after_calls cs))
  after_calls-IsServed cs ns =
      select_reader-IsServed w injective ns (after_calls cs) (after_calls-IsConsistent cs)
