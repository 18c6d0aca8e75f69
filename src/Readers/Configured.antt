-- ===== src/Readers/Configured.antt =====
-- pkg/slice/metrics/provider.go: the readers that For hands out.
use ntn_operators.Base.{
  ◌≡◌, refl, sym, ap, subst, ◌∙◌, ◌⊎◌, inl, inr, true, false, some, List, [], Text, text_eq_iff,
  arith, Bool-cases, Option-cases,
}
use ntn_operators.Base.Dict.{lookup, delete_where, lookup-insert, insert_entry, delete_where_entry}
use ntn_operators.Readers.Allowlist.{check}
use ntn_operators.Readers.Clients.{get_client}
use ntn_operators.Readers.Provider.{
  PrometheusSource, SliceKey, ReaderKey, reader_key, PooledReader, ProviderError,
  endpoint_not_allowed, no_query, no_client, Built, reader, build_error, configured_timeout,
  effective_timeout, fingerprint_of, has_no_query, Wiring, build_reader, is_outdated, store_reader,
  key_of,
}

kept-fingerprint :
    (key j : ReaderKey)
    → is_outdated key j ≡ false
    → key.uid ≡ j.uid
    → key.fingerprint ≡ j.fingerprint
kept-fingerprint key j h e =
    ground (arith, h, e, text_eq_iff j.uid key.uid, text_eq_iff j.fingerprint key.fingerprint)

module _ {ℓ} {C F : Type ℓ} (w : Wiring C) where
  -- A reader that stands under a key was built from a source with that fingerprint, whose endpoint is
  -- allowed and which has a query.
  pub record IsConfigured (k : ReaderKey) (r : PooledReader C F) : Type 0 where
    pub source : PrometheusSource
    pub same_fingerprint : w.encode (fingerprint_of source) ≡ k.fingerprint
    pub allowed : check w.urls w.allowlist source.endpoint ≡ true
    pub has_query : has_no_query source.queries ≡ false
    pub same_queries : r.queries ≡ source.queries
    pub same_timeout : r.timeout ≡ effective_timeout (configured_timeout source)

  -- The readers of a provider: one fingerprint for each uid, and every reader as configured.
  pub record IsConsistent (readers : List (ReaderKey × PooledReader C F)) : Type ℓ where
    pub exclusive :
        (k j : ReaderKey) (r s : PooledReader C F)
        → lookup k readers ≡ some r
        → lookup j readers ≡ some s
        → k.uid ≡ j.uid
        → k.fingerprint ≡ j.fingerprint
    pub configured :
        (k : ReaderKey) (r : PooledReader C F) → lookup k readers ≡ some r → IsConfigured k r

  error-reader {κ} :
      {B : Type κ} {b : Built C F} {r : PooledReader C F} (e : ProviderError)
      → b ≡ build_error e
      → b ≡ reader r
      → B
  error-reader e h k = absurd (cc)

  reader_inv : {b : Built C F} {r s : PooledReader C F} → b ≡ reader r → b ≡ reader s → r ≡ s
  reader_inv h k = cc

  pub Built-cases :
      (b : Built C F)
      → ((e : ProviderError) × (b ≡ build_error e)) ⊎ ((r : PooledReader C F) × (b ≡ reader r))
  Built-cases (build_error e) = inl (e, refl)
  Built-cases (reader r) = inr (r, refl)

  pub build_reader-IsConfigured :
      (ns : SliceKey) (src : PrometheusSource) (clients : List (Text × C))
      (built : PooledReader C F)
      → (build_reader w src clients).0 ≡ reader built
      → IsConfigured (key_of w ns src) built
  unfolding build_reader
  build_reader-IsConfigured ns src clients built h =
      elim (Bool-cases (check w.urls w.allowlist src.endpoint)) [
        | inr a ↦ error-reader endpoint_not_allowed (rw (build_reader, a) refl) h
        | inl a ↦ elim (Bool-cases (has_no_query src.queries)) [
          | inl q ↦ error-reader no_query (rw (build_reader, a, q) refl) h
          | inr q ↦ elim (Option-cases ((get_client w.build src.endpoint clients).0)) [
            | inl g ↦ error-reader no_client (rw (build_reader, a, q, g) refl) h
            | inr (c, g) ↦
                let r : PooledReader C F = record {
                  client = c;
                  queries = src.queries;
                  timeout = effective_timeout (configured_timeout src);
                  cache = [];
                } in
                subst (IsConfigured (key_of w ns src))
                  (reader_inv {r = r} (rw (build_reader, a, q, g) refl) h)
                  (record {
                    source = src;
                    same_fingerprint = refl;
                    allowed = a;
                    has_query = q;
                    same_queries = refl;
                    same_timeout = refl;
                  })
          ]
        ]
      ]

  pub store_reader-IsConsistent :
      (key : ReaderKey) (built : PooledReader C F) (readers : List (ReaderKey × PooledReader C F))
      → IsConfigured key built
      → IsConsistent readers
      → IsConsistent ((store_reader w key built readers).1)
        × (lookup key (store_reader w key built readers).1
            ≡ some (store_reader w key built readers).0)
  unfolding store_reader
  store_reader-IsConsistent key built readers b i = elim (Option-cases (lookup key readers)) [
    | inr (r, e) ↦ rw (store_reader, e) (i, e)
    | inl e ↦
        rw (store_reader, e)
          (
            record {
              exclusive = λ k j r s h g u.
                  elim (insert_entry key k built r (delete_where (is_outdated key) readers) h) [
                    | inl x ↦
                        elim (insert_entry key j built s (delete_where (is_outdated key) readers)
                          g) [
                            | inl y ↦
                                sym (ap (λ q. q.fingerprint) x.0) ∙ ap (λ q. q.fingerprint) y.0
                            | inr y ↦
                                let o = delete_where_entry (is_outdated key) j s readers y in
                                sym (ap (λ q. q.fingerprint) x.0)
                                ∙ kept-fingerprint key j o.0 (ap (λ q. q.uid) x.0 ∙ u)
                          ]
                    | inr x ↦
                        elim (insert_entry key j built s (delete_where (is_outdated key) readers)
                          g) [
                            | inl y ↦
                                let o = delete_where_entry (is_outdated key) k r readers x in
                                sym (kept-fingerprint key k o.0 (ap (λ q. q.uid) y.0 ∙ sym u))
                                ∙ ap (λ q. q.fingerprint) y.0
                            | inr y ↦
                                i.exclusive k j r s
                                  (delete_where_entry (is_outdated key) k r readers x).1
                                  (delete_where_entry (is_outdated key) j s readers y).1 u
                          ]
                  ];
              configured = λ k r h.
                  elim (insert_entry key k built r (delete_where (is_outdated key) readers) h) [
                    | inl x ↦ subst (λ q. IsConfigured q r) x.0 (subst (IsConfigured key) x.1 b)
                    | inr x ↦
                        i.configured k r (delete_where_entry (is_outdated key) k r readers x).1
                  ];
            },
            rw ((reader_key.same_iff key key).1 refl) at
                (lookup-insert key key built (delete_where (is_outdated key) readers)),
          )
  ]
