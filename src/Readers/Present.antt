-- ===== src/Readers/Present.antt =====
-- pkg/slice/metrics/prometheus.go: what a successful read says of each field.
use ntn_operators.Base.{
  ◌≤◌, ◌≡◌, ◌≢◌, refl, sym, subst, ap, ap₂, ◌∙◌, ◌⊎◌, inl, inr, Bool, true, false, ◌||◌, Option,
  none, some, List, [], ◌∷◌, is_empty, Time, zero_time, arith, Bool-cases,
}
use ntn_operators.Float.{Float}
use ntn_operators.Slice.Trigger.{Metrics}
use ntn_operators.Readers.{Sample, ReadError, Outcome, got, failed, non_finite}
use ntn_operators.Readers.Annotation.{mark_missing}
use ntn_operators.Readers.Prometheus.{
  Queries, Value, scalar, vector, other_value, Field, rsrp, latency, packet_loss, query_of,
  set_field, Client, newest, finite_sample, fetch, read_fields, read_prometheus,
}

got_inv {ℓ} : {A : Type ℓ} {x y : A} → got x ≡ got y → x ≡ y
got_inv h = cc

failed-got {ℓ κ} : {A : Type ℓ} {B : Type κ} {e : ReadError} {x : A} → failed e ≡ got x → B
failed-got h = absurd (cc)

Outcome-cases {ℓ} :
    {A : Type ℓ} (o : Outcome A) → ((e : ReadError) × (o ≡ failed e)) ⊎ ((x : A) × (o ≡ got x))
Outcome-cases (failed e) = inl (e, refl)
Outcome-cases (got x) = inr (x, refl)

module _ {ℓ} {F : Type ℓ} where
  abbrev pub field_value : Field → Metrics F → F
  field_value rsrp m = m.rsrp_dbm
  field_value latency m = m.latency_ms
  field_value packet_loss m = m.packet_loss_percent

  abbrev pub field_missing : Field → Metrics F → Bool
  field_missing rsrp m = m.rsrp_missing
  field_missing latency m = m.latency_missing
  field_missing packet_loss m = m.packet_loss_missing

  abbrev set_answer : Field → Option (F × Time) → Metrics F → Metrics F
  set_answer f none m = m
  set_answer f (some (v, t)) m = set_field f v m

  abbrev newer_answer : Option (F × Time) → Time → Time
  newer_answer none t = t
  newer_answer (some (v, u)) t = newest u t

  newer_answer_le : (a : Option (F × Time)) (t : Time) → t ≤ newer_answer a t
  newer_answer_le none t = omega arith
  newer_answer_le (some (v, u)) t = ground arith

  -- What an answer leaves of its field in the metrics and in the newest time.
  IsKept : Metrics F → Metrics F → Time → Field → Option (F × Time) → Type ℓ
  IsKept defaults m t f none =
      (field_missing f m ≡ true) × (field_value f m ≡ field_value f defaults)
  IsKept defaults m t f (some (v, u)) =
      (field_missing f m ≡ false) × (field_value f m ≡ v) × (u ≤ t)

  answers_metrics : Metrics F → (a b c : Option (F × Time)) → Metrics F
  answers_metrics defaults a b c =
      set_answer packet_loss c (set_answer latency b (set_answer rsrp a (mark_missing defaults)))

  answers_time : (a b c : Option (F × Time)) → Time
  answers_time a b c = newer_answer c (newer_answer b (newer_answer a zero_time))

  newer_answer-own :
      (a : Option (F × Time)) (v : F) (u t : Time) → a ≡ some (v, u) → u ≤ newer_answer a t
  newer_answer-own a v u t e = rw (e) (ground arith)

  -- The metrics m' agree with m in a field.
  Agrees : Field → Metrics F → Metrics F → Type ℓ
  Agrees f m' m = (field_missing f m' ≡ field_missing f m) × (field_value f m' ≡ field_value f m)

  set_answer-other :
      (g f : Field) (a : Option (F × Time)) (m : Metrics F) → g ≢ f → Agrees f (set_answer g a m) m
  unfolding Agrees
  set_answer-other g f none m h = (refl, refl)
  set_answer-other rsrp rsrp (some a) m h = absurd (h refl)
  set_answer-other latency latency (some a) m h = absurd (h refl)
  set_answer-other packet_loss packet_loss (some a) m h = absurd (h refl)
  set_answer-other rsrp latency (some a) m h = (refl, refl)
  set_answer-other rsrp packet_loss (some a) m h = (refl, refl)
  set_answer-other latency rsrp (some a) m h = (refl, refl)
  set_answer-other latency packet_loss (some a) m h = (refl, refl)
  set_answer-other packet_loss rsrp (some a) m h = (refl, refl)
  set_answer-other packet_loss latency (some a) m h = (refl, refl)

  -- The metrics m' agree in a field with what its answer makes of m, whose field is missing.
  IsKept-of :
      (d m m' : Metrics F) (t : Time) (f : Field) (a : Option (F × Time))
      → Agrees f m (mark_missing d)
      → Agrees f m' (set_answer f a m)
      → ((v : F) (u : Time) → a ≡ some (v, u) → u ≤ t)
      → IsKept d m' t f a
  unfolding IsKept Agrees
  IsKept-of d m m' t rsrp none g h k = (h.0 ∙ g.0, h.1 ∙ g.1)
  IsKept-of d m m' t latency none g h k = (h.0 ∙ g.0, h.1 ∙ g.1)
  IsKept-of d m m' t packet_loss none g h k = (h.0 ∙ g.0, h.1 ∙ g.1)
  IsKept-of d m m' t rsrp (some (v, u)) g h k = (h.0, h.1, k v u refl)
  IsKept-of d m m' t latency (some (v, u)) g h k = (h.0, h.1, k v u refl)
  IsKept-of d m m' t packet_loss (some (v, u)) g h k = (h.0, h.1, k v u refl)

  answers-IsKept :
      (d : Metrics F) (a b c : Option (F × Time))
      → let m = answers_metrics d a b c in
        let t = answers_time a b c in
        IsKept d m t rsrp a × IsKept d m t latency b × IsKept d m t packet_loss c
  unfolding Agrees answers_metrics answers_time
  answers-IsKept d a b c =
      let m0 = mark_missing d in
      let m1 = set_answer rsrp a m0 in
      let m2 = set_answer latency b m1 in
      let m3 = set_answer packet_loss c m2 in
      let t = answers_time a b c in
      let t1 = newer_answer a zero_time in
      let t2 = newer_answer b t1 in
      let r1 = set_answer-other latency rsrp b m1 (λ e. cc) in
      let r2 = set_answer-other packet_loss rsrp c m2 (λ e. cc) in
      let l1 = set_answer-other rsrp latency a m0 (λ e. cc) in
      let l2 = set_answer-other packet_loss latency c m2 (λ e. cc) in
      let p1 = set_answer-other rsrp packet_loss a m0 (λ e. cc) in
      let p2 = set_answer-other latency packet_loss b m1 (λ e. cc) in
      (
        IsKept-of d m0 m3 t rsrp a (refl, refl) (r2.0 ∙ r1.0, r2.1 ∙ r1.1)
            (λ v u e. omega (
              arith,
              newer_answer-own a v u zero_time e,
              newer_answer_le b t1,
              newer_answer_le c t2,
            )),
        IsKept-of d m1 m3 t latency b l1 l2
            (λ v u e. omega (arith, newer_answer-own b v u t1 e, newer_answer_le c t2)),
        IsKept-of d m2 m3 t packet_loss c (p2.0 ∙ p1.0, p2.1 ∙ p1.1) (refl, refl)
            (λ v u e. newer_answer-own c v u t2 e),
      )

module _ {ℓ} {F : Type ℓ} ⦃fl : Float F⦄ where
  finite_sample-failed :
      (f : F) (t : Time)
      → (fl.is_nan f || fl.is_inf f) ≡ true
      → finite_sample f t ≡ failed non_finite
  finite_sample-failed f t e = rw (e) refl

  finite_sample-got :
      (f : F) (t : Time) → (fl.is_nan f || fl.is_inf f) ≡ false → finite_sample f t ≡ got (f, t)
  finite_sample-got f t e = rw (e) refl

  finite_sample-finite :
      (f v : F) (t u : Time)
      → finite_sample f t ≡ got (v, u)
      → (fl.is_nan v ≡ false) × (fl.is_inf v ≡ false)
  finite_sample-finite f v t u h = elim (Bool-cases (fl.is_nan f || fl.is_inf f)) [
    | inl e ↦ failed-got (sym (finite_sample-failed f t e) ∙ h)
    | inr e ↦
        subst (λ x. (fl.is_nan x ≡ false) × (fl.is_inf x ≡ false))
          (ap (λ p. p.0) (got_inv (sym (finite_sample-got f t e) ∙ h))) (ground (arith, e))
  ]

  fetch-finite :
      (a : Option (Value F)) (v : F) (t : Time)
      → fetch a ≡ got (v, t)
      → (fl.is_nan v ≡ false) × (fl.is_inf v ≡ false)
  unfolding fetch
  fetch-finite none v t h = failed-got h
  fetch-finite (some (scalar f u)) v t h = finite_sample-finite f v u t h
  fetch-finite (some (vector [])) v t h = failed-got h
  fetch-finite (some (vector ((f, u) ∷ []))) v t h = finite_sample-finite f v u t h
  fetch-finite (some (vector (p ∷ q ∷ ps))) v t h = failed-got h
  fetch-finite (some other_value) v t h = failed-got h

  module _ (client : Client F) (q : Queries) where
    -- The answer to the query of a field, or that it has none.
    data IsAnswer (f : Field) (a : Option (F × Time)) : Type ℓ where
      unasked : is_empty (query_of q f) ≡ true → a ≡ none → IsAnswer f a
      answered :
          (v : F) (t : Time)
          → is_empty (query_of q f) ≡ false
          → fetch (client f (query_of q f)) ≡ got (v, t)
          → a ≡ some (v, t)
          → IsAnswer f a

    record Continues (f : Field) (fs : List Field) (m : Metrics F) (t : Time) (r : Metrics F × Time)
        : Type ℓ where
      pub answer : Option (F × Time)
      pub is_answer : IsAnswer f answer
      pub rest : read_fields client q fs (set_answer f answer m) (newer_answer answer t) ≡ got r

    read_fields-Continues :
        (f : Field) (fs : List Field) (m : Metrics F) (t : Time) (r : Metrics F × Time)
        → read_fields client q (f ∷ fs) m t ≡ got r
        → Continues f fs m t r
    unfolding read_fields
    read_fields-Continues f fs m t r h = elim (Bool-cases (is_empty (query_of q f))) [
      | inl e ↦ record { answer = none; is_answer = unasked e refl; rest = sym (rw (e) refl) ∙ h }
      | inr e ↦ elim (Outcome-cases (fetch (client f (query_of q f)))) [
        | inl (x, d) ↦ failed-got {e = x} (sym (rw (e, d) refl) ∙ h)
        | inr ((v, u), d) ↦ record {
          answer = some (v, u);
          is_answer = answered v u e d refl;
          rest = sym (rw (e, d) refl) ∙ h;
        }
      ]
    ]

    -- What a successful read says of a field: it is missing, with the default, exactly if it has no
    -- query; otherwise it is the one finite sample that the query gave, which is not newer than the
    -- observation.
    pub record IsObserved (defaults : Metrics F) (s : Sample F) (f : Field) : Type ℓ where
      pub missing : field_missing f s.metrics ≡ is_empty (query_of q f)
      pub default :
          is_empty (query_of q f) ≡ true → field_value f s.metrics ≡ field_value f defaults
      pub sampled :
          is_empty (query_of q f) ≡ false
          → (t : Time) × (fetch (client f (query_of q f)) ≡ got (field_value f s.metrics, t))
            × (t ≤ s.observed_at)
      pub finite :
          is_empty (query_of q f) ≡ false
          → (fl.is_nan (field_value f s.metrics) ≡ false)
            × (fl.is_inf (field_value f s.metrics) ≡ false)

    IsObserved-of :
        (d : Metrics F) (s : Sample F) (f : Field) (a : Option (F × Time))
        → IsAnswer f a
        → IsKept d s.metrics s.observed_at f a
        → IsObserved d s f
    unfolding IsKept
    IsObserved-of d s f a (unasked e n) k =
        let x = subst (IsKept d s.metrics s.observed_at f) n k in
        record {
          missing = x.0 ∙ sym e;
          default = λ h. x.1;
          sampled = λ h. absurd (cc);
          finite = λ h. absurd (cc);
        }
    IsObserved-of d s f a (answered v t e g n) k =
        let x = subst (IsKept d s.metrics s.observed_at f) n k in
        let same = subst (λ y. fetch (client f (query_of q f)) ≡ got (y, t)) (sym x.1) g in
        record {
          missing = x.0 ∙ sym e;
          default = λ h. absurd (cc);
          sampled = λ h. (t, same, x.2);
          finite = λ h. fetch-finite (client f (query_of q f)) _ t same;
        }

    abbrev fields : List Field
    fields = rsrp ∷ latency ∷ packet_loss ∷ []

    fields-IsObserved :
        (d : Metrics F) (r : Metrics F × Time) (s : Sample F)
        → r.0 ≡ s.metrics
        → r.1 ≡ s.observed_at
        → read_fields client q fields (mark_missing d) zero_time ≡ got r
        → (f : Field) → IsObserved d s f
    unfolding read_fields answers_metrics answers_time
    fields-IsObserved d r s e t h f =
        let m0 = mark_missing d in
        let x = read_fields-Continues rsrp (latency ∷ packet_loss ∷ []) m0 zero_time r h in
        let m1 = set_answer rsrp x.answer m0 in
        let t1 = newer_answer x.answer zero_time in
        let y = read_fields-Continues latency (packet_loss ∷ []) m1 t1 r x.rest in
        let m2 = set_answer latency y.answer m1 in
        let t2 = newer_answer y.answer t1 in
        let z = read_fields-Continues packet_loss [] m2 t2 r y.rest in
        let end = got_inv z.rest in
        let k = answers-IsKept d x.answer y.answer z.answer in
        let moved = λ (g : Field) (a : Option (F × Time)).
          subst (λ (p : Metrics F × Time). IsKept d p.0 p.1 g a)
            (end ∙ ap₂ (λ (a : Metrics F) (b : Time). (a, b)) e t) in
        elim f as (λ g. IsObserved d s g) [
          | rsrp ↦ IsObserved-of d s rsrp x.answer x.is_answer (moved rsrp x.answer k.0)
          | latency ↦ IsObserved-of d s latency y.answer y.is_answer (moved latency y.answer k.1)
          | packet_loss ↦
              IsObserved-of d s packet_loss z.answer z.is_answer (moved packet_loss z.answer k.2)
        ]

    -- Where a read succeeds, every field has one finite sample of its query, or no query and the
    -- default with its missing flag, so that one failed query fails the read as a whole; the source
    -- time is not older than that of any sample.
    pub read_prometheus-IsObserved :
        (defaults : Metrics F) (ctx_done : Bool) (s : Sample F)
        → read_prometheus client q defaults ctx_done ≡ got s
        → (f : Field) → IsObserved defaults s f
    unfolding read_prometheus
    read_prometheus-IsObserved defaults true s h f = failed-got h
    read_prometheus-IsObserved defaults false s h f =
        elim (Outcome-cases (read_fields client q fields (mark_missing defaults) zero_time)) [
          | inl (e, d) ↦ failed-got {e = e} (sym (rw (d) refl) ∙ h)
          | inr (r, d) ↦
              let x : Sample F = record {
                metrics = r.0;
                stale = false;
                last_fresh_at = zero_time;
                observed_at = r.1;
              } in
              let same = got_inv {x = x} (sym (rw (d) refl) ∙ h) in
              fields-IsObserved defaults r s (ap (λ x. x.metrics) same)
                (ap (λ x. x.observed_at) same) d f
        ]
