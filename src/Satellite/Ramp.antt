-- ===== src/Satellite/Ramp.antt =====
-- internal/controller/satelliteephemeris_controller.go: the delays of failed fetches in a row.
use ntn_operators.Base.{
  ℕ, suc, ◌+◌, ◌*◌, ◌^◌, ◌≡◌, refl, sym, subst, Bool, true, not, ◌||◌, List, [], ◌∷◌, some, all,
  length, leb, Text, text_eq, text_eq_iff, Time, Duration, pos, min_ℤ, add_time, ◌==◌,
  if◌then◌else◌, arith,
}
use ntn_operators.Satellite.{
  FetchError, is_rate_limited, is_auth_failed, is_invalid_source_url, is_other,
}
use ntn_operators.Satellite.Cadence.{minute}
use ntn_operators.Satellite.Backoff.{
  fetch_retry_delay, fetch_err_transient, FetchErrClass, classify_fetch_err_class, same_class,
  CachedFetch, failures_after, apply_fetch_backoff, shift_of,
}

abbrev pub is_transient : FetchError → Bool
is_transient err = same_class (classify_fetch_err_class (some err)) fetch_err_transient

same_class-eq :
    (k : FetchErrClass) → same_class k fetch_err_transient ≡ true → k ≡ fetch_err_transient
same_class-eq k h = ground arith

same_class-sym : (a b : FetchErrClass) → same_class a b ≡ same_class b a
same_class-sym a b = ground arith

transient-delay :
    (err : FetchError) (interval : Duration) (n : ℕ)
    → is_transient err ≡ true
    → fetch_retry_delay err interval n ≡ min_ℤ (pos (minute * 2 ^ shift_of n)) interval
unfolding fetch_retry_delay
transient-delay (is_rate_limited d) interval n h = absurd (cc)
transient-delay is_auth_failed interval n h = absurd (cc)
transient-delay is_invalid_source_url interval n h = refl
transient-delay (is_other e) interval n h = refl

shift_of-add_one : (n : ℕ) → shift_of (n + 1) ≡ (if leb n 10 then n else 10)
shift_of-add_one n = ground arith

module _ {ℓ} {E F : Type ℓ} where
  -- Whether the next failure of the network is the first of its episode.
  abbrev pub is_fresh : CachedFetch E F → Text → Bool
  is_fresh c key =
      not (text_eq key c.retry_key)
      || not (same_class (classify_fetch_err_class c.last_fetch_err) fetch_err_transient)
      || c.fetch_failures == 0

  -- The failures of one episode, with the instants at which they are noticed.
  unfoldable pub arm_all :
      Text → Duration → List (FetchError × Time) → CachedFetch E F → CachedFetch E F
  arm_all key interval [] c = c
  arm_all key interval ((err, t) ∷ fs) c =
      arm_all key interval fs (apply_fetch_backoff c err key interval t)

  -- An episode of network failures under way, with its count.
  record IsCounting (c : CachedFetch E F) (key : Text) (n : ℕ) : Type 0 where
    pub same_key : c.retry_key ≡ key
    pub same_class_of :
        same_class (classify_fetch_err_class c.last_fetch_err) fetch_err_transient ≡ true
    pub counted : c.fetch_failures ≡ n

  first-failure :
      (c : CachedFetch E F) (key : Text) (err : FetchError)
      → is_fresh c key ≡ true
      → is_transient err ≡ true
      → failures_after c err key ≡ 1
  unfolding failures_after
  first-failure c key err h k =
      rw
        (
          failures_after,
          same_class-eq _ k,
          same_class-sym fetch_err_transient (classify_fetch_err_class c.last_fetch_err),
        )
        (ground (arith, h))

  next-failure :
      (c : CachedFetch E F) (key : Text) (err : FetchError) (n : ℕ)
      → IsCounting c key n
      → is_transient err ≡ true
      → failures_after c err key ≡ n + 1
  unfolding failures_after
  next-failure c key err n h k =
      rw
        (
          failures_after,
          same_class-eq _ k,
          same_class-sym fetch_err_transient (classify_fetch_err_class c.last_fetch_err),
          h.same_class_of,
          (text_eq_iff key c.retry_key).1 (sym h.same_key),
          h.counted,
        )
        refl

  IsCounting-step :
      (c : CachedFetch E F) (key : Text) (interval : Duration) (err : FetchError) (t : Time) (n : ℕ)
      → failures_after c err key ≡ n
      → is_transient err ≡ true
      → IsCounting (apply_fetch_backoff c err key interval t) key n
  unfolding apply_fetch_backoff
  IsCounting-step c key interval err t n h k = record {
    same_key = refl;
    same_class_of = k;
    counted = h;
  }

  IsCounting-run :
      (fs : List (FetchError × Time)) (c : CachedFetch E F) (key : Text) (interval : Duration)
      (n : ℕ)
      → IsCounting c key n
      → all (λ (f : FetchError × Time). is_transient f.0) fs ≡ true
      → IsCounting (arm_all key interval fs c) key (n + length fs)
  unfolding arm_all
  IsCounting-run [] c key interval n h k =
      let e : n ≡ n + 0 = omega arith in subst (λ (m : ℕ). IsCounting c key m) e h
  IsCounting-run ((err, t) ∷ fs) c key interval n h k =
      let e : n + 1 + length fs ≡ n + suc (length fs) = omega arith in
      subst
        (λ (m : ℕ).
          IsCounting (arm_all key interval fs (apply_fetch_backoff c err key interval t)) key m)
        e
        (IsCounting-run fs (apply_fetch_backoff c err key interval t) key interval (n + 1)
          (IsCounting-step c key interval err t (n + 1)
            (next-failure c key err n h (ground (arith, k))) (ground (arith, k)))
          (ground (arith, k)))

  -- What a failure arms.
  armed-attempt :
      (c : CachedFetch E F) (key : Text) (interval : Duration) (err : FetchError) (t : Time) (n : ℕ)
      → failures_after c err key ≡ n + 1
      → is_transient err ≡ true
      → (apply_fetch_backoff c err key interval t).next_fetch_attempt
        ≡ add_time t (min_ℤ (pos (minute * 2 ^ (if leb n 10 then n else 10))) interval)
  unfolding apply_fetch_backoff
  armed-attempt c key interval err t n h k =
      rw (h, transient-delay err interval (n + 1) k, shift_of-add_one n) refl

  -- However the entry came about, where the next network failure is the first of its episode (another
  -- retry key, another class of error before it, or none), a run of n network failures under one
  -- retry key and then one more at t hold the source back until t plus 2^min(n, 10) minutes, or plus
  -- the refresh interval where that is shorter.
  pub arm_all-ramp :
      (c : CachedFetch E F) (key : Text) (interval : Duration) (fs : List (FetchError × Time))
      (err : FetchError) (t : Time)
      → is_fresh c key ≡ true
      → all (λ (f : FetchError × Time). is_transient f.0) fs ≡ true
      → is_transient err ≡ true
      → (apply_fetch_backoff (arm_all key interval fs c) err key interval t).next_fetch_attempt
        ≡ add_time t
            (min_ℤ (pos (minute * 2 ^ (if leb (length fs) 10 then length fs else 10))) interval)
  unfolding arm_all
  arm_all-ramp c key interval [] err t h k l =
      armed-attempt c key interval err t 0 (first-failure c key err h l) l
  arm_all-ramp c key interval ((e, u) ∷ fs) err t h k l =
      armed-attempt (arm_all key interval fs (apply_fetch_backoff c e key interval u)) key interval
        err t (suc (length fs))
        (next-failure _ key err (suc (length fs))
          (subst
            (λ (m : ℕ).
              IsCounting (arm_all key interval fs (apply_fetch_backoff c e key interval u)) key m)
            (let p : 1 + length fs ≡ suc (length fs) = omega arith in p)
            (IsCounting-run fs (apply_fetch_backoff c e key interval u) key interval 1
              (IsCounting-step c key interval e u 1 (first-failure c key e h (ground (arith, k)))
                (ground (arith, k)))
              (ground (arith, k))))
          l)
        l
