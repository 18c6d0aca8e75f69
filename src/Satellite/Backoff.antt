-- ===== src/Satellite/Backoff.antt =====
-- internal/controller/satelliteephemeris_controller.go: how long a failed fetch holds the next one
-- back, on the entry of the cache that it arms.
use ntn_operators.Base.{
  ℕ, ◌+◌, ◌-◌, ◌*◌, ◌^◌, Bool, true, false, not, ◌||◌, Option, none, some, String, Text, text_eq,
  leb, Time, Duration, pos, max_ℤ, min_ℤ, add_time, if◌then◌else◌,
}
use ntn_operators.Satellite.{
  FetchError, is_rate_limited, is_auth_failed, is_invalid_source_url, is_other, GpFetchResult,
}
use ntn_operators.Satellite.Cadence.{minute}

abbrev pub max_auth_retry_backoff : Duration
max_auth_retry_backoff = pos (15 * minute)

-- retryAfterFrom.
abbrev pub retry_after_from : FetchError → Duration
retry_after_from (is_rate_limited d) = d
retry_after_from _ = pos 0

abbrev pub shift_of : ℕ → ℕ
shift_of failures = if leb (failures - 1) 10 then failures - 1 else 10

unfoldable pub fetch_retry_delay : FetchError → Duration → ℕ → Duration
fetch_retry_delay (is_rate_limited d) interval failures = max_ℤ interval d
fetch_retry_delay is_auth_failed interval failures = min_ℤ interval max_auth_retry_backoff
fetch_retry_delay is_invalid_source_url interval failures =
    min_ℤ (pos (minute * 2 ^ shift_of failures)) interval
fetch_retry_delay (is_other e) interval failures =
    min_ℤ (pos (minute * 2 ^ shift_of failures)) interval

pub data FetchErrClass : Type 0 where
  fetch_err_transient fetch_err_rate_limited fetch_err_auth : FetchErrClass

abbrev pub classify_fetch_err_class : Option FetchError → FetchErrClass
classify_fetch_err_class (some (is_rate_limited d)) = fetch_err_rate_limited
classify_fetch_err_class (some is_auth_failed) = fetch_err_auth
classify_fetch_err_class _ = fetch_err_transient

abbrev pub same_class : FetchErrClass → FetchErrClass → Bool
same_class fetch_err_transient fetch_err_transient = true
same_class fetch_err_rate_limited fetch_err_rate_limited = true
same_class fetch_err_auth fetch_err_auth = true
same_class _ _ = false

-- cachedFetch. An instant that is zero and a text that is empty are not set.
pub record CachedFetch {ℓ} (E F : Type ℓ) : Type ℓ where
  pub result : GpFetchResult E F
  pub fetch_key : Text
  pub uid : String
  pub next_fetch_attempt : Time
  pub last_fetch_err : Option FetchError
  pub fetch_failures : ℕ
  pub retry_key : Text

module _ {ℓ} {E F : Type ℓ} where
  unfoldable pub failures_after : CachedFetch E F → FetchError → Text → ℕ
  failures_after c err new_retry_key =
      if not (text_eq new_retry_key c.retry_key)
        || not (
            same_class (classify_fetch_err_class (some err))
              (classify_fetch_err_class c.last_fetch_err))
      then 1
      else c.fetch_failures + 1

  unfoldable pub apply_fetch_backoff :
      CachedFetch E F → FetchError → Text → Duration → Time → CachedFetch E F
  unfolding failures_after
  apply_fetch_backoff c err new_retry_key interval now =
      let failures = failures_after c err new_retry_key in
      record c {
        fetch_failures = failures;
        next_fetch_attempt = add_time now (fetch_retry_delay err interval failures);
        last_fetch_err = some err;
        retry_key = new_retry_key;
      }

-- classifyFetchError: the reason, and the requeue or `none` to return the error.
unfoldable pub classify_fetch_error : FetchError → Duration → String × Option Duration
classify_fetch_error (is_rate_limited d) interval = ("RateLimited", some (max_ℤ interval d))
classify_fetch_error is_auth_failed interval = ("AuthFailed", some interval)
classify_fetch_error is_invalid_source_url interval = ("InvalidSourceURL", some interval)
classify_fetch_error (is_other e) interval = ("FetchFailed", none)
