-- ===== src/Readers/Outage.antt =====
-- pkg/slice/metrics/stale.go with pkg/slice/failover.go: what an outage of the source does to the cache
-- and to the clocks of the anti-flap engine.
use ntn_operators.Base.{
  ◌≡◌, ◌≢◌, ◌⊎◌, refl, ap, ◌∙◌, inl, inr, Bool, true, false, some, List, [], ◌∷◌, Text, text_eq_iff,
  is_empty, Time, is_zero, arith, Bool-cases, Option-cases,
}
use ntn_operators.Base.Dict.{lookup, lookup-insert}
use ntn_operators.Slice.AntiFlap.{AntiFlapState, is_new, observe}
use ntn_operators.Readers.{Sample, ReadError, Outcome, got, failed, text_key}
use ntn_operators.Readers.Stale.{StaleEntry, CacheState, entry_of, replay, read_stale}

-- One read through the cache, of any slice.
pub record Read {ℓ} (F : Type ℓ) : Type ℓ where
  pub uid : Text
  pub inner : Outcome (Sample F)
  pub ctx_done : Bool
  pub now : Time

module _ {ℓ} {F : Type ℓ} where
  abbrev after_read : Read F → CacheState F → CacheState F
  after_read r c = (read_stale r.uid r.inner r.ctx_done r.now c).1

  abbrev pub after_reads : List (Read F) → CacheState F → CacheState F
  after_reads [] c = c
  after_reads (r ∷ rs) c = after_reads rs (after_read r c)

  abbrev pub is_failed : Outcome (Sample F) → Bool
  is_failed (got s) = false
  is_failed (failed e) = true

  -- No read of this slice succeeds.
  abbrev pub IsOutage : Text → List (Read F) → Type 0
  IsOutage uid [] = Unit {0}
  IsOutage uid (r ∷ rs) = ((r.uid ≢ uid) ⊎ (is_failed r.inner ≡ true)) × IsOutage uid rs

  read_stale-kept :
      (uid other : Text) (inner : Outcome (Sample F)) (ctx_done : Bool) (now : Time)
      (c : CacheState F)
      → (other ≢ uid) ⊎ (is_failed inner ≡ true)
      → lookup uid ((read_stale other inner ctx_done now c).1).cache ≡ lookup uid c.cache
  unfolding read_stale
  read_stale-kept uid other (failed e) ctx_done now c h = elim (Bool-cases (is_empty other)) [
    | inl d ↦ rw (read_stale, d) refl
    | inr d ↦ elim (Bool-cases ctx_done) [
      | inl k ↦ rw (read_stale, d, k) refl
      | inr k ↦ elim (Option-cases (lookup other c.cache)) [
        | inl l ↦ rw (read_stale, d, k, l) refl
        | inr (v, l) ↦ rw (read_stale, d, k, l) refl
      ]
    ]
  ]
  read_stale-kept uid other (got s) ctx_done now c (inr h) = absurd (cc)
  read_stale-kept uid other (got s) ctx_done now c (inl h) = elim (Bool-cases (is_empty other)) [
    | inl d ↦ rw (read_stale, d) refl
    | inr d ↦
        rw (read_stale, d)
          (ground
            (arith, lookup-insert other uid (entry_of s now) c.cache, text_eq_iff other uid, h))
  ]

  after_reads-kept :
      (uid : Text) (rs : List (Read F)) (c : CacheState F)
      → IsOutage uid rs
      → lookup uid (after_reads rs c).cache ≡ lookup uid c.cache
  after_reads-kept uid [] c h = refl
  after_reads-kept uid (r ∷ rs) c (h, k) =
      after_reads-kept uid rs (after_read r c) k
      ∙ read_stale-kept uid r.uid r.inner r.ctx_done r.now c h

  read_stale-stored :
      (uid : Text) (s : Sample F) (ctx_done : Bool) (now : Time) (c : CacheState F)
      → is_empty uid ≡ false
      → lookup uid ((read_stale uid (got s) ctx_done now c).1).cache ≡ some (entry_of s now)
  unfolding read_stale
  read_stale-stored uid s ctx_done now c d =
      rw (read_stale, d)
        (ground (arith, lookup-insert uid uid (entry_of s now) c.cache, text_eq_iff uid uid))

  read_stale-replayed :
      (uid : Text) (e : ReadError) (later : Time) (c : CacheState F) (entry : StaleEntry F)
      → is_empty uid ≡ false
      → lookup uid c.cache ≡ some entry
      → (read_stale uid (failed e) false later c).0 ≡ got (replay entry)
  unfolding read_stale
  read_stale-replayed uid e later c entry d l = rw (read_stale, d, l) refl

  -- A failed read gives again what the last successful read of the slice gave, marked stale, with the
  -- time of that read and the source time of its sample, whatever was read in between; the caller's
  -- context is alive.
  pub read_stale-replay :
      (uid : Text) (s : Sample F) (ctx_done : Bool) (now later : Time) (e : ReadError)
      (rs : List (Read F)) (c : CacheState F)
      → is_empty uid ≡ false
      → IsOutage uid rs
      → (read_stale uid
          (failed e)
          false
          later
          (after_reads rs ((read_stale uid (got s) ctx_done now c).1))).0
        ≡ got (record s { stale = true; last_fresh_at = now })
  read_stale-replay uid s ctx_done now later e rs c d h =
      read_stale-replayed uid e later _ (entry_of s now) d
        (after_reads-kept uid rs _ h ∙ read_stale-stored uid s ctx_done now c d)

-- A reconcile in an outage: the error of the source, the clock of the read, and what the engine makes
-- of the sample.
pub record Round : Type 0 where
  pub error : ReadError
  pub read_at : Time
  pub degraded : Bool
  pub recovered : Bool
  pub now : Time

observe-again :
    (at : Time) (d d' k k' : Bool) (now now' : Time) (st : AntiFlapState)
    → is_zero at ≡ false
    → observe at d' k' now' (observe at d k now st) ≡ observe at d k now st
unfolding observe is_new
observe-again at d d' k k' now now' st z = ground (arith, z)

module _ {ℓ} {F : Type ℓ} where
  abbrev pub seen : Outcome (Sample F) → Round → AntiFlapState → AntiFlapState
  seen (failed e) r st = st
  seen (got s) r st = observe s.observed_at r.degraded r.recovered r.now st

  -- The engine's clocks after the rounds.
  abbrev pub after_rounds : Text → List Round → CacheState F → AntiFlapState → AntiFlapState
  after_rounds uid [] c st = st
  after_rounds uid (r ∷ rs) c st =
      let x = read_stale uid (failed r.error) false r.read_at c in
      after_rounds uid rs x.1 (seen x.0 r st)

  rounds-kept :
      (uid : Text) (rs : List Round) (c : CacheState F) (entry : StaleEntry F) (st : AntiFlapState)
      → is_empty uid ≡ false
      → lookup uid c.cache ≡ some entry
      → ((r : Round) → observe entry.observed_at r.degraded r.recovered r.now st ≡ st)
      → after_rounds uid rs c st ≡ st
  rounds-kept uid [] c entry st d l h = refl
  rounds-kept uid (r ∷ rs) c entry st d l h =
      let x = read_stale uid (failed r.error) false r.read_at c in
      let same =
        ap (λ o. seen o r st) (read_stale-replayed uid r.error r.read_at c entry d l) ∙ h r in
      ap (after_rounds uid rs x.1) same
      ∙ rounds-kept uid rs x.1 entry st d
          (read_stale-kept uid uid (failed r.error) false r.read_at c (inr refl) ∙ l) h

  -- A sample with a source time counts once: after it has been read and observed, no number of
  -- failed reads, which replay it, changes the engine's streaks, its recovery clock or its cursor.
  pub outage-counts_once :
      (uid : Text) (s : Sample F) (ctx_done : Bool) (read_at now : Time) (degraded recovered : Bool)
      (rs : List Round) (c : CacheState F) (st : AntiFlapState)
      → is_empty uid ≡ false
      → is_zero s.observed_at ≡ false
      → let st' = observe s.observed_at degraded recovered now st in
        after_rounds uid rs ((read_stale uid (got s) ctx_done read_at c).1) st' ≡ st'
  outage-counts_once uid s ctx_done read_at now degraded recovered rs c st d z =
      rounds-kept uid rs _ (entry_of s read_at) _ d (read_stale-stored uid s ctx_done read_at c d)
        (λ r. observe-again s.observed_at degraded r.degraded recovered r.recovered now r.now st z)
