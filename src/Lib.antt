-- ===== src/Lib.antt =====
-- Verification library of ntn-operators, a Kubernetes operator that moves network slices between a
-- terrestrial and a satellite path.
--
-- How the program hangs together. The NTNSlice reconciler
-- (internal/controller/ntnslice_controller.go) reads path-quality metrics (pkg/slice/metrics) and the
-- pass windows that pkg/ephemeris/pass_predictor.go has predicted into the status of a
-- SatelliteEphemeris, asks the failover engine (pkg/slice/failover.go) for a decision, writes the
-- status of the slice, and commits its in-memory anti-flap state once the write is durable. The
-- SatelliteEphemeris reconciler (internal/controller/satelliteephemeris_controller.go) fetches orbital
-- element sets, or takes them from its cache or a ConfigMap, propagates them every three minutes for
-- the push to the cells, and predicts the pass windows that the slices read. The
-- ground station controller follows the Node of a station, and runs firmware updates within a daily
-- maintenance window (pkg/lifecycle/maintenance_window.go); it shares no state with the slices.
--
-- Which file models what.
-- Base and its children: tests on numbers, lists, integers (Base/Int), Go strings as lists of code
--   points with strings.TrimSpace and SplitN (Base/Strings), time.Time and time.Duration in
--   nanoseconds with the saturating Sub (Base/Clock), Go maps as association lists (Base/Dict).
-- Float: float64 as a type with operations, and the laws of IEEE 754 that proofs use. NaN and the
--   infinities are values of that type; strconv.ParseFloat is one of the operations.
-- Slice (pkg/slice/failover.go): Trigger (Trigger, Metrics, Evaluate, EvaluateRecovery,
--   metricMissing), Parse (ParseTrigger), TriggerSet (parseTriggerSet, InertTriggers,
--   terrestrialDegraded, terrestrialConfirmedRecovered), Path (PathType, Decision, FailoverResult; the
--   texts of Reason are constructors of Cause), Evaluate (EvaluateFailover and its variants,
--   EvaluateSafeHold), AntiFlap (EvaluateFailoverWithAntiFlap). Proofs: Safety, Agreement, Decisions,
--   Runs, DeadBand, Syntax.
-- Controller (internal/controller): Freshness (ephemeris_freshness.go), Contact
--   (checkSatelliteAvailability, earlierLOSCandidate, buildContactCandidate), FlapState (the anti-flap
--   map and the durable dwell clock), Reconcile (Reconcile from Step 2 to Step 8). Proofs:
--   Contact/Order, Contact/Selection, Durability, Isolation, Held, Outage, Clocks.
-- Station (internal/controller/groundstationlifecycle_controller.go and pkg/lifecycle): Station (the
--   data), Window (maintenance_window.go), Health (reconcileHealth, findMatchingNode,
--   checkHTTPEndpoint), Firmware (reconcileFirmware), Reconcile. Proofs: Windows, Accepted, Phases,
--   Updates, Lifecycle, Progress, Announce, Invariant, Reports.
-- Passes (pkg/ephemeris/pass_predictor.go): Passes (the data), Window (conservativePassWindow), Mask
--   (trimPassToMask, refineMaskCrossing), Cap (lessPass, capPerSatellite), Predict (predictSingle,
--   FilterOMMs, ParseElevation, and PredictPasses but for its pool), Pool (the worker pool). Proofs:
--   Order, Rounding, Bisection, Crossing, Trim, Shares, Fairness, Schedules, Soundness.
-- Readers (pkg/slice/metrics and pkg/netutil/allowlist.go): Readers (reader.go and the errors),
--   Annotation, Prometheus, Stale, Clients (clientpool.go), Provider, Allowlist, each for the file of
--   that name. Proofs: Outage (the stale cache with the anti-flap engine), Configured and Served (the
--   provider), Present (the Prometheus reader).
-- Egress (pkg/netutil/safeclient.go): Egress (IsPrivateIP, embeddedIPv4), Dial (safeDialContext,
--   CheckRedirect). Proofs: Dotted, Transit, Guarded.
-- Ocudu (pkg/provider/ocudu/config.go): Ocudu (the spec and configData), Config (GenerateConfig up to
--   the execution of its template). Proof: Generated.
-- Satellite (internal/controller/satelliteephemeris_controller.go): Satellite (the data, and
--   conditionEpisodeChanged of events.go), Cadence (clampRefreshInterval, effectivePassHorizon,
--   passSweepDue, invalidatePassPredictionStatus), Backoff (cachedFetch, applyFetchBackoff,
--   classifyFetchError), Cache (matchingCache, cacheServe), Durable
--   (satelliteephemeris_ommcache_persist.go), Failure (persistEphStatus and the three handlers of a
--   reconcile without element sets), Sources (fetcherForSource, publicHTTPSource), Acquire
--   (acquireOMMs, obtainOMMs), Canonical (canonicalizeOMMs), Propagate (propagateStates, its reports,
--   PropagateToECEF of pkg/ephemeris/propagator.go), Regime (pkg/ephemeris/orbit_regime.go), Digests
--   (propagationInputHash, passPredictionInputSignature), Sweep (predictPasses,
--   handlePassPrediction), Reconcile. Proofs: Matching, Own, Continuity, Etiquette, Ramp, Restart, Kept,
--   Windows, Picks, Order, Attempts, Capped, States, Sweeps, Heartbeat.
-- Tests: concrete inputs, with whole numbers in the place of float64 (Tests/Whole).
--
-- How state and operations correspond. A method that mutates its receiver is a function that returns
-- the new value; a mutex-guarded map is a value that the reconcile takes and returns, since each call
-- holds the lock for its whole body. World holds what a reconcile of one slice can change: its durable
-- status, the map, the failover counter and the decision events. Inputs holds what it reads: the
-- outcome of the metrics read, the contact, the clock, and whether the status write succeeds. A status
-- time reads back as `stored` of what was written, since a metav1.Time keeps whole seconds only.
--
-- The ground station controller keeps no state in memory. Its conditions are a type with the set,
-- find and remove of k8s.io/apimachinery as parameters; a condition's reason carries what its message
-- prints. Each reading of the clock in one reconcile is an input of its own.
--
-- Pass prediction takes the sgp4 package as a record of the calls that the code makes, and sort.Slice as
-- a function that gives a permutation in which no pass is less than an earlier one, with no word on
-- ties. The goroutines of PredictPasses are a step relation on the channel, the items that workers
-- hold, the shared slice and the error; a run is any sequence of steps. That the channel is closed and
-- the lock released, and so that the pool comes to an end, is not part of it.
--
-- A metrics reader takes the answers of its queries, the clock and whether the caller's context is done
-- as inputs. The pool of clients and the provider are values that each locked section takes and
-- leaves; a call that builds a client or a reader outside the lock and then stores it is the
-- composition of its sections. url.Parse, strings.ToLower, json.Marshal and the construction of a
-- Prometheus client are parameters. An IP address is a number of 32 or of 128 bits; the resolver and
-- the dialer are parameters.
--
-- The satellite ephemeris controller's World holds the durable status, the cache of all objects, the
-- object's ConfigMap, the gauge gp_fetch_ready and the events. An early return of obtainOMMs is a
-- constructor of its result; each status write and each reading of the clock is an input. The keys
-- and the digests are texts that a Printer gives for what they are made of, and sort.Slice on the
-- element sets gives some sorted arrangement of what the map held. What a fetcher answers, the
-- Secrets, the resolver, json, time.Parse, sgp4, the rotation to the ECEF frame with its quantization,
-- and PredictPasses, which Passes models, are parameters.
--
-- Bounds. All loops run over lists, but for the bisection, whose fuel is the forty rounds of the
-- source, so that it stops where the source does. Counters (int, int64) are unbounded. An
-- instant before the zero time.Time or, for a source epoch, before 1970, and a negative count in the
-- spec, are not represented; strings are valid UTF-8.
--
-- Not modelled: logging, metric labels, the text of messages, the conditions of a slice, and the other
-- controllers and packages (the manifest lists them with the reason).
mod Base
pub mod Float
pub mod Slice
pub mod Controller
pub mod Station
pub mod Passes
pub mod Readers
pub mod Egress
pub mod Ocudu
pub mod Satellite
mod Tests
