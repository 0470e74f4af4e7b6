-- ===== src/Lib.antt =====
-- A model of the core of a web application firewall. For each request the middleware parses and
-- normalizes it, asks the decision engine whether it bypasses the rules or comes from an allowed
-- address, then the rate limiter; it evaluates the rules, asks the ML service about ambiguous
-- scores, gives the result to the behaviour analysis, puts a ban that this reports on the deny
-- list, and lets the decision engine decide whether the upstream sees the request.
--
-- The parts and the code they model:
--
-- RateLimit: internal/ratelimit/ratelimit.go. `RateLimiter` is the struct with its maps as
-- association lists; `is_rate_limited_with_route` is IsRateLimitedWithRoute, composed of
-- `match_endpoint` (matchEndpointLocked), `use_bucket` (the refill and the use of a token) and
-- `is_route_limited` (isRouteLimited). Match, Bucket, Limiter and Admin hold the code, Persist
-- that of internal/ratelimit/persist.go; Longest, Refill, Frame, Budget, Runs, Cleaned, Quota,
-- Outcome and Ranking are about it. Each method is one function from the state and the clock to
-- the new state and the answer.
--
-- Engine: internal/engine. Types (types.go), Tracker (tracker.go), Operators (operators.go),
-- Selector (selector.go), MlHook (ml_hook.go), Filter, Detect, Evaluate, Validate and Load
-- (rule_engine.go, and compileRule of operators.go), Persist (tracker_persist.go and
-- metrics_persist.go). `evaluate` is Evaluate, a loop of `rule_step` over the rules that carries
-- result, counters and metrics. Counter, Order, Words, Labels, Labelled, Tally and Reload are
-- about them.
--
-- Decision: internal/decision/decision.go. Lists holds the allow and deny lists, Verdict
-- DecideWithDetails with the texts of Reason, Threshold the adaptive threshold, Bypass the paths
-- that skip the rules, Stored the form in which a list is saved, Persist the snapshot of
-- internal/decision/persist.go; Outcome, Counts, Expiry, Access and Restore are about them.
--
-- Behavior: internal/behavior. Checks and Detector hold detector.go: `analyze` is Analyze, which
-- answers `refuse` under a ban and else runs the checks in `inspect`; Persist holds persist.go.
-- Ban, Trip and Restored are about them.
--
-- Ml: internal/ml. Breaker (breaker.go), Cache (cache.go) with the linked list as a list of
-- addresses and entries beside the index, Client (client.go) with the HTTP exchange as an
-- argument; each with its part of persist.go. Probe is about the breaker; Lru is the specification
-- of the cache, Linked, Refine and Replay its refinement; Answered, Held, Recent, Writes and
-- Remembered are about client and cache together.
--
-- Request: Parser (internal/parser/parser.go) and Normalizer (internal/normalizer/normalizer.go).
-- Training: internal/training, the texts for the model (Text, Canonical) and the records
-- (Capture).
--
-- Pipeline: internal/middleware/waf.go. `serve_http` is ServeHTTP, from the state of all
-- components and a request to their new state and the list of `Effect`s: forwards, answers, log
-- entries, alerts and counts. Inference is runMLInference, Answers what the handler answers and
-- logs. Forwards, Denied and DryRun are about it.
--
-- Api: internal/api/logbuffer.go in Ring; Replay and Restored are about it. Auth: internal/auth,
-- Revocation (revocation.go) and Jwt (jwt.go); Sweep is about the former.
--
-- Notifier: internal/notifier/notifier.go. Send is Send, Work the worker with its throttle, its
-- loop over the destinations and the sweep, Config New, SetConfig and the tests of a destination.
-- Run is a run of these operations; Steady, Guard, Spacing and Account are about them. The
-- pipeline hands its alert over as an effect, in a record of its own.
--
-- Base holds what the parts share: tests on numbers, lists, maps, byte strings, 64-bit integers
-- and the interface of floats. Tests applies the theorems to concrete inputs.
--
-- Conventions. A time is a number of nanoseconds, and 0 is the zero time. A string that is walked
-- or used as a key is a list of bytes; one that is only compared with literals is a `String`. An
-- `int` that may be negative or overflow is a ℤ, with the wrap-around of 64 bits written out by
-- `int64`; counters that grow by one at a time are natural numbers. A Go map is an association
-- list with one entry per key, and a loop over it goes through the list, in whatever order it has.
-- Locks are not modelled: each method is one step. A wait in seconds is exact; the code takes it
-- through a `float64`, which can differ from it by a second for waits of months. `float64` is the
-- interface `Float64`, and what is taken from Go's libraries (regular expressions, addresses, case
-- folding, number and query parsing) is the record `Platform`; both are arguments.
--
-- Fuel: the word search `scan_word` takes one more than the length of the input, since each round
-- drops a byte. The eviction loop of the cache takes one more than the length of the list, since
-- each round removes an entry. Decoding a path takes the three rounds of the code, and printing a
-- length its twenty digits, enough for 64 bits. The bubble sort takes the number of rounds that
-- the code's loop makes. All other loops are recursions on lists.
--
-- One reading of the clock stands for the readings that one request makes in the handler and in
-- the behaviour analysis; the client of the model has its own, since an exchange takes time.
--
-- Not modelled: the encoding of snapshots as JSON, the parsing of rules (loader.go), SQL and the
-- stores, the HTTP handlers of the management API, the files and the rotation of the logs, the
-- collector of metrics, the texts of alerts, users, the text of the block pages, the single text
-- transforms of rules (a table of functions), and entropy (a logarithm).
pub mod Base
pub mod RateLimit
pub mod Engine
pub mod Decision
pub mod Ml
pub mod Behavior
pub mod Request
pub mod Training
pub mod Pipeline
pub mod Api
pub mod Auth
pub mod Notifier
pub mod Tests
