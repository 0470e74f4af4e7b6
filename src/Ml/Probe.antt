-- ===== src/Ml/Probe.antt =====
-- The life of the breaker of internal/ml/breaker.go.
use custom_waf.Base.{
  ℕ, suc, ◌+◌, ◌≤◌, ◌<◌, ◌≡◌, refl, ◌⊎◌, List, [], ◌∷◌, arith, ℤ, Bytes_eq, String_eq, ℕ_eq,
  if◌then◌else◌, length, All,
}
use custom_waf.Ml.Breaker.{
  closed, open_, half_open, CircuitBreaker, new_circuit_breaker, allow, record_success,
  record_failure, restore, snapshot,
}

-- Below its limit of failures while closed, and with a positive limit.
pub record IsSound (b : CircuitBreaker) : Type 0 where
  pub limited : 0 < b.threshold
  pub below : b.state ≡ closed → b.failures < b.threshold

-- One call of the client, or the report of one.
pub data Event : Type 0 where
  ask : ℕ → Event
  success : Event
  failure : ℕ → Event

unfoldable pub step : CircuitBreaker → Event → CircuitBreaker
step b (ask now) = (allow b now).0
step b success = record_success b
step b (failure now) = record_failure b now

unfoldable pub run : CircuitBreaker → List Event → CircuitBreaker
run b [] = b
run b (e ∷ es) = run (step b e) es

step-IsSound : (b : CircuitBreaker) (e : Event) → IsSound b → IsSound (step b e)
unfolding step allow record_success record_failure
step-IsSound b (ask now) h = ground arith
step-IsSound b success h = ground arith
step-IsSound b (failure now) h = ground arith

run-IsSound : (es : List Event) (b : CircuitBreaker) → IsSound b → IsSound (run b es)
unfolding run
run-IsSound [] b h = h
run-IsSound (e ∷ es) b h = run-IsSound es (step b e) (step-IsSound b e h)

-- From a new breaker, by any calls and reports in any order: a closed breaker has counted fewer
-- failures than its limit.
pub new-IsSound :
    (threshold cooldown : ℤ) (es : List Event)
    → IsSound (run (new_circuit_breaker threshold cooldown) es)
unfolding new_circuit_breaker
new-IsSound threshold cooldown es = run-IsSound es _ (ground arith)

-- The calls that get through while no report comes back.
unfoldable pub let_through : CircuitBreaker → List ℕ → ℕ
let_through b [] = 0
let_through b (now ∷ times) =
    let r = allow b now in let rest = let_through r.0 times in if r.1 then suc rest else rest

stuck : (b : CircuitBreaker) (times : List ℕ) → b.state ≡ half_open → let_through b times ≡ 0
unfolding let_through allow
stuck b [] h = refl
stuck b (now ∷ times) h = ground (arith, stuck b times h)

-- An open breaker lets at most one call through, however many calls come, until a report comes
-- back.
pub single_probe : (b : CircuitBreaker) (times : List ℕ) → b.state ≡ open_ → let_through b times ≤ 1
unfolding let_through allow
single_probe b [] h = omega arith
single_probe b (now ∷ times) h =
    ground (arith, single_probe b times h, stuck (record b { state = half_open }) times)

-- While the cooldown of an open breaker lasts it lets no call through.
pub open_refuses :
    (b : CircuitBreaker) (times : List ℕ)
    → b.state ≡ open_
    → All (λ now. now < b.opened_at + b.cooldown) times
    → let_through b times ≡ 0
unfolding let_through allow
open_refuses b [] h early = refl
open_refuses b (now ∷ times) h (e, early) = ground (arith, open_refuses b times h early)

-- Consecutive failures, reported at these times.
unfoldable pub fail_at : CircuitBreaker → List ℕ → CircuitBreaker
fail_at b [] = b
fail_at b (now ∷ times) = fail_at (record_failure b now) times

fail_below :
    (b : CircuitBreaker) (times : List ℕ)
    → b.state ≡ closed
    → b.failures + length times < b.threshold
    → ((fail_at b times).state ≡ closed)
      × ((fail_at b times).failures ≡ b.failures + length times)
      × ((fail_at b times).threshold ≡ b.threshold)
unfolding fail_at record_failure
fail_below b [] h l = (h, omega arith, refl)
fail_below b (now ∷ times) h l =
    ground (arith, fail_below (record b { failures = suc b.failures }) times h (omega arith))

record_failure_at :
    (b : CircuitBreaker) (now : ℕ)
    → b.failures + 1 ≡ b.threshold
    → ((record_failure b now).state ≡ open_) × ((record_failure b now).opened_at ≡ now)
unfolding record_failure
record_failure_at b now h = ground arith

-- After a success a closed breaker stays closed through fewer consecutive failures than its limit,
-- and opens with the failure that reaches it.
pub trips_at_threshold :
    (b : CircuitBreaker) (times : List ℕ) (now : ℕ)
    → length times + 1 ≡ b.threshold
    → let c = fail_at (record_success b) times in
      (c.state ≡ closed)
      × ((record_failure c now).state ≡ open_)
      × ((record_failure c now).opened_at ≡ now)
unfolding record_success
trips_at_threshold b times now h =
    let b' = record b { state = closed; failures = 0 } in
    let f = fail_below b' times refl (omega arith) in
    ground (arith, record_failure_at (fail_at b' times) now, f)

-- A breaker that is restored from a half-open one, or from an open one after its cooldown, is
-- half-open, and never lets a call through again: no probe is under way whose report could close it.
pub restored_stuck :
    (saved fresh : CircuitBreaker) (now : ℕ) (times : List ℕ)
    → ((saved.state ≡ half_open)
        ⊎ ((saved.state ≡ open_) × (saved.opened_at + fresh.cooldown ≤ now)))
    → let_through (restore fresh (snapshot saved) now) times ≡ 0
unfolding restore snapshot
restored_stuck saved fresh now times h =
    stuck (restore fresh (snapshot saved) now) times (ground arith)
