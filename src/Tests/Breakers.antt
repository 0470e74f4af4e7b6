-- ===== src/Tests/Breakers.antt =====
-- The theorems on internal/ml/breaker.go, applied to small breakers.
use custom_waf.Base.{◌≤◌, ◌≡◌, refl, inl, [], ◌∷◌, pos, Bytes_eq, String_eq, ℕ_eq}
use custom_waf.Ml.Breaker.{
  closed, open_, half_open, CircuitBreaker, new_circuit_breaker, allow, allow_in, record_success,
  record_failure, snapshot, restore,
}
use custom_waf.Ml.Probe.{
  Event, IsSound, run, new-IsSound, let_through, single_probe, fail_at, trips_at_threshold,
  restored_stuck,
}

-- Two failures open it, for ten nanoseconds.
abbrev two_failures : CircuitBreaker
two_failures = record { threshold = 2; cooldown = 10; state = closed; failures = 0; opened_at = 0 }

abbrev opened : CircuitBreaker
opened = record two_failures { state = open_; failures = 2; opened_at = 5 }

abbrev probing : CircuitBreaker
probing = record opened { state = half_open }

-- Of three calls the one after the cooldown gets through.
probes : let_through opened (7 ∷ 16 ∷ 17 ∷ []) ≡ 1
unfolding let_through allow allow_in
probes = refl

new-IsSound_example : IsSound (
    run
      (new_circuit_breaker (pos 0) (pos 10))
      (Event.failure 1 ∷ Event.ask 2 ∷ Event.success ∷ Event.failure 3 ∷ []))
new-IsSound_example =
    new-IsSound (pos 0) (pos 10)
      (Event.failure 1 ∷ Event.ask 2 ∷ Event.success ∷ Event.failure 3 ∷ [])

single_probe_example : let_through opened (7 ∷ 16 ∷ 17 ∷ []) ≤ 1
single_probe_example = single_probe opened (7 ∷ 16 ∷ 17 ∷ []) refl

trips_at_threshold_example :
    let c = fail_at (record_success two_failures) (4 ∷ []) in
    (c.state ≡ closed) × ((record_failure c 5).state ≡ open_) × ((record_failure c 5).opened_at ≡ 5)
trips_at_threshold_example = trips_at_threshold two_failures (4 ∷ []) 5 refl

restored_stuck_example :
    let_through (restore two_failures (snapshot probing) 100) (200 ∷ 300 ∷ []) ≡ 0
restored_stuck_example = restored_stuck probing two_failures 100 (200 ∷ 300 ∷ []) (inl refl)
