-- ===== src/Ml/Breaker.antt =====
-- internal/ml/breaker.go and the breaker's part of internal/ml/persist.go. Times are nanoseconds.
use custom_waf.Base.{
  ℕ, zero, suc, ◌+◌, String, Bool, true, false, ◌||◌, ℤ, pos, negsuc, Bytes_eq, String_eq, ℕ_eq,
  if◌then◌else◌, leb, eqb,
}
use custom_waf.Base.{leb_ℤ, pos_part}

-- `breakerState` is an `int`: a restored value outside the three named ones is kept.
pub data BreakerState : Type 0 where
  closed open_ half_open : BreakerState
  other : ℤ → BreakerState

pub record CircuitBreaker : Type 0 where
  pub threshold : ℕ
  pub cooldown : ℕ
  pub state : BreakerState
  pub failures : ℕ
  pub opened_at : ℕ

-- A limit or a time that is not positive becomes 5 failures, 30 seconds.
unfoldable pub new_circuit_breaker : ℤ → ℤ → CircuitBreaker
new_circuit_breaker threshold cooldown = record {
  threshold = if leb_ℤ threshold (pos 0) then 5 else pos_part threshold;
  cooldown = if leb_ℤ cooldown (pos 0) then 30000000000 else pos_part cooldown;
  state = closed;
  failures = 0;
  opened_at = 0;
}

-- The cooldown has elapsed.
abbrev pub elapsed : CircuitBreaker → ℕ → Bool
elapsed b now = leb (b.opened_at + b.cooldown) now

-- The `switch` of `allow`.
unfoldable pub allow_in : BreakerState → CircuitBreaker → ℕ → CircuitBreaker × Bool
allow_in closed b now = (b, true)
allow_in open_ b now = if elapsed b now then (record b { state = half_open }, true) else (b, false)
allow_in half_open b now = (b, false)
allow_in (other n) b now = (b, true)

unfoldable pub allow : CircuitBreaker → ℕ → CircuitBreaker × Bool
unfolding allow_in
allow b now = allow_in b.state b now

unfoldable pub record_success : CircuitBreaker → CircuitBreaker
record_success b = record b { failures = 0; state = closed }

abbrev pub is_half_open : BreakerState → Bool
is_half_open half_open = true
is_half_open _ = false

unfoldable pub record_failure : CircuitBreaker → ℕ → CircuitBreaker
record_failure b now =
    let b' = record b { failures = suc b.failures } in
    if is_half_open b.state || leb b.threshold b'.failures
    then record b' { state = open_; opened_at = now }
    else b'

-- `State`, of a breaker that is there.
abbrev pub state_name : BreakerState → String
state_name closed = "closed"
state_name open_ = "open"
state_name half_open = "half-open"
state_name (other n) = "unknown"

pub record BreakerSnapshot : Type 0 where
  pub version : ℕ
  pub state : ℤ
  pub failures : ℕ
  pub opened_at : ℕ

-- The number of a state.
abbrev pub state_number : BreakerState → ℤ
state_number closed = pos 0
state_number open_ = pos 1
state_number half_open = pos 2
state_number (other n) = n

abbrev pub state_of : ℤ → BreakerState
state_of (pos zero) = closed
state_of (pos (suc zero)) = open_
state_of (pos (suc (suc zero))) = half_open
state_of (pos (suc (suc (suc n)))) = other (pos (suc (suc (suc n))))
state_of (negsuc n) = other (negsuc n)

-- `Snapshot`; the JSON encoding and the time of saving, which `Restore` does not read, are left out.
unfoldable pub snapshot : CircuitBreaker → BreakerSnapshot
snapshot b = record {
  version = 1;
  state = state_number b.state;
  failures = b.failures;
  opened_at = b.opened_at;
}

-- An open breaker whose cooldown has elapsed is half-open.
abbrev pub collapse : BreakerState → CircuitBreaker → ℕ → CircuitBreaker
collapse open_ b now = if elapsed b now then record b { state = half_open } else b
collapse _ b now = b

unfoldable pub restore : CircuitBreaker → BreakerSnapshot → ℕ → CircuitBreaker
restore b snap now =
    let s = state_of snap.state in
    if eqb snap.version 1
    then collapse s (record b { state = s; failures = snap.failures; opened_at = snap.opened_at })
        now
    else b
