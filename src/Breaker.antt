-- ===== src/Breaker.antt =====
-- The circuit breaker of cache.go: `circuitBreaker` with `allow`, `success` and `failure`. A time is
-- a number of nanoseconds since Go's zero time, so `IsZero` is a comparison with 0. Each method
-- holds the mutex throughout, so it is one step from state to state.
pub mod Phase
pub mod Admission
mod Tests
use sokol_traefik_plugin.Prelude.{
  ℕ, ◌+◌, Bool, true, false, ◌||◌, ltb, leb, ◌==◌, nat_eq, if◌then◌else◌,
}

pub record CircuitBreaker : Type 0 where
  pub failure_threshold : ℕ
  pub open_duration : ℕ
  pub failures : ℕ
  pub open_until : ℕ
  pub probe : Bool

unfoldable pub new_circuit_breaker : ℕ → ℕ → CircuitBreaker
new_circuit_breaker failure_threshold open_duration = record {
  failure_threshold = failure_threshold;
  open_duration = open_duration;
  failures = 0;
  open_until = 0;
  probe = false;
}

unfoldable pub allow : CircuitBreaker → ℕ → CircuitBreaker × Bool
allow c now =
    if c.open_until == 0
    then (c, true)
    else if ltb now c.open_until
    then (c, false)
    else if c.probe
    then (c, false)
    else (record c { probe = true }, true)

unfoldable pub success : CircuitBreaker → CircuitBreaker
success c = record c { failures = 0; open_until = 0; probe = false }

unfoldable pub failure : CircuitBreaker → ℕ → CircuitBreaker
failure c now =
    let failures = c.failures + 1 in
    record c {
      failures = failures;
      open_until =
          if c.probe || leb c.failure_threshold failures
          then now + c.open_duration
          else c.open_until;
      probe = false;
    }
