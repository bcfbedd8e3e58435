-- ===== src/Breaker/Phase.antt =====
-- The circuit breaker as a state machine with three phases, and the proof that the fields of
-- `circuitBreaker` implement it.
use sokol_traefik_plugin.Prelude.{
  ℕ, ◌+◌, ◌≤◌, ◌<◌, ◌≡◌, ◌≢◌, refl, Bool, true, false, ltb, leb, ◌==◌, nat_eq, if◌then◌else◌, arith,
}
use sokol_traefik_plugin.Breaker.{CircuitBreaker, new_circuit_breaker, allow, success, failure}

-- `closed n`: requests pass, after n failures in a row. `opened t`: none passes before t.
-- `probing t`: one request is on trial, and no other passes.
pub data Phase : Type 0 where
  closed : ℕ → Phase
  opened : ℕ → Phase
  probing : ℕ → Phase

-- The specification of the three methods.
unfoldable pub admit : Phase → ℕ → Phase × Bool
admit (closed n) now = (closed n, true)
admit (opened t) now = if ltb now t then (opened t, false) else (probing t, true)
admit (probing t) now = (probing t, false)

unfoldable pub trip : ℕ → ℕ → Phase → ℕ → Phase
trip threshold duration (closed n) now =
    if leb threshold (n + 1) then opened (now + duration) else closed (n + 1)
trip threshold duration (opened t) now = opened (now + duration)
trip threshold duration (probing t) now = opened (now + duration)

-- The phase that the fields stand for.
unfoldable pub phase : CircuitBreaker → Phase
phase c =
    if c.open_until == 0
    then closed c.failures
    else if c.probe
    then probing c.open_until
    else opened c.open_until

pub record IsValid (c : CircuitBreaker) : Type 0 where
  pub threshold_pos : 0 < c.failure_threshold
  pub duration_pos : 0 < c.open_duration
  pub below : c.open_until ≡ 0 → c.failures < c.failure_threshold
  pub above : c.open_until ≢ 0 → c.failure_threshold ≤ c.failures
  pub on_trial : c.probe ≡ true → c.open_until ≢ 0

pub new_circuit_breaker-IsValid : (n d : ℕ) → 0 < n → 0 < d → IsValid (new_circuit_breaker n d)
unfolding new_circuit_breaker
new_circuit_breaker-IsValid n d hn hd = ground arith

pub allow-IsValid : (c : CircuitBreaker) (now : ℕ) → IsValid c → IsValid (allow c now).0
unfolding allow
allow-IsValid c now v = ground arith

pub success-IsValid : (c : CircuitBreaker) → IsValid c → IsValid (success c)
unfolding success
success-IsValid c v = ground arith

pub failure-IsValid : (c : CircuitBreaker) (now : ℕ) → IsValid c → IsValid (failure c now)
unfolding failure
failure-IsValid c now v = ground arith

-- The answer and the next phase of `allow` are those of the machine.
pub allow-phase :
    (c : CircuitBreaker) (now : ℕ)
    → IsValid c
    → (phase (allow c now).0 ≡ (admit (phase c) now).0)
      × ((allow c now).1 ≡ (admit (phase c) now).1)
unfolding allow phase admit
allow-phase c now v = ground arith

pub success-phase : (c : CircuitBreaker) → phase (success c) ≡ closed 0
unfolding success phase
success-phase c = refl

pub failure-phase :
    (c : CircuitBreaker) (now : ℕ)
    → IsValid c
    → phase (failure c now) ≡ trip c.failure_threshold c.open_duration (phase c) now
unfolding failure phase trip
failure-phase c now v = ground arith

pub new_circuit_breaker-phase : (n d : ℕ) → phase (new_circuit_breaker n d) ≡ closed 0
unfolding new_circuit_breaker phase
new_circuit_breaker-phase n d = refl
