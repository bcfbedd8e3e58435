-- ===== src/Breaker/Admission.antt =====
-- Sequences of calls on one breaker: what it answers to any interleaving of the requests that
-- share it. Each method runs under the mutex, so an interleaving is a list of calls.
use sokol_traefik_plugin.Prelude.{
  ℕ, ◌+◌, ◌<◌, ◌≡◌, ◌≢◌, refl, ◌∙◌, Bool, true, false, not, List, [], ◌∷◌, ltb, leb, nat_eq,
  if◌then◌else◌, length, All, arith,
}
use sokol_traefik_plugin.Breaker.{CircuitBreaker, new_circuit_breaker, allow, success, failure}
use sokol_traefik_plugin.Breaker.Phase.{
  Phase, closed, admit, trip, phase, IsValid, new_circuit_breaker-IsValid, allow-IsValid,
  success-IsValid, failure-IsValid, allow-phase, success-phase, failure-phase,
  new_circuit_breaker-phase,
}

pub data Call : Type 0 where
  ask : ℕ → Call
  report_success : Call
  report_failure : ℕ → Call

-- The answers to the `ask`s, in order.
unfoldable pub answers : CircuitBreaker → List Call → List Bool
answers c [] = []
answers c (ask now ∷ calls) = (allow c now).1 ∷ answers (allow c now).0 calls
answers c (report_success ∷ calls) = answers (success c) calls
answers c (report_failure now ∷ calls) = answers (failure c now) calls

-- The same by the state machine of three phases.
pub expected : ℕ → ℕ → Phase → List Call → List Bool
expected n d p [] = []
expected n d p (ask now ∷ calls) = (admit p now).1 ∷ expected n d (admit p now).0 calls
expected n d p (report_success ∷ calls) = expected n d (closed 0) calls
expected n d p (report_failure now ∷ calls) = expected n d (trip n d p now) calls

-- The settings never change.
allow_settings :
    (c : CircuitBreaker) (now : ℕ)
    → ((allow c now).0.failure_threshold ≡ c.failure_threshold)
      × ((allow c now).0.open_duration ≡ c.open_duration)
unfolding allow
allow_settings c now = ground arith

success_settings :
    (c : CircuitBreaker)
    → ((success c).failure_threshold ≡ c.failure_threshold)
      × ((success c).open_duration ≡ c.open_duration)
unfolding success
success_settings c = (refl, refl)

failure_settings :
    (c : CircuitBreaker) (now : ℕ)
    → ((failure c now).failure_threshold ≡ c.failure_threshold)
      × ((failure c now).open_duration ≡ c.open_duration)
unfolding failure
failure_settings c now = (refl, refl)

answers-expected_from :
    (n d : ℕ) (c : CircuitBreaker) (calls : List Call)
    → c.failure_threshold ≡ n
    → c.open_duration ≡ d
    → IsValid c
    → answers c calls ≡ expected n d (phase c) calls
unfolding answers expected
answers-expected_from n d c [] hn hd v = refl
answers-expected_from n d c (ask now ∷ calls) hn hd v =
    let (same_n, same_d) = allow_settings c now in
    let (state, answer) = allow-phase c now v in
    let rest =
      answers-expected_from n d (allow c now).0 calls (same_n ∙ hn) (same_d ∙ hd)
        (allow-IsValid c now v) in
    cc
answers-expected_from n d c (report_success ∷ calls) hn hd v =
    let (same_n, same_d) = success_settings c in
    let rest =
      answers-expected_from n d (success c) calls (same_n ∙ hn) (same_d ∙ hd)
        (success-IsValid c v) in
    cc (success-phase c)
answers-expected_from n d c (report_failure now ∷ calls) hn hd v =
    let (same_n, same_d) = failure_settings c now in
    let rest =
      answers-expected_from n d (failure c now) calls (same_n ∙ hn) (same_d ∙ hd)
        (failure-IsValid c now v) in
    cc (failure-phase c now v)

-- A new breaker with a positive threshold and open duration answers every sequence of calls, of
-- whatever times, as the machine of three phases does from `closed 0`.
pub answers-expected :
    (threshold duration : ℕ) (calls : List Call)
    → 0 < threshold
    → 0 < duration
    → answers (new_circuit_breaker threshold duration) calls
      ≡ expected threshold duration (closed 0) calls
unfolding new_circuit_breaker
answers-expected n d calls p q =
    let v = new_circuit_breaker-IsValid n d p q in
    let fresh = new_circuit_breaker-phase n d in
    let rest = answers-expected_from n d (new_circuit_breaker n d) calls refl refl v in cc

-- Only questions.
pub asks : CircuitBreaker → List ℕ → List Bool
asks c [] = []
asks c (now ∷ times) = (allow c now).1 ∷ asks (allow c now).0 times

allow_on_trial :
    (c : CircuitBreaker) (now : ℕ)
    → c.open_until ≢ 0
    → c.probe ≡ true
    → ((allow c now).0 ≡ c) × ((allow c now).1 ≡ false)
unfolding allow
allow_on_trial c now h p = ground arith

asks_on_trial :
    (c : CircuitBreaker) (times : List ℕ)
    → c.open_until ≢ 0
    → c.probe ≡ true
    → All (λ b. b ≡ false) (asks c times)
unfolding asks
asks_on_trial c [] h p = tt
asks_on_trial c (now ∷ times) h p =
    let (same, denied) = allow_on_trial c now h p in (denied, rw same (asks_on_trial c times h p))

allow_starts_trial :
    (c : CircuitBreaker) (now : ℕ)
    → c.open_until ≢ 0
    → (allow c now).1 ≡ true
    → ((allow c now).0.open_until ≢ 0) × ((allow c now).0.probe ≡ true)
unfolding allow
allow_starts_trial c now h admitted = ground arith

-- When a breaker that has opened admits a request, it admits no other before one reports back,
-- however many ask and however late.
pub one_trial :
    (c : CircuitBreaker) (now : ℕ) (times : List ℕ)
    → c.open_until ≢ 0
    → (allow c now).1 ≡ true
    → All (λ b. b ≡ false) (asks (allow c now).0 times)
one_trial c now times h admitted =
    let (still, trial) = allow_starts_trial c now h admitted in
    asks_on_trial (allow c now).0 times still trial

-- Failures at the given times, oldest first, with no success between them.
pub failures_at : CircuitBreaker → List ℕ → CircuitBreaker
failures_at c [] = c
failures_at c (now ∷ times) = failures_at (failure c now) times

failure_count : (c : CircuitBreaker) (now : ℕ) → (failure c now).failures ≡ c.failures + 1
unfolding failure
failure_count c now = refl

failures_at-IsValid :
    (c : CircuitBreaker) (times : List ℕ)
    → IsValid c
    → IsValid (failures_at c times)
      × ((failures_at c times).failures ≡ c.failures + length times)
      × ((failures_at c times).failure_threshold ≡ c.failure_threshold)
      × ((failures_at c times).open_duration ≡ c.open_duration)
unfolding failures_at
failures_at-IsValid c [] v = (v, omega arith, refl, refl)
failures_at-IsValid c (now ∷ times) v =
    let (ok, count, n, d) = failures_at-IsValid (failure c now) times (failure-IsValid c now v) in
    (
      ok,
      omega (arith, failure_count c now),
      n ∙ (failure_settings c now).0,
      d ∙ (failure_settings c now).1,
    )

allow_after_failure :
    (c : CircuitBreaker) (last now : ℕ)
    → IsValid c
    → (allow (failure c last) now).1 ≡ (
        if leb c.failure_threshold (c.failures + 1)
        then not (ltb now (last + c.open_duration))
        else true)
unfolding allow failure
allow_after_failure c last now v = ground arith

-- After failures at `times` and then at `last`, with no success, a new breaker admits a request
-- exactly when they are fewer than the threshold or the open duration has passed since `last`.
pub allow-failures_at :
    (threshold duration : ℕ) (times : List ℕ) (last now : ℕ)
    → 0 < threshold
    → 0 < duration
    → (allow (failure (failures_at (new_circuit_breaker threshold duration) times) last) now).1
      ≡ (if leb threshold (length times + 1) then not (ltb now (last + duration)) else true)
unfolding new_circuit_breaker
allow-failures_at n d times last now p q =
    let (v, count, same_n, same_d) =
      failures_at-IsValid (new_circuit_breaker n d) times (new_circuit_breaker-IsValid n d p q) in
    let answer = allow_after_failure (failures_at (new_circuit_breaker n d) times) last now v in
    ground arith
