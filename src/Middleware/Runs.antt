-- ===== src/Middleware/Runs.antt =====
-- The states that the middleware comes to from its construction on, one request after another. Each
-- request brings its own surroundings: the clocks, the Agent's reply and the provider ranges.
use sokol_traefik_plugin.Prelude.{
  ℕ, ◌+◌, ◌-◌, ◌<◌, ◌≤◌, ◌≡◌, refl, List, [], ◌∷◌, All, if◌then◌else◌, Bool-cases, inl, inr, Option,
  ltb, arith,
}
use sokol_traefik_plugin.Net.{BodyStream, Request}
use sokol_traefik_plugin.Breaker.{new_circuit_breaker}
use sokol_traefik_plugin.Breaker.Phase.{new_circuit_breaker-IsValid}
use sokol_traefik_plugin.Cache.{new_decision_cache}
use sokol_traefik_plugin.Cache.Invariant.{new_decision_cache-IsValid}
use sokol_traefik_plugin.Middleware.{
  Config, Env, State, forwarded, serve_http, log_client_ip_problem, client_ip_log_interval,
}
use sokol_traefik_plugin.Middleware.Steps.{IsSettled, serve_http-IsSettled}
use sokol_traefik_plugin.Middleware.Guarded.{IsClosed, IsPermitted, serve_http-IsPermitted}

abbrev pub new_state : (maximum_entries maximum_ttl failure_threshold open_duration : ℕ) → State
new_state maximum_entries maximum_ttl failure_threshold open_duration = record {
  cache = new_decision_cache maximum_entries maximum_ttl;
  breaker = new_circuit_breaker failure_threshold open_duration;
  client_ip_log_at = 0;
}

pub data Reachable (config : Config) (n ttl threshold duration : ℕ) : State → Type 0 where
  start : Reachable config n ttl threshold duration (new_state n ttl threshold duration)
  next :
      {st : State}
      → Reachable config n ttl threshold duration st
      → (env : Env) (request : Request)
      → Reachable config n ttl threshold duration (serve_http env config st request).state

-- With a positive failure threshold and open duration: whatever requests, replies of the Agent and
-- clock readings came before, the decision cache and the circuit breaker are well formed, and no
-- request is left on trial.
pub Reachable-IsSettled :
    {config : Config} {n ttl threshold duration : ℕ} {st : State}
    → 0 < threshold
    → 0 < duration
    → Reachable config n ttl threshold duration st
    → IsSettled st
unfolding new_circuit_breaker
Reachable-IsSettled {n = n} {ttl} {threshold} {duration} ht hd start = record {
  cache_valid = new_decision_cache-IsValid n ttl;
  breaker_valid = new_circuit_breaker-IsValid threshold duration ht hd;
  idle = refl;
}
Reachable-IsSettled {config} ht hd (next {st} r env request) =
    serve_http-IsSettled env config st request (Reachable-IsSettled ht hd r)

-- With a positive failure threshold and open duration, and
-- with no failure mode and no local override set to "allow", in every state that the middleware
-- comes to, a request reaches the next handler only when the Agent was asked about it and answered,
-- in a well-formed reply, with the decision "allow" or "observe": no error, no open circuit
-- breaker and no cached answer lets a request pass.
pub serve_http-fails_closed :
    {config : Config} {n ttl threshold duration : ℕ} {st : State} (env : Env) (request : Request)
    (left : Option BodyStream)
    → 0 < threshold
    → 0 < duration
    → Reachable config n ttl threshold duration st
    → IsClosed config.failure_mode
    → (serve_http env config st request).reply ≡ forwarded left
    → IsPermitted env (serve_http env config st request)
serve_http-fails_closed {config} {st = st} env request left ht hd r closed h =
    serve_http-IsPermitted env config closed st request left
      (Reachable-IsSettled ht hd r).cache_valid h

-- The problems at the given times, in order: the time of each one that is reported.
unfoldable pub reports : ℕ → List ℕ → List ℕ
reports log_at [] = []
reports log_at (now ∷ times) =
    let answer = log_client_ip_problem log_at now in
    let rest = reports answer.0 times in if answer.1 then now ∷ rest else rest

-- Each time is at least the interval after the one before it, the first after `last`.
abbrev pub IsApart : ℕ → List ℕ → Type 0
IsApart last [] = Unit
IsApart last (t ∷ times) = (last + client_ip_log_interval ≤ t) × IsApart t times

reports-IsApart_after :
    (last : ℕ) (times : List ℕ)
    → 0 < last
    → All (λ t. 0 < t) times
    → IsApart last (reports last times)
unfolding reports log_client_ip_problem
reports-IsApart_after last [] h k = tt
reports-IsApart_after last (now ∷ times) h (k, ks) =
    elim (Bool-cases (ltb (now - last) client_ip_log_interval)) [
      | inl soon ↦ ground (arith, soon, reports-IsApart_after last times h ks)
      | inr late ↦ ground (arith, late, reports-IsApart_after now times k ks)
    ]

-- Of the problems with client addresses, at whatever times after zero, the first is reported, and
-- two reports are never less than a minute apart.
pub reports-IsApart :
    (now : ℕ) (times : List ℕ)
    → 0 < now
    → All (λ t. 0 < t) times
    → (later : List ℕ) × (reports 0 (now ∷ times) ≡ now ∷ later) × IsApart now later
unfolding reports log_client_ip_problem
reports-IsApart now times h k = (reports now times, refl, reports-IsApart_after now times h k)
