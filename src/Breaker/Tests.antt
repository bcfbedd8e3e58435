-- ===== src/Breaker/Tests.antt =====
-- The theorems about the circuit breaker at concrete inputs.
use sokol_traefik_plugin.Prelude.{
  ℕ, ◌+◌, ◌≡◌, refl, true, false, not, List, [], ◌∷◌, ltb, leb, if◌then◌else◌, length, All, arith,
}
use sokol_traefik_plugin.Breaker.{CircuitBreaker, new_circuit_breaker, allow, success, failure}
use sokol_traefik_plugin.Breaker.Phase.{closed}
use sokol_traefik_plugin.Breaker.Admission.{
  Call, ask, report_success, report_failure, answers, expected, answers-expected, asks, one_trial,
  failures_at, allow-failures_at,
}

-- Two failures open the breaker for 50; the trial at 160 fails, that at 220 succeeds.
abbrev calls : List Call
calls =
    ask 100
    ∷ report_failure 100
    ∷ ask 101
    ∷ report_failure 101
    ∷ ask 120
    ∷ ask 160
    ∷ ask 161
    ∷ report_failure 165
    ∷ ask 170
    ∷ ask 220
    ∷ report_success
    ∷ ask 221
    ∷ []

answers_run :
    answers (new_circuit_breaker 2 50) calls
    ≡ true ∷ true ∷ false ∷ true ∷ false ∷ false ∷ true ∷ true ∷ []
unfolding answers allow success failure new_circuit_breaker
answers_run = refl

answers-expected_example : answers (new_circuit_breaker 2 50) calls ≡ expected 2 50 (closed 0) calls
answers-expected_example = answers-expected 2 50 calls (omega arith) (omega arith)

abbrev open_breaker : CircuitBreaker
open_breaker = record {
  failure_threshold = 2;
  open_duration = 50;
  failures = 2;
  open_until = 151;
  probe = false;
}

one_trial_example : All (λ b. b ≡ false) (asks (allow open_breaker 160).0 (161 ∷ 900 ∷ []))
unfolding allow
one_trial_example = one_trial open_breaker 160 (161 ∷ 900 ∷ []) (omega arith) refl

allow-failures_at_example :
    (allow (failure (failures_at (new_circuit_breaker 2 50) (100 ∷ [])) 101) 120).1
    ≡ (if leb 2 (length {A = ℕ} (100 ∷ []) + 1) then not (ltb 120 (101 + 50)) else true)
allow-failures_at_example = allow-failures_at 2 50 (100 ∷ []) 101 120 (omega arith) (omega arith)
