-- ===== src/Agent/Cacheable.antt =====
-- The decision cache behind the checks: a validated response is cached for as long as it says.
use sokol_traefik_plugin.Prelude.{
  ℕ, ◌+◌, ◌*◌, ◌≤◌, ◌<◌, ◌≡◌, ◌≢◌, inl, inr, true, false, [], ◌∷◌, none, some, nat_eq, bytes_eq,
  bytes_beq_iff, length, arith, ℤ, pos, negsuc, int64, min,
}
use sokol_traefik_plugin.Text.{Bytes, codes}
use sokol_traefik_plugin.Wire.{EvaluationRequest, EvaluationResponse}
use sokol_traefik_plugin.Cache.{DecisionCache, get, put, refuses, time_to_live}
use sokol_traefik_plugin.Cache.Reads.{get-put}
use sokol_traefik_plugin.Agent.{validate_evaluation_response}
use sokol_traefik_plugin.Agent.Validation.{Between}
use sokol_traefik_plugin.Agent.Checks.{IsDenial, IsAuthorized}
use sokol_traefik_plugin.Agent.WellFormed.{CacheFits, validate_evaluation_response_iff}

-- The milliseconds of a validated lifetime.
abbrev pub millis : ℤ → ℕ
millis (pos n) = n
millis (negsuc n) = 0

time_to_live-Between :
    (maximum : ℕ) (ms : ℤ)
    → Between 1 5000 ms
    → time_to_live maximum ms ≡ min maximum (millis ms * 1_000_000)
unfolding time_to_live int64
time_to_live-Between maximum (pos n) h = ground arith
time_to_live-Between maximum (negsuc n) h = absurd h

millis_pos : (ms : ℤ) → Between 1 5000 ms → 1 ≤ millis ms
millis_pos (pos n) h = h.0
millis_pos (negsuc n) h = absurd h

ne_nil_of_length : (s : Bytes) → 1 ≤ length s → s ≢ []
ne_nil_of_length [] h = absurd (omega arith)
ne_nil_of_length (c ∷ s) h = λ e. cc

authorized-taken :
    (c : DecisionCache) (r : EvaluationResponse)
    → 0 < c.maximum_entries
    → 0 < c.maximum_ttl
    → r.cacheable ≡ true
    → IsDenial r
    → IsAuthorized r
    → r.challenge_token ≡ []
    → refuses c r ≡ false
unfolding refuses
authorized-taken c r n t on denial a token = ground (
  arith,
  a.lives,
  a.scope,
  a.revision,
  bytes_beq_iff r.cache_key_scope (codes "request"),
  bytes_beq_iff r.cache_key [],
  bytes_beq_iff r.decision_scope [],
  bytes_beq_iff r.decision (codes "block"),
  bytes_beq_iff r.decision (codes "rate_limit"),
  bytes_beq_iff r.challenge_token [],
  ne_nil_of_length r.cache_key (omega (arith, a.key.0)),
  ne_nil_of_length r.decision_scope a.decision_scope.0,
)

authorized :
    (r : EvaluationResponse) → CacheFits r → r.cacheable ≡ true → IsDenial r × IsAuthorized r
authorized r (inl (on, denial, a)) h = (denial, a)
authorized r (inr off) h = absurd (ground (arith, off.0))

-- A response that passed the checks, may be cached, holds no challenge token and is of no older
-- revision is served again for the milliseconds that it says, up to the maximum of the cache: the
-- product of its lifetime with a million does not overflow.
pub get-put_validated :
    (digest : Bytes → Bytes) (c : DecisionCache) (request : EvaluationRequest)
    (r : EvaluationResponse) (now : ℕ) (request_id : Bytes) (later : ℕ)
    → validate_evaluation_response request.request_id r ≡ none
    → r.cacheable ≡ true
    → r.challenge_token ≡ []
    → 0 < c.maximum_entries
    → 0 < c.maximum_ttl
    → c.latest_revision ≤ r.policy_revision
    → later < now + min c.maximum_ttl (millis r.cache_ttl_ms * 1_000_000)
    → (get digest (put digest c request r now) request request_id later).1
      ≡ some (record r { request_id = request_id })
get-put_validated digest c request r now request_id later valid on token n t recent soon =
    let w = (validate_evaluation_response_iff request.request_id r).0 valid in
    let (denial, a) = authorized r w.cache on in
    let same = time_to_live-Between c.maximum_ttl r.cache_ttl_ms a.lives in
    let positive = millis_pos r.cache_ttl_ms a.lives in
    get-put digest c request r now (authorized-taken c r n t on denial a token)
      (omega (arith, same, positive)) recent request_id later (omega (arith, same))
