-- ===== src/Agent.antt =====
-- The client of the local Agent, agent.go: the checks of an evaluation response
-- (`validateEvaluationResponse`, `validPublicReason`, `lowerHex`) and `evaluate` around them. The
-- HTTP round trip and the JSON decoder are parameters.
pub mod Validation
pub mod Checks
pub mod WellFormed
pub mod Evaluation
pub mod Cacheable
mod Tests
use sokol_traefik_plugin.Prelude.{
  ℕ, ◌+◌, ◌-◌, Bool, true, false, not, ◌&&◌, ◌||◌, List, [], ◌∷◌, Option, none, some, ltb, leb,
  nat_beq, ◌==◌, ◌!=◌, nat_eq, bytes_eq, int_eq, if◌then◌else◌, length, take, all, ℤ, pos, ltb_ℤ,
  leb_ℤ,
}
use sokol_traefik_plugin.Text.{Bytes, codes, has_prefix, contains_any, to_lower}
use sokol_traefik_plugin.Wire.{EvaluationRequest, EvaluationResponse}

-- The messages of the errors, in the order of the checks.
pub data Malformed : Type 0 where
  request_id_mismatch : Malformed
  error_status_invalid : Malformed
  decision_invalid : Malformed
  status_mismatch : Malformed
  public_fields_invalid : Malformed
  retry_after_invalid : Malformed
  cache_ttl_invalid : Malformed
  challenge_url_invalid : Malformed
  challenge_token_invalid : Malformed
  challenge_incomplete : Malformed
  only_denials_cached : Malformed
  cache_authorization_invalid : Malformed
  stray_cache_metadata : Malformed

-- The first check that fails decides.
infixr 30 ◌<|>◌
abbrev pub ◌<|>◌ {ℓ} : {A : Type ℓ} → Option A → Option A → Option A
none <|> m = m
some e <|> m = some e

abbrev pub fail_if : Bool → Malformed → Option Malformed
fail_if b e = if b then some e else none

abbrev pub is_digit : ℕ → Bool
is_digit c = leb b'0' c && leb c b'9'

-- A byte from 128 on belongs to a rune outside both sets.
unfoldable pub lower_hex : Bytes → Bool
unfolding all
lower_hex value = all (λ c. is_digit c || (leb b'a' c && leb c b'f')) value

unfoldable pub valid_public_reason : Bytes → Bool
unfolding all
valid_public_reason value =
    if ltb (length value) 1 || ltb 64 (length value)
    then false
    else all (λ c. (leb b'a' c && leb c b'z') || is_digit c || nat_beq c b'_') value

abbrev pub is_one_of : Bytes → Bytes → Bytes → Bool
is_one_of s t u = s == t || s == u

-- The switch on the decision, and the comparison with the expected status.
unfoldable pub check_status : EvaluationResponse → Option Malformed
check_status r =
    if is_one_of r.decision (codes "allow") (codes "observe")
    then fail_if (r.status != pos 200) status_mismatch
    else if is_one_of r.decision (codes "block") (codes "challenge")
    then fail_if (r.status != pos 403) status_mismatch
    else if r.decision == codes "rate_limit"
    then fail_if (r.status != pos 429) status_mismatch
    else if r.decision == codes "error"
    then fail_if (ltb_ℤ r.status (pos 400) || ltb_ℤ (pos 599) r.status) error_status_invalid
    else some decision_invalid

unfoldable pub check_public : EvaluationResponse → Option Malformed
check_public r =
    fail_if
      (not (valid_public_reason r.public_reason)
        || ltb 128 (length r.resource_id)
        || ltb 128 (length r.site_id))
      public_fields_invalid

unfoldable pub check_retry_after : EvaluationResponse → Option Malformed
check_retry_after r =
    fail_if
      (ltb_ℤ r.retry_after_seconds (pos 0)
        || ltb_ℤ (pos 86_400) r.retry_after_seconds
        || (ltb_ℤ (pos 0) r.retry_after_seconds
            && not (is_one_of r.decision (codes "rate_limit") (codes "block"))))
      retry_after_invalid

unfoldable pub check_cache_ttl : EvaluationResponse → Option Malformed
check_cache_ttl r =
    fail_if (ltb_ℤ r.cache_ttl_ms (pos 0) || ltb_ℤ (pos 5000) r.cache_ttl_ms) cache_ttl_invalid

unfoldable pub check_challenge_url : EvaluationResponse → Option Malformed
check_challenge_url r =
    fail_if
      (r.challenge_url != []
        && (not (has_prefix r.challenge_url (codes "/"))
            || has_prefix r.challenge_url (codes "//")
            || ltb 2048 (length r.challenge_url)
            || contains_any r.challenge_url (13 ∷ 10 ∷ [])))
      challenge_url_invalid

unfoldable pub check_challenge_token : EvaluationResponse → Option Malformed
check_challenge_token r =
    fail_if (ltb 4096 (length r.challenge_token) || contains_any r.challenge_token (13 ∷ 10 ∷ []))
      challenge_token_invalid

unfoldable pub check_challenge : EvaluationResponse → Option Malformed
check_challenge r =
    fail_if
      (r.decision == codes "challenge"
        && (r.challenge_url == []
            || r.challenge_token == []
            || r.resource_id == []
            || r.site_id == []))
      challenge_incomplete

unfoldable pub cache_authorized : EvaluationResponse → Bool
cache_authorized r = not (
    leb_ℤ r.cache_ttl_ms (pos 0)
    || not (length r.cache_key == 64)
    || r.cache_key_scope != codes "request"
    || ltb (length r.decision_scope) 1
    || ltb 256 (length r.decision_scope)
    || r.policy_revision == 0
    || not (lower_hex r.cache_key)
    || contains_any r.decision_scope (13 ∷ 10 ∷ 0 ∷ []))

unfoldable pub check_cache : EvaluationResponse → Option Malformed
check_cache r =
    if r.cacheable
    then fail_if (not (is_one_of r.decision (codes "block") (codes "rate_limit")))
        only_denials_cached
      <|> fail_if (not (cache_authorized r)) cache_authorization_invalid
    else fail_if
        (r.cache_key != []
          || r.cache_key_scope != []
          || r.decision_scope != []
          || r.policy_revision != 0)
        stray_cache_metadata

-- `none` is the `nil` error.
unfoldable pub validate_evaluation_response : Bytes → EvaluationResponse → Option Malformed
validate_evaluation_response request_id r =
    fail_if (r.request_id != request_id) request_id_mismatch
    <|> check_status r
    <|> check_public r
    <|> check_retry_after r
    <|> check_cache_ttl r
    <|> check_challenge_url r
    <|> check_challenge_token r
    <|> check_challenge r
    <|> check_cache r

pub data AgentErrorKind : Type 0 where
  agent_unavailable agent_malformed : AgentErrorKind

-- What went wrong in a call of the Agent.
pub data AgentFailure : Type 0 where
  encode_failed : AgentFailure
  construct_failed : AgentFailure
  request_failed : AgentFailure
  unexpected_status : ℕ → AgentFailure
  not_json : AgentFailure
  decode_failed : AgentFailure
  exceeds_limit : AgentFailure
  trailing_data : AgentFailure
  invalid : Malformed → AgentFailure
  empty_response : AgentFailure
  verification_invalid : AgentFailure
  cookie_invalid : AgentFailure

pub record AgentError : Type 0 where
  pub kind : AgentErrorKind
  pub err : AgentFailure

pub data AgentResult {ℓ} (A : Type ℓ) : Type ℓ where
  ok : A → AgentResult A
  err : AgentError → AgentResult A

-- What comes of the HTTP request: the status, the `Content-Type` and the body of the reply.
pub data Exchange : Type 0 where
  cannot_encode : Exchange
  cannot_construct : Exchange
  no_reply : Exchange
  reply : ℕ → Bytes → Bytes → Exchange

-- A strict JSON decoder over a reader with the given bytes: what the first `Decode` yields, how many
-- bytes it has taken from the reader by then, and whether the second meets the end of the input.
pub record Decoder (A : Type 0) : Type 0 where
  pub decode : Bytes → Option A
  pub taken : Bytes → ℕ
  pub at_end : Bytes → Bool

abbrev pub maximum_agent_response_bytes : ℕ
maximum_agent_response_bytes = 32_768

abbrev pub malformed {ℓ} : {A : Type ℓ} → AgentFailure → AgentResult A
malformed failure = err (record { kind = agent_malformed; err = failure })

abbrev pub unavailable {ℓ} : {A : Type ℓ} → AgentFailure → AgentResult A
unavailable failure = err (record { kind = agent_unavailable; err = failure })

-- The part of `evaluate` after the decoded response.
unfoldable pub accept : Bytes → ℕ → Bool → EvaluationResponse → AgentResult EvaluationResponse
accept request_id left at_end output =
    if leb left 0
    then malformed exceeds_limit
    else if not at_end
    then malformed trailing_data
    else elim (validate_evaluation_response request_id output) [
      | none ↦ ok output
      | some problem ↦ malformed (invalid problem)
    ]

unfoldable pub read_reply :
    Decoder EvaluationResponse → Bytes → ℕ → Bytes → Bytes → AgentResult EvaluationResponse
read_reply json request_id status content_type body =
    let limited = take (maximum_agent_response_bytes + 1) body in
    if status != 200
    then unavailable (unexpected_status status)
    else if not (has_prefix (to_lower content_type) (codes "application/json"))
    then malformed not_json
    else elim (json.decode limited) [
      | none ↦ malformed decode_failed
      | some output ↦
          accept request_id (maximum_agent_response_bytes + 1 - json.taken limited)
            (json.at_end limited) output
    ]

-- What `evaluate` makes of the exchange.
unfoldable pub interpret :
    Decoder EvaluationResponse → Bytes → Exchange → AgentResult EvaluationResponse
interpret json request_id cannot_encode = malformed encode_failed
interpret json request_id cannot_construct = malformed construct_failed
interpret json request_id no_reply = unavailable request_failed
interpret json request_id (reply status content_type body) =
    read_reply json request_id status content_type body

unfoldable pub evaluate :
    Decoder EvaluationResponse
    → (EvaluationRequest → Exchange)
    → EvaluationRequest
    → AgentResult EvaluationResponse
evaluate json send input = interpret json input.request_id (send input)
