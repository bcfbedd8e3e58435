-- ===== src/Agent/WellFormed.antt =====
-- All the checks of an evaluation response together.
use sokol_traefik_plugin.Prelude.{
  ◌≤◌, ◌≡◌, ◌↔◌, ◌⊎◌, inl, inr, true, false, [], Option, none, some, ◌!=◌, nat_eq, bytes_eq, int_eq,
  bytes_beq_iff, length, arith,
}
use sokol_traefik_plugin.Text.{Bytes, codes}
use sokol_traefik_plugin.Wire.{EvaluationResponse}
use sokol_traefik_plugin.Agent.{
  Malformed, fail_if, ◌<|>◌, cache_authorized, check_cache, validate_evaluation_response,
}
use sokol_traefik_plugin.Agent.Validation.{Between, StatusFits, IsReason, check_status_iff, hex_iff}
use sokol_traefik_plugin.Agent.Checks.{
  IsOneLine, IsDenial, RetryFits, UrlFits, ChallengeFits, IsAuthorized, scope_iff, check_public_iff,
  check_retry_after_iff, check_cache_ttl_iff, check_challenge_url_iff, check_challenge_token_iff,
  check_challenge_iff,
}

-- Only a denial may be cached, with all of its metadata; nothing else carries any.
abbrev pub CacheFits : EvaluationResponse → Type 0
CacheFits r =
    ((r.cacheable ≡ true) × IsDenial r × IsAuthorized r)
    ⊎ ((r.cacheable ≡ false)
        × (r.cache_key ≡ [])
        × (r.cache_key_scope ≡ [])
        × (r.decision_scope ≡ [])
        × (r.policy_revision ≡ 0))

IsAuthorized-sound :
    (r : EvaluationResponse)
    → cache_authorized r ≡ true
    → Between 0 5000 r.cache_ttl_ms
    → IsAuthorized r
unfolding cache_authorized
IsAuthorized-sound r h ttl = ground (
  arith,
  bytes_beq_iff r.cache_key_scope (codes "request"),
  hex_iff r.cache_key,
  scope_iff r.decision_scope,
)

authorized_complete : (r : EvaluationResponse) → IsAuthorized r → cache_authorized r ≡ true
unfolding cache_authorized
authorized_complete r a = ground (
  arith,
  bytes_beq_iff r.cache_key_scope (codes "request"),
  hex_iff r.cache_key,
  scope_iff r.decision_scope,
)

check_cache_sound :
    (r : EvaluationResponse) → check_cache r ≡ none → Between 0 5000 r.cache_ttl_ms → CacheFits r
unfolding check_cache
check_cache_sound r h ttl = ground (
  arith,
  IsAuthorized-sound r,
  bytes_beq_iff r.decision (codes "block"),
  bytes_beq_iff r.decision (codes "rate_limit"),
  bytes_beq_iff r.cache_key [],
  bytes_beq_iff r.cache_key_scope [],
  bytes_beq_iff r.decision_scope [],
)

check_cache_complete : (r : EvaluationResponse) → CacheFits r → check_cache r ≡ none
unfolding check_cache
check_cache_complete r (inl (on, denial, authorized)) = ground (
  arith,
  authorized_complete r authorized,
  bytes_beq_iff r.decision (codes "block"),
  bytes_beq_iff r.decision (codes "rate_limit"),
)
check_cache_complete r (inr (off, key, scope, decision_scope, revision)) = ground (
  arith,
  bytes_beq_iff r.cache_key [],
  bytes_beq_iff r.cache_key_scope [],
  bytes_beq_iff r.decision_scope [],
)

-- A response to the request with the given ID that the plugin may act on.
pub record IsWellFormed (request_id : Bytes) (r : EvaluationResponse) : Type 0 where
  pub echoed : r.request_id ≡ request_id
  pub status : StatusFits r
  pub public_fields :
      IsReason r.public_reason × (length r.resource_id ≤ 128) × (length r.site_id ≤ 128)
  pub retry_after : RetryFits r
  pub cache_ttl : Between 0 5000 r.cache_ttl_ms
  pub challenge_url : UrlFits r
  pub challenge_token : (length r.challenge_token ≤ 4096) × IsOneLine r.challenge_token
  pub challenge : ChallengeFits r
  pub cache : CacheFits r

<|>-eq-none_iff : (a b : Option Malformed) → ((a <|> b) ≡ none) ↔ ((a ≡ none) × (b ≡ none))
<|>-eq-none_iff none b = ground arith
<|>-eq-none_iff (some e) b = ground arith

same_id_iff :
    (request_id : Bytes) (r : EvaluationResponse)
    → (fail_if (r.request_id != request_id) Malformed.request_id_mismatch ≡ none)
      ↔ (r.request_id ≡ request_id)
same_id_iff request_id r = ground (arith, bytes_beq_iff r.request_id request_id)

validate_sound :
    (request_id : Bytes) (r : EvaluationResponse)
    → validate_evaluation_response request_id r ≡ none
    → IsWellFormed request_id r
unfolding validate_evaluation_response
validate_sound request_id r e0 =
    let (h1, e1) = (<|>-eq-none_iff _ _).0 e0 in
    let (h2, e2) = (<|>-eq-none_iff _ _).0 e1 in
    let (h3, e3) = (<|>-eq-none_iff _ _).0 e2 in
    let (h4, e4) = (<|>-eq-none_iff _ _).0 e3 in
    let (h5, e5) = (<|>-eq-none_iff _ _).0 e4 in
    let (h6, e6) = (<|>-eq-none_iff _ _).0 e5 in
    let (h7, e7) = (<|>-eq-none_iff _ _).0 e6 in
    let (h8, h9) = (<|>-eq-none_iff _ _).0 e7 in
    let ttl = (check_cache_ttl_iff r).0 h5 in
    record {
      echoed = (same_id_iff request_id r).0 h1;
      status = (check_status_iff r).0 h2;
      public_fields = (check_public_iff r).0 h3;
      retry_after = (check_retry_after_iff r).0 h4;
      cache_ttl = ttl;
      challenge_url = (check_challenge_url_iff r).0 h6;
      challenge_token = (check_challenge_token_iff r).0 h7;
      challenge = (check_challenge_iff r).0 h8;
      cache = check_cache_sound r h9 ttl;
    }

validate_complete :
    (request_id : Bytes) (r : EvaluationResponse)
    → IsWellFormed request_id r
    → validate_evaluation_response request_id r ≡ none
unfolding validate_evaluation_response
validate_complete request_id r w =
    rw
      (
        (same_id_iff request_id r).1 w.echoed,
        (check_status_iff r).1 w.status,
        (check_public_iff r).1 w.public_fields,
        (check_retry_after_iff r).1 w.retry_after,
        (check_cache_ttl_iff r).1 w.cache_ttl,
        (check_challenge_url_iff r).1 w.challenge_url,
        (check_challenge_token_iff r).1 w.challenge_token,
        (check_challenge_iff r).1 w.challenge,
      )
      (check_cache_complete r w.cache)

-- The checks pass exactly the responses that are well formed for the request ID.
pub validate_evaluation_response_iff :
    (request_id : Bytes) (r : EvaluationResponse)
    → (validate_evaluation_response request_id r ≡ none) ↔ IsWellFormed request_id r
validate_evaluation_response_iff request_id r =
    (validate_sound request_id r, validate_complete request_id r)
