-- ===== src/Agent/Tests.antt =====
-- The theorems about the Agent's responses at concrete inputs.
use sokol_traefik_plugin.Prelude.{
  suc, ◌≡◌, ◌↔◌, refl, false, true, [], map, none, some, length, all, bytes_beq, take, arith, pos,
}
use sokol_traefik_plugin.Text.{Bytes, codes, has_prefix, contains_any, to_lower}
use sokol_traefik_plugin.Wire.{EvaluationRequest, EvaluationResponse, no_response}
use sokol_traefik_plugin.Cache.{new_decision_cache, get, put}
use sokol_traefik_plugin.Agent.{
  agent_unavailable, lower_hex, valid_public_reason, check_status, check_public, check_retry_after,
  check_cache_ttl, check_challenge_url, check_challenge_token, check_challenge, cache_authorized,
  check_cache, validate_evaluation_response, ok, Exchange, reply, no_reply, Decoder, accept,
  read_reply, interpret, evaluate,
}
use sokol_traefik_plugin.Agent.WellFormed.{IsWellFormed, validate_evaluation_response_iff}
use sokol_traefik_plugin.Agent.Evaluation.{
  Delivers, NotAnswered, kind_of, evaluate_iff, evaluate_unavailable_iff,
}
use sokol_traefik_plugin.Agent.Cacheable.{get-put_validated}

program : Unit {0}
unfolding has_prefix contains_any to_lower all lower_hex valid_public_reason check_status
    check_public check_retry_after check_cache_ttl check_challenge_url check_challenge_token
    check_challenge cache_authorized check_cache validate_evaluation_response accept read_reply
    interpret evaluate bytes_beq take
program = tt

abbrev key : Bytes
key = codes "0123456789abcdef0123456789abcdef0123456789abcdef0123456789abcdef"

abbrev request : EvaluationRequest
request = record {
  request_id = codes "r1";
  client_ip = codes "192.0.2.1";
  client_ip_source = codes "direct";
  method = codes "GET";
  scheme = codes "https";
  host = codes "h";
  path = codes "/";
  query = [];
  headers = [];
  cookies = [];
  header_mode = [];
  cookie_mode = [];
  allowlisted_headers = [];
  allowlisted_cookies = [];
  headers_truncated = false;
  cookies_truncated = false;
  protocol_type = codes "http";
  http_version = codes "HTTP/1.1";
  body = [];
  body_truncated = false;
  resource_hint = [];
}

abbrev deny : EvaluationResponse
deny = record no_response {
  decision = codes "rate_limit";
  status = pos 429;
  request_id = codes "r1";
  public_reason = codes "too_many";
  cache_ttl_ms = pos 5;
  cacheable = true;
  cache_key = key;
  cache_key_scope = codes "request";
  decision_scope = codes "site";
  policy_revision = 7;
  retry_after_seconds = pos 30;
}

deny_valid : validate_evaluation_response (codes "r1") deny ≡ none
unfolding program
deny_valid = refl

validate_evaluation_response_iff_example :
    (validate_evaluation_response (codes "r1") deny ≡ none) ↔ IsWellFormed (codes "r1") deny
validate_evaluation_response_iff_example = validate_evaluation_response_iff (codes "r1") deny

-- A decoder that reads a body of one byte as `deny`.
abbrev json : Decoder EvaluationResponse
json = record { decode = λ s. some deny; taken = λ s. length s; at_end = λ s. true }

abbrev answer : EvaluationRequest → Exchange
answer r = reply 200 (codes "application/json") (codes "x")

evaluate_run : evaluate json answer request ≡ ok deny
unfolding program
evaluate_run = refl

evaluate_iff_example :
    (evaluate json answer request ≡ ok deny) ↔ Delivers json request (answer request) deny
evaluate_iff_example = evaluate_iff json answer request deny

evaluate_unavailable_iff_example :
    (kind_of (evaluate json (λ r. no_reply) request) ≡ some agent_unavailable)
    ↔ NotAnswered no_reply
evaluate_unavailable_iff_example = evaluate_unavailable_iff json (λ r. no_reply) request

abbrev plain_digest : Bytes → Bytes
plain_digest = map suc

get-put_validated_example :
    (get plain_digest
      (put plain_digest (new_decision_cache 4096 1_000_000_000) request deny 100)
      request
      (codes "r2")
      5_000_099).1
    ≡ some (record deny { request_id = codes "r2" })
unfolding new_decision_cache
get-put_validated_example =
    get-put_validated plain_digest (new_decision_cache 4096 1_000_000_000) request deny 100
      (codes "r2") 5_000_099 deny_valid refl refl (omega arith) (omega arith) (omega arith)
      (omega arith)
