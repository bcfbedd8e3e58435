-- ===== src/Middleware/Tests.antt =====
-- The theorems about the handler at a concrete configuration and concrete requests.
use sokol_traefik_plugin.Prelude.{
  ℕ, ◌≡◌, ◌↔◌, refl, true, false, List, [], ◌∷◌, none, some, length, any, all, take, drop,
  bytes_beq, bytes_eq, nat_eq, arith, pos,
}
use sokol_traefik_plugin.Prelude.GoMap.{lookup, insert, delete, has}
use sokol_traefik_plugin.Text.{
  codes, contains_byte, contains_any, has_prefix, has_suffix, trim_last, to_lower, to_upper,
  equal_fold, trim_space, trim, split, join, format_uint,
}
use sokol_traefik_plugin.Text.Order.{sort_by, bytes_lt}
use sokol_traefik_plugin.Wire.{EvaluationResponse, no_response}
use sokol_traefik_plugin.Net.{
  Ip, Request, to4, to16, ip_equal, canonical_header_key, canonical_from, values, header_get,
  first_of_values,
}
use sokol_traefik_plugin.Providers.{normalize_ip, provider_for, in_networks}
use sokol_traefik_plugin.ClientIp.{
  parse_remote_ip, extract_recognized_provider_ip, by_strategy, ip_is_trusted,
  extract_client_ip_with_source,
}
use sokol_traefik_plugin.Forwarding.{
  add_each, new_forwarding_policy, take_headers, header_names, add_content_length,
  add_transfer_encoding, forwarded_headers, first_cookies, keep_present, cookie_names, take_cookies,
  forwarded_cookies,
}
use sokol_traefik_plugin.Body.{capture_request_body}
use sokol_traefik_plugin.Inbound.{
  normalized_request_id, protocol_type, request_scheme, valid_inbound_metadata, header_has_token,
}
use sokol_traefik_plugin.Agent.{
  lower_hex, valid_public_reason, check_status, check_public, check_retry_after, check_cache_ttl,
  check_challenge_url, check_challenge_token, check_challenge, cache_authorized, check_cache,
  validate_evaluation_response, reply, accept, read_reply, interpret, evaluate,
}
use sokol_traefik_plugin.Breaker.{new_circuit_breaker, allow, success, failure}
use sokol_traefik_plugin.Cache.{new_decision_cache, get, put, refuses}
use sokol_traefik_plugin.Middleware.{
  FailureModeConfig, Config, Env, State, forwarded, handle_failure, handle_decision,
  challenge_route, log_client_ip_problem, after_problem, evaluation_input, conclude, consult_agent,
  consult, inspect, route, serve_http,
}
use sokol_traefik_plugin.Middleware.Steps.{IsSettled}
use sokol_traefik_plugin.Middleware.Guarded.{IsClosed, IsPermitted}
use sokol_traefik_plugin.Middleware.Asked.{input_of, IsOpen, serve_http_asked_iff}
use sokol_traefik_plugin.Middleware.Sizes.{IsSized, serve_http-IsSized}
use sokol_traefik_plugin.Middleware.Runs.{
  new_state, Reachable, start, next, Reachable-IsSettled, serve_http-fails_closed, reports, IsApart,
  reports-IsApart,
}

program : Unit {0}
unfolding any all take drop bytes_beq lookup insert delete has contains_byte contains_any has_prefix
    has_suffix trim_last to_lower to_upper equal_fold trim_space trim split join format_uint sort_by
    bytes_lt to4 to16 ip_equal canonical_header_key canonical_from values header_get first_of_values
    normalize_ip provider_for in_networks parse_remote_ip extract_recognized_provider_ip by_strategy
    ip_is_trusted extract_client_ip_with_source add_each new_forwarding_policy take_headers
    header_names add_content_length add_transfer_encoding forwarded_headers first_cookies
    keep_present cookie_names take_cookies forwarded_cookies capture_request_body
    normalized_request_id protocol_type request_scheme valid_inbound_metadata header_has_token
    lower_hex valid_public_reason check_status check_public check_retry_after check_cache_ttl
    check_challenge_url check_challenge_token check_challenge cache_authorized check_cache
    validate_evaluation_response accept read_reply interpret evaluate new_circuit_breaker allow
    success failure new_decision_cache get put refuses handle_failure handle_decision
    challenge_route log_client_ip_problem after_problem evaluation_input conclude consult_agent
    consult inspect route serve_http
program = tt

abbrev modes : FailureModeConfig
modes = record {
  agent_unavailable_mode = codes "block";
  malformed_response_mode = codes "block";
  explicit_local_deny = codes "block";
}

abbrev config : Config
config = record {
  failure_mode = modes;
  client_ip = record {
    strategy = codes "direct";
    cloudflare_header = codes "CF-Connecting-IP";
    bunny_header = codes "X-Real-IP";
  };
  request_body = record {
    enabled = false;
    maximum_bytes = 65_536;
    oversize_action = codes "reject";
    content_types = [];
    bypass_path_prefixes = [];
  };
  challenge_path_prefix = codes "/.sokol";
  resource_hint = [];
  trusted = [];
  forwarding = record {
    all_headers = false;
    all_cookies = false;
    headers = [];
    cookies = [];
    header_set = [];
    cookie_set = [];
    allowlisted_headers = [];
    allowlisted_cookies = [];
  };
}

abbrev client : Ip
client = 192 ∷ 0 ∷ 2 ∷ 7 ∷ []

abbrev allowed : EvaluationResponse
allowed = record no_response {
  decision = codes "allow";
  status = pos 200;
  request_id = codes "r1";
  public_reason = codes "ok";
}

abbrev env : Env
env = record {
  digest = λ s. s;
  resolver = record { parse_ip = λ s. some client; split_host_port = λ s. none };
  ip_string = λ ip. codes "192.0.2.7";
  valid_utf8 = λ s. true;
  parse_media_type = λ s. none;
  json = record { decode = λ s. some allowed; taken = λ s. length s; at_end = λ s. true };
  send = λ r. reply 200 (codes "application/json") (codes "x");
  providers = none;
  random_id = codes "r1";
  resolve_now = 100;
  log_now = 101;
  now = 102;
}

abbrev request : Request
request = record {
  method = codes "GET";
  host = codes "h";
  path = codes "/";
  raw_query = [];
  remote_addr = codes "v";
  proto = codes "HTTP/1.1";
  is_tls = false;
  header = [];
  cookies = [];
  content_length = pos 0;
  transfer_encoding = [];
  body = none;
}

abbrev first : State
first = new_state 16 1_000 3 50

serve_http_run : (serve_http env config first request).reply ≡ forwarded none
unfolding program
serve_http_run = refl

modes-IsClosed : IsClosed modes
modes-IsClosed = record {
  on_unavailable = λ e. ground arith;
  on_malformed = λ e. ground arith;
  on_deny = λ e. ground arith;
}

new : Reachable config 16 1_000 3 50 first
new = start

-- The state after one allowed request.
second : Reachable config 16 1_000 3 50 (serve_http env config first request).state
second = next start env request

Reachable-IsSettled_example : IsSettled (serve_http env config first request).state
Reachable-IsSettled_example = Reachable-IsSettled (omega arith) (omega arith) second

serve_http-fails_closed_example : IsPermitted env (serve_http env config first request)
serve_http-fails_closed_example =
    serve_http-fails_closed {config = config} env request none (omega arith) (omega arith) new
      modes-IsClosed serve_http_run

serve_http_asked_iff_example :
    ((serve_http env config first request).asked ≡ some (input_of env config request client)) ↔ (
      (client_ip : Ip) × IsOpen env config first request client_ip
      × (input_of env config request client_ip ≡ input_of env config request client))
serve_http_asked_iff_example =
    serve_http_asked_iff env config first request (input_of env config request client)

serve_http-IsSized_example : IsSized 65_536 (input_of env config request client)
unfolding program
serve_http-IsSized_example =
    serve_http-IsSized env config first request (input_of env config request client) (omega arith)
      refl

reports-IsApart_example :
    (later : List ℕ) × (reports 0 (5 ∷ 9 ∷ 60_000_000_005 ∷ []) ≡ 5 ∷ later) × IsApart 5 later
reports-IsApart_example =
    reports-IsApart 5 (9 ∷ 60_000_000_005 ∷ []) (omega arith) (omega arith, (omega arith, tt))
