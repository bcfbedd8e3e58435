-- ===== src/Middleware.antt =====
-- The handler of the middleware, middleware.go: `ServeHTTP`, `handleDecision`, `handleFailure` and
-- `logClientIPProblem`, with the routing of challenge.go. One request is one step from state to
-- state. What `ServeHTTP` calls of other packages, and the values of its clocks, are in `Env`.
pub mod Steps
pub mod Guarded
pub mod Asked
pub mod Runs
pub mod Sizes
mod Tests
use sokol_traefik_plugin.Prelude.{
  ℕ, ◌+◌, ◌-◌, Bool, true, false, not, ◌&&◌, ◌||◌, List, [], ◌∷◌, ◌++◌, Option, none, some, ltb,
  leb, ◌==◌, ◌!=◌, nat_eq, bytes_eq, if◌then◌else◌, ℤ, pos,
}
use sokol_traefik_plugin.Text.{Bytes, codes, has_prefix, to_upper}
use sokol_traefik_plugin.Wire.{EvaluationRequest, EvaluationResponse, no_response}
use sokol_traefik_plugin.Net.{Ip, IpNet, BodyStream, Request, header_get}
use sokol_traefik_plugin.Providers.{ProviderRangeStore}
use sokol_traefik_plugin.ClientIp.{
  ClientIpConfig, ClientIpError, Extracted, Resolver, is_unresolved, extract_client_ip_with_source,
}
use sokol_traefik_plugin.Forwarding.{ForwardingPolicy, forwarded_headers, forwarded_cookies}
use sokol_traefik_plugin.Body.{RequestBodyConfig, Captured, capture_request_body}
use sokol_traefik_plugin.Inbound.{
  normalized_request_id, protocol_type, request_scheme, valid_inbound_metadata,
}
use sokol_traefik_plugin.Agent.{
  AgentErrorKind, agent_unavailable, agent_malformed, AgentError, AgentResult, ok, err, Decoder,
  Exchange, evaluate,
}
use sokol_traefik_plugin.Breaker.{CircuitBreaker, allow, success, failure}
use sokol_traefik_plugin.Cache.{DecisionCache, get, put}

pub record FailureModeConfig : Type 0 where
  pub agent_unavailable_mode : Bytes
  pub malformed_response_mode : Bytes
  pub explicit_local_deny : Bytes

pub record Config : Type 0 where
  pub failure_mode : FailureModeConfig
  pub client_ip : ClientIpConfig
  pub request_body : RequestBodyConfig
  pub challenge_path_prefix : Bytes
  pub resource_hint : Bytes
  pub trusted : List IpNet
  pub forwarding : ForwardingPolicy

-- The parts of Go's library and of the surroundings that one request meets. `resolve_now`, `log_now`
-- and `now` are the three readings of the clock.
pub record Env : Type 0 where
  pub digest : Bytes → Bytes
  pub resolver : Resolver
  pub ip_string : Ip → Bytes
  pub valid_utf8 : Bytes → Bool
  pub parse_media_type : Bytes → Option Bytes
  pub json : Decoder EvaluationResponse
  pub send : EvaluationRequest → Exchange
  pub providers : Option ProviderRangeStore
  pub random_id : Bytes
  pub resolve_now : ℕ
  pub log_now : ℕ
  pub now : ℕ

pub record State : Type 0 where
  pub cache : DecisionCache
  pub breaker : CircuitBreaker
  pub client_ip_log_at : ℕ

pub data ChallengeRoute : Type 0 where
  create verify unknown_endpoint : ChallengeRoute

-- What the client gets: the next handler's answer, with the body that is left to it, a page of
-- pages.write, or an answer of the challenge endpoints.
pub data Reply : Type 0 where
  forwarded : Option BodyStream → Reply
  page : EvaluationResponse → Reply
  challenge : ChallengeRoute → Reply

-- The state after the request, the reply, and the request that the Agent was asked about.
pub record Outcome : Type 0 where
  pub state : State
  pub reply : Reply
  pub asked : Option EvaluationRequest

abbrev pub error_page : Bytes → ℕ → Bytes → Reply
error_page request_id status reason = page (record no_response {
  decision = codes "error";
  status = pos status;
  request_id = request_id;
  public_reason = reason;
})

abbrev pub is_malformed : AgentErrorKind → Bool
is_malformed agent_malformed = true
is_malformed _ = false

unfoldable pub handle_failure :
    FailureModeConfig → Option BodyStream → Bytes → AgentErrorKind → Reply
handle_failure modes left request_id kind =
    let mode =
      if is_malformed kind then modes.malformed_response_mode else modes.agent_unavailable_mode in
    let reason =
      if is_malformed kind
      then codes "edge_agent_invalid_response"
      else codes "edge_agent_unavailable" in
    if mode == codes "allow" then forwarded left else error_page request_id 503 reason

unfoldable pub handle_decision : Config → Option BodyStream → EvaluationResponse → Reply
handle_decision config left response =
    let decision = response.decision in
    if decision == codes "allow" || decision == codes "observe"
    then forwarded left
    else if decision == codes "block"
        || decision == codes "challenge"
        || decision == codes "rate_limit"
    then (if config.failure_mode.explicit_local_deny == codes "allow"
        then forwarded left
        else if decision == codes "challenge"
        then page
            (record response { challenge_url = config.challenge_path_prefix ++ codes "/challenge" })
        else page response)
    else handle_failure config.failure_mode left response.request_id agent_malformed

-- The switch of handleChallengeEndpoint.
unfoldable pub challenge_route : Bytes → Bytes → Bytes → Option ChallengeRoute
challenge_route prefix path method =
    let create_path = prefix ++ codes "/challenge" in
    let verify_path = create_path ++ codes "/verify" in
    if path == create_path && method == codes "GET"
    then some create
    else if path == verify_path && method == codes "POST"
    then some verify
    else if has_prefix path (prefix ++ codes "/")
    then some unknown_endpoint
    else none

abbrev pub client_ip_log_interval : ℕ
client_ip_log_interval = 60_000_000_000

-- The time of the last report after a problem, and whether this one is reported.
unfoldable pub log_client_ip_problem : ℕ → ℕ → ℕ × Bool
log_client_ip_problem log_at now =
    if not (log_at == 0) && ltb (now - log_at) client_ip_log_interval
    then (log_at, false)
    else (now, true)

unfoldable pub after_problem : State → Option ClientIpError → ℕ → State
after_problem st none now = st
after_problem st (some problem) now = record st {
  client_ip_log_at = (log_client_ip_problem st.client_ip_log_at now).0;
}

module _ (env : Env) (config : Config) where
  unfoldable pub evaluation_input :
      Request → Bytes → Bytes → Ip → Bytes → Captured → EvaluationRequest
  evaluation_input request request_id protocol client_ip source captured =
      let headers = forwarded_headers config.forwarding request in
      let cookies = forwarded_cookies config.forwarding request in
      record {
        request_id = request_id;
        client_ip = env.ip_string client_ip;
        client_ip_source = source;
        method = to_upper request.method;
        scheme = request_scheme env.resolver request config.trusted;
        host = request.host;
        path = if request.path == [] then codes "/" else request.path;
        query = request.raw_query;
        headers = headers.0;
        cookies = cookies.0;
        header_mode = if config.forwarding.all_headers then codes "all" else [];
        cookie_mode = if config.forwarding.all_cookies then codes "all" else [];
        allowlisted_headers = config.forwarding.allowlisted_headers;
        allowlisted_cookies = config.forwarding.allowlisted_cookies;
        headers_truncated = headers.1;
        cookies_truncated = cookies.1;
        protocol_type = protocol;
        http_version = request.proto;
        body = captured.body;
        body_truncated = captured.oversized;
        resource_hint = config.resource_hint;
      }

  abbrev pub fail :
      State → Option BodyStream → Bytes → AgentErrorKind → Option EvaluationRequest → Outcome
  fail st left request_id kind asked = record {
    state = st;
    reply = handle_failure config.failure_mode left request_id kind;
    asked = asked;
  }

  -- The end of `ServeHTTP`, from the reply of the Agent on.
  unfoldable pub conclude :
      State → Option BodyStream → EvaluationRequest → AgentResult EvaluationResponse → Outcome
  conclude st left input (err e) =
      fail (record st { breaker = failure st.breaker env.now }) left input.request_id e.kind
        (some input)
  conclude st left input (ok response) =
      let done = record st { breaker = success st.breaker } in
      if response.decision == codes "error"
      then fail done left input.request_id agent_unavailable (some input)
      else record {
        state = record done { cache = put env.digest st.cache input response env.now };
        reply = handle_decision config left response;
        asked = some input;
      }

  -- The cache, the breaker and the Agent, once the input is there.
  unfoldable pub consult_agent : State → Option BodyStream → EvaluationRequest → Outcome
  consult_agent st left input =
      let admission = allow st.breaker env.now in
      let admitted = record st { breaker = admission.0 } in
      if admission.1
      then conclude admitted left input (evaluate env.json env.send input)
      else fail admitted left input.request_id agent_unavailable none

  unfoldable pub consult : State → Option BodyStream → EvaluationRequest → Outcome
  consult st left input =
      let looked = get env.digest st.cache input input.request_id env.now in
      let st' = record st { cache = looked.0 } in
      elim (looked.1) [
        | some cached ↦ record {
          state = st';
          reply = handle_decision config left cached;
          asked = none;
        }
        | none ↦ consult_agent st' left input
      ]

  -- From the capture of the body on.
  unfoldable pub inspect : State → Request → Bytes → Bytes → Ip → Bytes → Outcome
  inspect st request request_id protocol client_ip source =
      let captured =
        capture_request_body env.parse_media_type request config.request_body protocol in
      if captured.failed
      then fail st captured.left request_id agent_unavailable none
      else if captured.oversized && config.request_body.oversize_action == codes "reject"
      then record {
        state = st;
        reply = error_page request_id 413 (codes "request_body_too_large");
        asked = none;
      }
      else consult st captured.left
          (evaluation_input request request_id protocol client_ip source captured)

  -- From the client address on.
  unfoldable pub route : State → Request → Bytes → Bytes → Ip → Bytes → Outcome
  route st request request_id protocol client_ip source =
      elim (challenge_route config.challenge_path_prefix request.path request.method) [
        | some endpoint ↦ record { state = st; reply = challenge endpoint; asked = none }
        | none ↦
            if not (valid_inbound_metadata env.valid_utf8 request)
            then record {
              state = st;
              reply = error_page request_id 400 (codes "invalid_request");
              asked = none;
            }
            else inspect st request request_id protocol client_ip source
      ]

  unfoldable pub serve_http : State → Request → Outcome
  serve_http st request =
      let request_id =
        normalized_request_id env.random_id (header_get request.header (codes "X-Request-ID")) in
      let protocol = protocol_type request in
      let extracted =
        extract_client_ip_with_source env.resolver request config.client_ip config.trusted
          env.providers env.resolve_now in
      elim (extracted.client) [
        | none ↦ fail st request.body request_id agent_unavailable none
        | some client_ip ↦
            route (after_problem st extracted.problem env.log_now) request request_id protocol
              client_ip extracted.source
      ]
