-- ===== src/Middleware/Steps.antt =====
-- What one request does to the state of the middleware: the decision cache, the circuit breaker and
-- the time of the last report.
use sokol_traefik_plugin.Prelude.{
  ℕ, ◌≡◌, inl, inr, refl, false, ◌&&◌, Option, none, some, ◌==◌, nat_eq, bytes_eq, Bool-cases,
  Option-cases, arith,
}
use sokol_traefik_plugin.Text.{Bytes, codes}
use sokol_traefik_plugin.Wire.{EvaluationRequest, EvaluationResponse}
use sokol_traefik_plugin.Net.{Ip, BodyStream, Request}
use sokol_traefik_plugin.ClientIp.{ClientIpError, extract_client_ip_with_source}
use sokol_traefik_plugin.Body.{capture_request_body}
use sokol_traefik_plugin.Inbound.{valid_inbound_metadata}
use sokol_traefik_plugin.Agent.{AgentResult, ok, err}
use sokol_traefik_plugin.Breaker.{CircuitBreaker, allow, success, failure}
use sokol_traefik_plugin.Breaker.Phase
use sokol_traefik_plugin.Cache.{get}
use sokol_traefik_plugin.Cache.Invariant
use sokol_traefik_plugin.Cache.Preserved.{get-IsValid, put-IsValid}
use sokol_traefik_plugin.Middleware.{
  Config, Env, State, challenge_route, after_problem, conclude, consult_agent, consult, inspect,
  route, serve_http,
}

-- The cache and the breaker are well formed, and no request is on trial.
pub record IsSettled (st : State) : Type 0 where
  pub cache_valid : Invariant.IsValid st.cache
  pub breaker_valid : Phase.IsValid st.breaker
  pub idle : st.breaker.probe ≡ false

failure-idle : (c : CircuitBreaker) (now : ℕ) → (failure c now).probe ≡ false
unfolding failure
failure-idle c now = refl

success-idle : (c : CircuitBreaker) → (success c).probe ≡ false
unfolding success
success-idle c = refl

denied-idle :
    (c : CircuitBreaker) (now : ℕ)
    → (allow c now).1 ≡ false
    → c.probe ≡ false
    → (allow c now).0.probe ≡ false
unfolding allow
denied-idle c now h k = ground arith

module _ (env : Env) (config : Config) where
  conclude-IsSettled :
      (st : State) (left : Option BodyStream) (input : EvaluationRequest)
      (reply : AgentResult EvaluationResponse)
      → Invariant.IsValid st.cache
      → Phase.IsValid st.breaker
      → IsSettled (conclude env config st left input reply).state
  unfolding conclude
  conclude-IsSettled st left input (err e) v w = record {
    cache_valid = v;
    breaker_valid = Phase.failure-IsValid st.breaker env.now w;
    idle = failure-idle st.breaker env.now;
  }
  conclude-IsSettled st left input (ok response) v w =
      elim (Bool-cases (response.decision == codes "error")) [
        | inl broken ↦
            rw (broken, conclude)
              (record {
                cache_valid = v;
                breaker_valid = Phase.success-IsValid st.breaker w;
                idle = success-idle st.breaker;
              })
        | inr fine ↦
            rw (fine, conclude)
              (record {
                cache_valid = put-IsValid env.digest st.cache input response env.now v;
                breaker_valid = Phase.success-IsValid st.breaker w;
                idle = success-idle st.breaker;
              })
      ]

  consult_agent-IsSettled :
      (st : State) (left : Option BodyStream) (input : EvaluationRequest)
      → IsSettled st
      → IsSettled (consult_agent env config st left input).state
  unfolding consult_agent
  consult_agent-IsSettled st left input s = elim (Bool-cases (allow st.breaker env.now).1) [
    | inl admitted ↦
        rw (admitted, consult_agent)
          (conclude-IsSettled _ left input _ s.cache_valid
            (Phase.allow-IsValid st.breaker env.now s.breaker_valid))
    | inr denied ↦
        rw (denied, consult_agent)
          (record {
            cache_valid = s.cache_valid;
            breaker_valid = Phase.allow-IsValid st.breaker env.now s.breaker_valid;
            idle = denied-idle st.breaker env.now denied s.idle;
          })
  ]

  consult-IsSettled :
      (st : State) (left : Option BodyStream) (input : EvaluationRequest)
      → IsSettled st
      → IsSettled (consult env config st left input).state
  unfolding consult
  consult-IsSettled st left input s =
      let after : IsSettled
          (record st { cache = (get env.digest st.cache input input.request_id env.now).0 }) =
        record {
          cache_valid =
              get-IsValid env.digest st.cache input input.request_id env.now s.cache_valid;
          breaker_valid = s.breaker_valid;
          idle = s.idle;
        } in
      elim (Option-cases (get env.digest st.cache input input.request_id env.now).1) [
        | inl missed ↦ rw (missed, consult) (consult_agent-IsSettled _ left input after)
        | inr (hit, found) ↦ rw (found, consult) after
      ]

  inspect-IsSettled :
      (st : State) (request : Request) (request_id protocol : Bytes) (client_ip : Ip)
      (source : Bytes)
      → IsSettled st
      → IsSettled (inspect env config st request request_id protocol client_ip source).state
  unfolding inspect
  inspect-IsSettled st request request_id protocol client_ip source s =
      let captured =
        capture_request_body env.parse_media_type request config.request_body protocol in
      elim (Bool-cases captured.failed) [
        | inl failed ↦ rw (failed, inspect) s
        | inr kept ↦
            elim (Bool-cases
              (captured.oversized && config.request_body.oversize_action == codes "reject")) [
                | inl oversized ↦ rw (kept, oversized, inspect) s
                | inr fits ↦ rw (kept, fits, inspect) (consult-IsSettled st _ _ s)
              ]
      ]

  route-IsSettled :
      (st : State) (request : Request) (request_id protocol : Bytes) (client_ip : Ip)
      (source : Bytes)
      → IsSettled st
      → IsSettled (route env config st request request_id protocol client_ip source).state
  unfolding route
  route-IsSettled st request request_id protocol client_ip source s =
      elim (Option-cases
        (challenge_route config.challenge_path_prefix request.path request.method)) [
          | inl other ↦ elim (Bool-cases (valid_inbound_metadata env.valid_utf8 request)) [
            | inl valid ↦
                rw (other, valid, route)
                  (inspect-IsSettled st request request_id protocol client_ip source s)
            | inr invalid ↦ rw (other, invalid, route) s
          ]
          | inr (endpoint, routed) ↦ rw (routed, route) s
        ]

  -- One request keeps the cache and the breaker well formed, on every path through the handler, and
  -- leaves no request on trial: whoever is let through the breaker reports back to it.
  pub serve_http-IsSettled :
      (st : State) (request : Request)
      → IsSettled st
      → IsSettled (serve_http env config st request).state
  unfolding serve_http after_problem
  serve_http-IsSettled st request s =
      let extracted =
        extract_client_ip_with_source env.resolver request config.client_ip config.trusted
          env.providers env.resolve_now in
      elim (Option-cases extracted.client) [
        | inl lost ↦ rw (lost, serve_http) s
        | inr (client_ip, found) ↦
            rw (found, serve_http)
              (route-IsSettled _ request _ _ client_ip extracted.source
                (reported extracted.problem))
      ]
    where
      reported : (problem : Option ClientIpError) → IsSettled (after_problem st problem env.log_now)
      reported none = s
      reported (some problem) = record {
        cache_valid = s.cache_valid;
        breaker_valid = s.breaker_valid;
        idle = s.idle;
      }
