-- ===== src/Middleware/Guarded.antt =====
-- What stands between a request and the next handler, and between a request and the Agent.
use sokol_traefik_plugin.Prelude.{
  ℕ, ◌≡◌, ◌≢◌, ◌⊎◌, inl, inr, refl, ap, ◌&&◌, Option, none, some, ◌==◌, nat_eq, bytes_eq,
  bytes_beq_iff, Bool-cases, Option-cases, arith,
}
use sokol_traefik_plugin.Text.{Bytes, codes}
use sokol_traefik_plugin.Wire.{EvaluationRequest, EvaluationResponse}
use sokol_traefik_plugin.Net.{Ip, BodyStream, Request, header_get}
use sokol_traefik_plugin.ClientIp.{ClientIpError, extract_client_ip_with_source}
use sokol_traefik_plugin.Body.{capture_request_body}
use sokol_traefik_plugin.Inbound.{normalized_request_id, valid_inbound_metadata}
use sokol_traefik_plugin.Agent.{
  AgentErrorKind, agent_unavailable, agent_malformed, AgentResult, ok, err, evaluate,
}
use sokol_traefik_plugin.Breaker.{allow}
use sokol_traefik_plugin.Cache.{DecisionCache, get}
use sokol_traefik_plugin.Cache.Invariant.{IsValid}
use sokol_traefik_plugin.Cache.Hits.{get-IsHit}
use sokol_traefik_plugin.Middleware.{
  FailureModeConfig, Config, Env, State, Outcome, forwarded, handle_failure, handle_decision,
  challenge_route, after_problem, conclude, consult_agent, consult, inspect, route, serve_http,
}

-- The settings that close every way around the Agent.
pub record IsClosed (modes : FailureModeConfig) : Type 0 where
  pub on_unavailable : modes.agent_unavailable_mode ≢ codes "allow"
  pub on_malformed : modes.malformed_response_mode ≢ codes "allow"
  pub on_deny : modes.explicit_local_deny ≢ codes "allow"

handle_failure-page :
    (modes : FailureModeConfig) (left left' : Option BodyStream) (request_id : Bytes)
    (kind : AgentErrorKind)
    → IsClosed modes
    → handle_failure modes left request_id kind ≢ forwarded left'
unfolding handle_failure
handle_failure-page modes left left' request_id kind closed h = ground (
  arith,
  closed.on_unavailable,
  closed.on_malformed,
  bytes_beq_iff modes.agent_unavailable_mode (codes "allow"),
  bytes_beq_iff modes.malformed_response_mode (codes "allow"),
)

-- The two decisions that let a request pass.
abbrev pub Permits : EvaluationResponse → Type 0
Permits r = (r.decision ≡ codes "allow") ⊎ (r.decision ≡ codes "observe")

handle_decision-Permits :
    (config : Config) (left left' : Option BodyStream) (response : EvaluationResponse)
    → IsClosed config.failure_mode
    → handle_decision config left response ≡ forwarded left'
    → Permits response
unfolding handle_decision
handle_decision-Permits config left left' response closed h = ground (
  arith,
  closed.on_deny,
  handle_failure-page config.failure_mode left left' response.request_id agent_malformed closed,
  bytes_beq_iff response.decision (codes "allow"),
  bytes_beq_iff response.decision (codes "observe"),
  bytes_beq_iff config.failure_mode.explicit_local_deny (codes "allow"),
)

cached-Denies :
    (digest : Bytes → Bytes) (c : DecisionCache) (input : EvaluationRequest) (request_id : Bytes)
    (now : ℕ) (hit : EvaluationResponse)
    → IsValid c
    → (get digest c input request_id now).1 ≡ some hit
    → (hit.decision ≡ codes "block") ⊎ (hit.decision ≡ codes "rate_limit")
cached-Denies digest c input request_id now hit v h =
    let (e, is_hit) = get-IsHit digest c input request_id now hit h in
    let same : hit.decision ≡ e.response.decision =
      ap (λ (x : EvaluationResponse). x.decision) is_hit.answer in
    rw same (v.stored is_hit.key e is_hit.found).denies

denies-Permits :
    (r : EvaluationResponse)
    → (r.decision ≡ codes "block") ⊎ (r.decision ≡ codes "rate_limit")
    → Permits r
    → ⊥
denies-Permits r h k = ground arith

-- The reply lets the request pass, and it is the Agent's fresh answer that permits it.
abbrev pub IsPermitted : Env → Outcome → Type 0
IsPermitted env done =
    (input : EvaluationRequest) × (output : EvaluationResponse) × (done.asked ≡ some input)
    × (evaluate env.json env.send input ≡ ok output)
    × Permits output

module _ (env : Env) (config : Config) (closed : IsClosed config.failure_mode) where
  answered-IsPermitted :
      (st : State) (left left' : Option BodyStream) (input : EvaluationRequest)
      (answer : AgentResult EvaluationResponse)
      → evaluate env.json env.send input ≡ answer
      → (conclude env config st left input answer).reply ≡ forwarded left'
      → IsPermitted env (conclude env config st left input answer)
  unfolding conclude
  answered-IsPermitted st left left' input (err e) same h =
      absurd (handle_failure-page config.failure_mode left left' input.request_id e.kind closed h)
  answered-IsPermitted st left left' input (ok r) same h =
      elim (Bool-cases (r.decision == codes "error")) [
        | inl broken ↦ absurd (
            handle_failure-page config.failure_mode left left' input.request_id agent_unavailable
              closed (ground arith))
        | inr fine ↦
            rw (fine, conclude)
              (
                input,
                r,
                refl,
                same,
                handle_decision-Permits config left left' r closed (ground arith),
              )
      ]

  consult_agent-IsPermitted :
      (st : State) (left left' : Option BodyStream) (input : EvaluationRequest)
      → (consult_agent env config st left input).reply ≡ forwarded left'
      → IsPermitted env (consult_agent env config st left input)
  unfolding consult_agent
  consult_agent-IsPermitted st left left' input h = elim (Bool-cases (allow st.breaker env.now).1) [
    | inl admitted ↦
        rw (admitted, consult_agent) (answered-IsPermitted _ left left' input _ refl (ground arith))
    | inr denied ↦ absurd (
        handle_failure-page config.failure_mode left left' input.request_id agent_unavailable closed
          (ground arith))
  ]

  consult-IsPermitted :
      (st : State) (left left' : Option BodyStream) (input : EvaluationRequest)
      → IsValid st.cache
      → (consult env config st left input).reply ≡ forwarded left'
      → IsPermitted env (consult env config st left input)
  unfolding consult
  consult-IsPermitted st left left' input v h =
      elim (Option-cases (get env.digest st.cache input input.request_id env.now).1) [
        | inl missed ↦
            rw (missed, consult) (consult_agent-IsPermitted _ left left' input (ground arith))
        | inr (hit, found) ↦ absurd (
            denies-Permits hit
              (cached-Denies env.digest st.cache input input.request_id env.now hit v found)
              (handle_decision-Permits config left left' hit closed (ground arith)))
      ]

  inspect-IsPermitted :
      (st : State) (request : Request) (request_id protocol : Bytes) (client_ip : Ip)
      (source : Bytes) (left' : Option BodyStream)
      → IsValid st.cache
      → (inspect env config st request request_id protocol client_ip source).reply ≡ forwarded left'
      → IsPermitted env (inspect env config st request request_id protocol client_ip source)
  unfolding inspect
  inspect-IsPermitted st request request_id protocol client_ip source left' v h =
      let captured =
        capture_request_body env.parse_media_type request config.request_body protocol in
      elim (Bool-cases captured.failed) [
        | inl failed ↦ absurd (
            handle_failure-page config.failure_mode captured.left left' request_id agent_unavailable
              closed (ground arith))
        | inr kept ↦
            elim (Bool-cases
              (captured.oversized && config.request_body.oversize_action == codes "reject")) [
                | inl oversized ↦ absurd (ground arith)
                | inr fits ↦
                    rw (kept, fits, inspect)
                      (consult-IsPermitted st captured.left left' _ v (ground arith))
              ]
      ]

  route-IsPermitted :
      (st : State) (request : Request) (request_id protocol : Bytes) (client_ip : Ip)
      (source : Bytes) (left' : Option BodyStream)
      → IsValid st.cache
      → (route env config st request request_id protocol client_ip source).reply ≡ forwarded left'
      → IsPermitted env (route env config st request request_id protocol client_ip source)
  unfolding route
  route-IsPermitted st request request_id protocol client_ip source left' v h =
      elim (Option-cases
        (challenge_route config.challenge_path_prefix request.path request.method)) [
          | inl other ↦ elim (Bool-cases (valid_inbound_metadata env.valid_utf8 request)) [
            | inl valid ↦
                rw (other, valid, route)
                  (inspect-IsPermitted st request request_id protocol client_ip source left' v
                    (ground arith))
            | inr invalid ↦ absurd (ground arith)
          ]
          | inr (endpoint, routed) ↦ absurd (ground arith)
        ]

  -- With no failure mode and no local override set to "allow", and a well-formed cache, a request
  -- reaches the next handler only when the Agent was asked about it and answered, in a well-formed
  -- reply, with the decision "allow" or "observe". No cached answer lets a request pass.
  pub serve_http-IsPermitted :
      (st : State) (request : Request) (left' : Option BodyStream)
      → IsValid st.cache
      → (serve_http env config st request).reply ≡ forwarded left'
      → IsPermitted env (serve_http env config st request)
  unfolding serve_http after_problem
  serve_http-IsPermitted st request left' v h =
      let extracted =
        extract_client_ip_with_source env.resolver request config.client_ip config.trusted
          env.providers env.resolve_now in
      elim (Option-cases extracted.client) [
        | inl lost ↦ absurd (
            handle_failure-page config.failure_mode request.body left'
              (normalized_request_id env.random_id
                (header_get request.header (codes "X-Request-ID")))
              agent_unavailable closed (ground arith))
        | inr (client_ip, found) ↦
            rw (found, serve_http)
              (route-IsPermitted _ request _ _ client_ip extracted.source left'
                (reported extracted.problem) (ground arith))
      ]
    where
      reported :
          (problem : Option ClientIpError) → IsValid (after_problem st problem env.log_now).cache
      reported none = v
      reported (some problem) = v
