-- ===== src/Middleware/Asked.antt =====
-- Which requests the Agent is asked about.
use sokol_traefik_plugin.Prelude.{
  ◌≡◌, ◌≢◌, ◌↔◌, inl, inr, refl, ◌∙◌, ap, true, false, ◌&&◌, Option, none, some, ◌==◌, nat_eq,
  bytes_eq, bytes_beq_iff, Bool-cases, Option-cases, arith,
}
use sokol_traefik_plugin.Text.{Bytes, codes}
use sokol_traefik_plugin.Wire.{EvaluationRequest, EvaluationResponse}
use sokol_traefik_plugin.Net.{Ip, BodyStream, Request, header_get}
use sokol_traefik_plugin.ClientIp.{Extracted, extract_client_ip_with_source}
use sokol_traefik_plugin.Body.{Captured, capture_request_body}
use sokol_traefik_plugin.Inbound.{normalized_request_id, protocol_type, valid_inbound_metadata}
use sokol_traefik_plugin.Agent.{AgentResult, ok, err, evaluate}
use sokol_traefik_plugin.Breaker.{allow}
use sokol_traefik_plugin.Cache.{get}
use sokol_traefik_plugin.Middleware.{
  Config, Env, State, challenge_route, after_problem, evaluation_input, conclude, consult_agent,
  consult, inspect, route, serve_http,
}

module _ (env : Env) (config : Config) where
  abbrev pub capture : Request → Captured
  capture request =
      capture_request_body env.parse_media_type request config.request_body (protocol_type request)

  abbrev pub extract : Request → Extracted
  extract request =
      extract_client_ip_with_source env.resolver request config.client_ip config.trusted
        env.providers env.resolve_now

  -- The input that stands for the request, once its client is known.
  abbrev pub input_of : Request → Ip → EvaluationRequest
  input_of request client_ip =
      evaluation_input env config request
        (normalized_request_id env.random_id (header_get request.header (codes "X-Request-ID")))
        (protocol_type request) client_ip (extract request).source (capture request)

  -- Every gate before the Agent is open for the request.
  pub record IsOpen (st : State) (request : Request) (client_ip : Ip) : Type 0 where
    pub identified : (extract request).client ≡ some client_ip
    pub ordinary : challenge_route config.challenge_path_prefix request.path request.method ≡ none
    pub valid : valid_inbound_metadata env.valid_utf8 request ≡ true
    pub captured : (capture request).failed ≡ false
    pub fits :
        (capture request).oversized ≡ true → config.request_body.oversize_action ≢ codes "reject"
    pub missed :
        (get env.digest st.cache
          (input_of request client_ip)
          (input_of request client_ip).request_id
          env.now).1
        ≡ none
    pub admitted : (allow st.breaker env.now).1 ≡ true

  conclude_asked :
      (st : State) (left : Option BodyStream) (input : EvaluationRequest)
      (answer : AgentResult EvaluationResponse)
      → (conclude env config st left input answer).asked ≡ some input
  unfolding conclude
  conclude_asked st left input (err e) = refl
  conclude_asked st left input (ok r) = ground arith

  consult_agent_asked :
      (st : State) (left : Option BodyStream) (input input' : EvaluationRequest)
      → (consult_agent env config st left input).asked ≡ some input'
      → ((allow st.breaker env.now).1 ≡ true) × (input ≡ input')
  unfolding consult_agent
  consult_agent_asked st left input input' h = elim (Bool-cases (allow st.breaker env.now).1) [
    | inl admitted ↦ ground (
      arith,
      conclude_asked (record st { breaker = (allow st.breaker env.now).0 }) left input
          (evaluate env.json env.send input),
    )
    | inr denied ↦ absurd (ground arith)
  ]

  consult_asked :
      (st : State) (left : Option BodyStream) (input input' : EvaluationRequest)
      → (consult env config st left input).asked ≡ some input'
      → ((get env.digest st.cache input input.request_id env.now).1 ≡ none)
        × ((allow st.breaker env.now).1 ≡ true)
        × (input ≡ input')
  unfolding consult
  consult_asked st left input input' h =
      elim (Option-cases (get env.digest st.cache input input.request_id env.now).1) [
        | inl missed ↦
            let (admitted, same) =
              consult_agent_asked
                (record st { cache = (get env.digest st.cache input input.request_id env.now).0 })
                left input input' (ground arith) in
            (missed, admitted, same)
        | inr (hit, found) ↦ absurd (ground arith)
      ]

  inspect_asked :
      (st : State) (request : Request) (request_id : Bytes) (client_ip : Ip) (source : Bytes)
      (input' : EvaluationRequest)
      → let captured = capture request in
        let input =
          evaluation_input env config request request_id
            (protocol_type request)
            client_ip
            source
            captured in
        (inspect env config st request request_id (protocol_type request) client_ip source).asked
          ≡ some input'
        → (captured.failed ≡ false)
          × (captured.oversized ≡ true → config.request_body.oversize_action ≢ codes "reject")
          × ((get env.digest st.cache input input.request_id env.now).1 ≡ none)
          × ((allow st.breaker env.now).1 ≡ true)
          × (input ≡ input')
  unfolding inspect
  inspect_asked st request request_id client_ip source input' h =
      let input =
        evaluation_input env config request request_id (protocol_type request) client_ip source
          (capture request) in
      let size = bytes_beq_iff config.request_body.oversize_action (codes "reject") in
      elim (Bool-cases (capture request).failed) [
        | inl failed ↦ absurd (ground arith)
        | inr kept ↦
            elim (Bool-cases (
              (capture request).oversized
              && config.request_body.oversize_action == codes "reject")) [
                | inl oversized ↦ absurd (ground arith)
                | inr fits ↦
                    let (missed, admitted, same) =
                      consult_asked st (capture request).left input input' (ground arith) in
                    (kept, ground (arith, size), missed, admitted, same)
              ]
      ]

  serve_http_sound :
      (st : State) (request : Request) (input' : EvaluationRequest)
      → (serve_http env config st request).asked ≡ some input'
      → (client_ip : Ip) × IsOpen st request client_ip × (input_of request client_ip ≡ input')
  unfolding serve_http route after_problem
  serve_http_sound st request input' h =
      let request_id =
        normalized_request_id env.random_id (header_get request.header (codes "X-Request-ID")) in
      elim (Option-cases (extract request).client) [
        | inl lost ↦ absurd (ground arith)
        | inr (client_ip, found) ↦
            elim (Option-cases
              (challenge_route config.challenge_path_prefix request.path request.method)) [
                | inr (endpoint, routed) ↦ absurd (ground arith)
                | inl other ↦ elim (Bool-cases (valid_inbound_metadata env.valid_utf8 request)) [
                  | inr invalid ↦ absurd (ground arith)
                  | inl valid ↦ elim (Option-cases (extract request).problem) [
                    | inl quiet ↦ opened client_ip found other valid (
                        inspect_asked st request request_id client_ip (extract request).source
                          input' (ground arith))
                    | inr (problem, told) ↦ opened client_ip found other valid (
                        inspect_asked (after_problem st (some problem) env.log_now) request
                          request_id client_ip (extract request).source input' (ground arith))
                  ]
                ]
              ]
      ]
    where
      opened :
          (client_ip : Ip)
          → (extract request).client ≡ some client_ip
          → challenge_route config.challenge_path_prefix request.path request.method ≡ none
          → valid_inbound_metadata env.valid_utf8 request ≡ true
          → let input = input_of request client_ip in
            ((capture request).failed ≡ false)
              × ((capture request).oversized ≡ true
                  → config.request_body.oversize_action ≢ codes "reject")
              × ((get env.digest st.cache input input.request_id env.now).1 ≡ none)
              × ((allow st.breaker env.now).1 ≡ true)
              × (input ≡ input')
            → (client_ip : Ip) × IsOpen st request client_ip × (input_of request client_ip ≡ input')
      opened client_ip found other valid (kept, fits, missed, admitted, same) = (
        client_ip,
        record {
          identified = found;
          ordinary = other;
          valid = valid;
          captured = kept;
          fits = fits;
          missed = missed;
          admitted = admitted;
        },
        same,
      )

  consult_asks :
      (st : State) (left : Option BodyStream) (input : EvaluationRequest)
      → (get env.digest st.cache input input.request_id env.now).1 ≡ none
      → (allow st.breaker env.now).1 ≡ true
      → (consult env config st left input).asked ≡ some input
  unfolding consult consult_agent
  consult_asks st left input missed admitted =
      rw (missed, admitted, consult, consult_agent) (conclude_asked _ left input _)

  inspect_asks :
      (st : State) (request : Request) (client_ip : Ip)
      → IsOpen st request client_ip
      → (inspect env config st request
          (normalized_request_id env.random_id (header_get request.header (codes "X-Request-ID")))
          (protocol_type request)
          client_ip
          (extract request).source).asked
        ≡ some (input_of request client_ip)
  unfolding inspect
  inspect_asks st request client_ip gates =
      let size = bytes_beq_iff config.request_body.oversize_action (codes "reject") in
      let fits : ((capture request).oversized
            && config.request_body.oversize_action == codes "reject")
          ≡ false =
        ground (arith, gates.fits, size) in
      ground (
        arith,
        gates.captured,
        fits,
        consult_asks st (capture request).left (input_of request client_ip) gates.missed
            gates.admitted,
      )

  serve_http_complete :
      (st : State) (request : Request) (client_ip : Ip)
      → IsOpen st request client_ip
      → (serve_http env config st request).asked ≡ some (input_of request client_ip)
  unfolding serve_http route after_problem
  serve_http_complete st request client_ip gates = elim (Option-cases (extract request).problem) [
    | inl quiet ↦
        rw (gates.identified, gates.ordinary, gates.valid, quiet, serve_http, route)
          (inspect_asks st request client_ip gates)
    | inr (problem, told) ↦
        rw (gates.identified, gates.ordinary, gates.valid, told, serve_http, route)
          (inspect_asks (after_problem st (some problem) env.log_now) request client_ip (record {
            identified = gates.identified;
            ordinary = gates.ordinary;
            valid = gates.valid;
            captured = gates.captured;
            fits = gates.fits;
            missed = gates.missed;
            admitted = gates.admitted;
          }))
  ]

  -- The Agent is asked about a request, in the words of `input`, exactly when its client is known,
  -- it is no request for the challenge endpoints, its metadata is valid, its body was read and is
  -- not rejected for its size, the cache has no answer, the circuit breaker lets it through, and
  -- `input` is the one that the middleware makes of the request and that client.
  pub serve_http_asked_iff :
      (st : State) (request : Request) (input : EvaluationRequest)
      → ((serve_http env config st request).asked ≡ some input)
        ↔ ((client_ip : Ip) × IsOpen st request client_ip × (input_of request client_ip ≡ input))
  serve_http_asked_iff st request input = (
    serve_http_sound st request input,
    λ (client_ip, gates, same). serve_http_complete st request client_ip gates ∙ ap some same,
  )
