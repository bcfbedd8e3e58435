-- ===== src/Agent/Evaluation.antt =====
-- When `evaluate` succeeds, and which errors count as an unavailable Agent.
use sokol_traefik_plugin.Prelude.{
  ℕ, ◌+◌, ◌-◌, ◌≤◌, ◌≡◌, ◌≢◌, ◌↔◌, inl, inr, ap, subst, ◌∙◌, Bool, true, Option, none, some, nat_eq,
  take, Option-cases, arith,
}
use sokol_traefik_plugin.Text.{Bytes, codes, has_prefix, to_lower}
use sokol_traefik_plugin.Wire.{EvaluationRequest, EvaluationResponse}
use sokol_traefik_plugin.Agent.{
  validate_evaluation_response, AgentErrorKind, agent_unavailable, AgentResult, ok, err, Exchange,
  no_reply, reply, Decoder, maximum_agent_response_bytes, accept, read_reply, interpret, evaluate,
}
use sokol_traefik_plugin.Agent.WellFormed.{IsWellFormed, validate_evaluation_response_iff}

-- The Agent replied with status 200 and one JSON document within the limit, which decodes to the
-- response and is well formed for the request.
pub record IsDelivered (json : Decoder EvaluationResponse) (input : EvaluationRequest) (status : ℕ)
    (content_type body : Bytes) (output : EvaluationResponse) : Type 0 where
  pub accepted : status ≡ 200
  pub is_json : has_prefix (to_lower content_type) (codes "application/json") ≡ true
  pub decoded : json.decode (take (maximum_agent_response_bytes + 1) body) ≡ some output
  pub within :
      json.taken (take (maximum_agent_response_bytes + 1) body) ≤ maximum_agent_response_bytes
  pub alone : json.at_end (take (maximum_agent_response_bytes + 1) body) ≡ true
  pub well_formed : IsWellFormed input.request_id output

abbrev pub Delivers :
    Decoder EvaluationResponse → EvaluationRequest → Exchange → EvaluationResponse → Type 0
Delivers json input (reply status content_type body) output =
    IsDelivered json input status content_type body output
Delivers json input _ output = ⊥

accept_sound :
    (request_id : Bytes) (taken : ℕ) (at_end : Bool) (output r : EvaluationResponse)
    → accept request_id (maximum_agent_response_bytes + 1 - taken) at_end r ≡ ok output
    → (taken ≤ maximum_agent_response_bytes)
      × (at_end ≡ true)
      × (validate_evaluation_response request_id r ≡ none)
      × (r ≡ output)
unfolding accept
accept_sound request_id taken at_end output r h = ground arith

accept_complete :
    (request_id : Bytes) (taken : ℕ) (at_end : Bool) (r : EvaluationResponse)
    → taken ≤ maximum_agent_response_bytes
    → at_end ≡ true
    → validate_evaluation_response request_id r ≡ none
    → accept request_id (maximum_agent_response_bytes + 1 - taken) at_end r ≡ ok r
unfolding accept
accept_complete request_id taken at_end r within alone valid = ground arith

module _ (json : Decoder EvaluationResponse) (input : EvaluationRequest) (status : ℕ)
    (content_type body : Bytes) (output : EvaluationResponse) where
  read_reply_sound :
      read_reply json input.request_id status content_type body ≡ ok output
      → IsDelivered json input status content_type body output
  unfolding read_reply
  read_reply_sound h =
      elim (Option-cases (json.decode (take (maximum_agent_response_bytes + 1) body))) [
        | inl garbled ↦ absurd (ground arith)
        | inr (r, decoded) ↦
            let (within, alone, valid, same) =
              accept_sound input.request_id
                (json.taken (take (maximum_agent_response_bytes + 1) body))
                (json.at_end (take (maximum_agent_response_bytes + 1) body)) output r
                (ground arith) in
            record {
              accepted = ground arith;
              is_json = ground arith;
              decoded = decoded ∙ ap some same;
              within = within;
              alone = alone;
              well_formed =
                  subst (IsWellFormed input.request_id) same
                    ((validate_evaluation_response_iff input.request_id r).0 valid);
            }
      ]

  read_reply_complete :
      IsDelivered json input status content_type body output
      → read_reply json input.request_id status content_type body ≡ ok output
  unfolding read_reply
  read_reply_complete d =
      let valid = (validate_evaluation_response_iff input.request_id output).1 d.well_formed in
      ground (
        arith,
        d.accepted,
        d.is_json,
        d.decoded,
        accept_complete input.request_id _ _ output d.within d.alone valid,
      )

interpret_sound :
    (json : Decoder EvaluationResponse) (input : EvaluationRequest) (x : Exchange)
    (output : EvaluationResponse)
    → interpret json input.request_id x ≡ ok output
    → Delivers json input x output
unfolding interpret
interpret_sound json input (reply status content_type body) output h =
    read_reply_sound json input status content_type body output h
interpret_sound json input _ output h = cc

interpret_complete :
    (json : Decoder EvaluationResponse) (input : EvaluationRequest) (x : Exchange)
    (output : EvaluationResponse)
    → Delivers json input x output
    → interpret json input.request_id x ≡ ok output
unfolding interpret
interpret_complete json input (reply status content_type body) output h =
    read_reply_complete json input status content_type body output h
interpret_complete json input _ output h = absurd h

-- `evaluate` succeeds with a response exactly when the Agent delivers it: with status 200, as JSON,
-- alone and within the limit, and well formed for the request.
pub evaluate_iff :
    (json : Decoder EvaluationResponse) (send : EvaluationRequest → Exchange)
    (input : EvaluationRequest) (output : EvaluationResponse)
    → (evaluate json send input ≡ ok output) ↔ Delivers json input (send input) output
unfolding evaluate
evaluate_iff json send input output = (
  interpret_sound json input (send input) output,
  interpret_complete json input (send input) output,
)

-- The kind of the error, if it is one.
abbrev pub kind_of : AgentResult EvaluationResponse → Option AgentErrorKind
kind_of (ok r) = none
kind_of (err e) = some e.kind

-- No reply, or one with a status other than 200.
abbrev pub NotAnswered : Exchange → Type 0
NotAnswered no_reply = Unit
NotAnswered (reply status _ _) = status ≢ 200
NotAnswered _ = ⊥

accept_kind :
    (request_id : Bytes) (left : ℕ) (at_end : Bool) (r : EvaluationResponse)
    → kind_of (accept request_id left at_end r) ≢ some agent_unavailable
unfolding accept
accept_kind request_id left at_end r h = ground arith

read_reply_kind :
    (json : Decoder EvaluationResponse) (request_id : Bytes) (status : ℕ)
    (content_type body : Bytes)
    → (kind_of (read_reply json request_id status content_type body) ≡ some agent_unavailable)
      ↔ (status ≢ 200)
unfolding read_reply
read_reply_kind json request_id status content_type body =
    let limited = take (maximum_agent_response_bytes + 1) body in
    elim (Option-cases (json.decode limited)) [
      | inl garbled ↦ ground arith
      | inr (r, decoded) ↦ ground (
        arith,
        accept_kind request_id (maximum_agent_response_bytes + 1 - json.taken limited)
            (json.at_end limited) r,
      )
    ]

interpret_kind :
    (json : Decoder EvaluationResponse) (request_id : Bytes) (x : Exchange)
    → (kind_of (interpret json request_id x) ≡ some agent_unavailable) ↔ NotAnswered x
unfolding interpret
interpret_kind json request_id (reply status content_type body) =
    read_reply_kind json request_id status content_type body
interpret_kind json request_id no_reply = ground arith
interpret_kind json request_id _ = ground arith

-- `evaluate` fails with an unavailable Agent exactly when no reply came or its status is not 200;
-- every other failure counts as a malformed response.
pub evaluate_unavailable_iff :
    (json : Decoder EvaluationResponse) (send : EvaluationRequest → Exchange)
    (input : EvaluationRequest)
    → (kind_of (evaluate json send input) ≡ some agent_unavailable) ↔ NotAnswered (send input)
unfolding evaluate
evaluate_unavailable_iff json send input = interpret_kind json input.request_id (send input)
