-- ===== src/Challenge.antt =====
-- The challenge endpoints: the handlers `challengeCreate` and `challengeVerify` of challenge.go with
-- their checks, and the requests to the Agent behind them in agent.go. The JSON decoders, the
-- exchange with the Agent, `url.Parse` and `URL.Query` are parameters.
pub mod Granted
mod Tests
use sokol_traefik_plugin.Prelude.{
  ℕ, ◌+◌, ◌-◌, Bool, true, false, not, ◌&&◌, ◌||◌, List, [], ◌∷◌, ◌++◌, Option, none, some, ltb,
  leb, ◌==◌, ◌!=◌, nat_eq, bytes_eq, int_eq, if◌then◌else◌, length, take, ℤ, pos, ltb_ℤ,
}
use sokol_traefik_plugin.Text.{
  Bytes, codes, contains_any, contains_byte, equal_fold, has_prefix, to_lower, trim_space,
}
use sokol_traefik_plugin.Net.{BodyStream, Ip, IpNet, Request, Url, header_get}
use sokol_traefik_plugin.ClientIp.{Resolver}
use sokol_traefik_plugin.Inbound.{request_scheme}
use sokol_traefik_plugin.Agent.{
  AgentFailure, AgentResult, ok, err, Decoder, Exchange, cannot_encode, cannot_construct, no_reply,
  reply, encode_failed, construct_failed, request_failed, unexpected_status, not_json,
  decode_failed, trailing_data, empty_response, verification_invalid, cookie_invalid, malformed,
  unavailable, maximum_agent_response_bytes, valid_public_reason,
}

pub record ChallengeContext : Type 0 where
  pub resource_id : Bytes
  pub site_id : Bytes
  pub client_ip : Bytes
  pub user_agent : Bytes
  pub path : Bytes

pub record ChallengeCreateRequest : Type 0 where
  pub challenge_token : Bytes
  pub context : ChallengeContext

pub record ChallengeVerifyRequest : Type 0 where
  pub token : Bytes
  pub payload : Bytes
  pub context : ChallengeContext

pub record ChallengeVerifyResponse : Type 0 where
  pub verified : Bool
  pub public_reason : Bytes
  pub cookie_name : Bytes
  pub cookie_value : Bytes
  pub cookie_max_age : ℤ

pub record BrowserVerifyRequest : Type 0 where
  pub challenge_token : Bytes
  pub resource_id : Bytes
  pub site_id : Bytes
  pub path : Bytes
  pub payload : Bytes

-- What comes of decoding the submitted body within its limit: the input, and whether nothing follows.
pub data Submission : Type 0 where
  too_large : Submission
  undecodable : Submission
  decoded : BrowserVerifyRequest → Bool → Submission

pub record Cookie : Type 0 where
  pub name : Bytes
  pub value : Bytes
  pub max_age : ℤ

-- The answer to a verification, and what the Agent was asked.
pub record VerifyAnswer : Type 0 where
  pub status : ℕ
  pub verified : Bool
  pub public_reason : Bytes
  pub cookie : Option Cookie
  pub asked : Option ChallengeVerifyRequest

-- The answer to a creation: the Agent's JSON, or the status and the reason of an error.
pub data CreateAnswer : Type 0 where
  created : Bytes → CreateAnswer
  refused : ℕ → Bytes → CreateAnswer

-- `challengeRequest` on the reply, for any type of output.
unfoldable pub read_challenge : {A : Type 0} → Decoder A → ℕ → Bytes → Bytes → AgentResult A
read_challenge json status content_type body =
    let limited = take (maximum_agent_response_bytes + 1) body in
    if status != 200
    then unavailable (unexpected_status status)
    else if not (has_prefix (to_lower content_type) (codes "application/json"))
    then malformed not_json
    else elim (json.decode limited) [
      | none ↦ malformed decode_failed
      | some output ↦
          if leb (maximum_agent_response_bytes + 1 - json.taken limited) 0
          then malformed decode_failed
          else if not (json.at_end limited)
          then malformed trailing_data
          else ok output
    ]

unfoldable pub challenge_request : {A : Type 0} → Decoder A → Exchange → AgentResult A
challenge_request json cannot_encode = malformed encode_failed
challenge_request json cannot_construct = malformed construct_failed
challenge_request json no_reply = unavailable request_failed
challenge_request json (reply status content_type body) =
    read_challenge json status content_type body

-- The check that the raw message is not empty.
unfoldable pub check_created : AgentResult Bytes → AgentResult Bytes
check_created (err e) = err e
check_created (ok output) = if length output == 0 then malformed empty_response else ok output

unfoldable pub agent_challenge_create :
    Decoder Bytes → (ChallengeCreateRequest → Exchange) → ChallengeCreateRequest → AgentResult Bytes
agent_challenge_create json send input = check_created (challenge_request json (send input))

abbrev pub trust_cookie : Bytes
trust_cookie = codes "__Host-sokol_trust"

-- The two checks of a decoded verification.
unfoldable pub check_verified :
    AgentResult ChallengeVerifyResponse → AgentResult ChallengeVerifyResponse
check_verified (err e) = err e
check_verified (ok output) =
    if not (valid_public_reason output.public_reason)
      || ltb_ℤ output.cookie_max_age (pos 0)
      || ltb_ℤ (pos 604_800) output.cookie_max_age
      || ltb 4096 (length output.cookie_value)
    then malformed verification_invalid
    else if output.verified
        && (output.cookie_name != trust_cookie
            || output.cookie_value == []
            || output.cookie_max_age == pos 0)
    then malformed cookie_invalid
    else ok output

unfoldable pub agent_challenge_verify :
    Decoder ChallengeVerifyResponse
    → (ChallengeVerifyRequest → Exchange)
    → ChallengeVerifyRequest
    → AgentResult ChallengeVerifyResponse
agent_challenge_verify json send input = check_verified (challenge_request json (send input))

unfoldable pub valid_challenge_fields : Bytes → Bytes → Bytes → Bytes → Bool
valid_challenge_fields token resource_id site_id path =
    leb 32 (length token)
    && leb (length token) 4096
    && leb 1 (length resource_id)
    && leb (length resource_id) 128
    && leb 1 (length site_id)
    && leb (length site_id) 128
    && leb 1 (length path)
    && leb (length path) 8192
    && has_prefix path (codes "/")
    && not (has_prefix path (codes "//"))
    && not (contains_byte path 92)
    && not (contains_any (token ++ (resource_id ++ (site_id ++ path))) (0 ∷ 13 ∷ 10 ∷ []))

unfoldable pub bounded_user_agent : Request → Bytes
bounded_user_agent request =
    let value = header_get request.header (codes "User-Agent") in
    if ltb 4096 (length value) then take 4096 value else value

-- The parts of Go's library and of the surroundings that the handlers meet.
pub record ChallengeEnv : Type 0 where
  pub resolver : Resolver
  pub ip_string : Ip → Bytes
  pub parse_url : Bytes → Option Url
  pub query_value : Bytes → Bytes → Bytes
  pub read_submission : ℕ → Option BodyStream → Submission
  pub create_json : Decoder Bytes
  pub create_send : ChallengeCreateRequest → Exchange
  pub verify_json : Decoder ChallengeVerifyResponse
  pub verify_send : ChallengeVerifyRequest → Exchange

abbrev pub challenge_error : ℕ → Bytes → Option ChallengeVerifyRequest → VerifyAnswer
challenge_error status reason asked = record {
  status = status;
  verified = false;
  public_reason = reason;
  cookie = none;
  asked = asked;
}

-- The end of `challengeVerify`, from the Agent's answer on.
unfoldable pub conclude_verify :
    ChallengeVerifyRequest → AgentResult ChallengeVerifyResponse → VerifyAnswer
conclude_verify input (err e) =
    challenge_error 503 (codes "challenge_verification_error") (some input)
conclude_verify input (ok output) = record {
  status = 200;
  verified = output.verified;
  public_reason = output.public_reason;
  cookie =
      if output.verified
      then some (record {
        name = output.cookie_name;
        value = output.cookie_value;
        max_age = output.cookie_max_age;
      })
      else none;
  asked = some input;
}

module _ (env : ChallengeEnv) (trusted : List IpNet) (maximum_body_bytes : ℕ) where
  unfoldable pub same_origin_submission : Request → Bool
  same_origin_submission request =
      let origin = trim_space (header_get request.header (codes "Origin")) in
      if origin == [] then false else elim (env.parse_url origin) [
        | none ↦ false
        | some parsed ↦
            if parsed.has_user
              || parsed.raw_query != []
              || parsed.fragment != []
              || parsed.path != []
            then false
            else equal_fold parsed.scheme (request_scheme env.resolver request trusted)
              && equal_fold parsed.host request.host
      ]

  abbrev pub verify_request : Request → Ip → BrowserVerifyRequest → ChallengeVerifyRequest
  verify_request request client_ip input = record {
    token = input.challenge_token;
    payload = input.payload;
    context = record {
      resource_id = input.resource_id;
      site_id = input.site_id;
      client_ip = env.ip_string client_ip;
      user_agent = bounded_user_agent request;
      path = input.path;
    };
  }

  -- From the decoded body on.
  unfoldable pub verify_submission : Request → Ip → Submission → VerifyAnswer
  verify_submission request client_ip too_large =
      challenge_error 413 (codes "request_too_large") none
  verify_submission request client_ip undecodable =
      challenge_error 400 (codes "challenge_invalid") none
  verify_submission request client_ip (decoded input at_end) =
      if not at_end
        || not (
            valid_challenge_fields input.challenge_token input.resource_id input.site_id input.path)
        || ltb (length input.payload) 2
        || ltb maximum_body_bytes (length input.payload)
      then challenge_error 400 (codes "challenge_invalid") none
      else conclude_verify (verify_request request client_ip input) (
          agent_challenge_verify env.verify_json env.verify_send
            (verify_request request client_ip input))

  unfoldable pub challenge_verify : Request → Ip → VerifyAnswer
  challenge_verify request client_ip =
      if not (same_origin_submission request)
      then challenge_error 403 (codes "challenge_origin_rejected") none
      else verify_submission request client_ip (env.read_submission maximum_body_bytes request.body)

  unfoldable pub challenge_create : Request → Ip → CreateAnswer
  challenge_create request client_ip =
      let token = env.query_value request.raw_query (codes "token") in
      let resource_id = env.query_value request.raw_query (codes "resource") in
      let site_id = env.query_value request.raw_query (codes "site") in
      let path = env.query_value request.raw_query (codes "path") in
      if not (valid_challenge_fields token resource_id site_id path)
      then refused 400 (codes "challenge_invalid")
      else elim (agent_challenge_create env.create_json env.create_send (record {
        challenge_token = token;
        context = record {
          resource_id = resource_id;
          site_id = site_id;
          client_ip = env.ip_string client_ip;
          user_agent = bounded_user_agent request;
          path = path;
        };
      })) [ err e ↦ refused 403 (codes "challenge_invalid") | ok output ↦ created output ]
