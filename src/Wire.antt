-- ===== src/Wire.antt =====
-- The messages between the plugin and the local Agent: the structs of agent.go. A Go `int` is a ℤ,
-- a `uint64` a number, a Go map an association list with distinct keys.
use sokol_traefik_plugin.Prelude.{ℕ, Bool, false, List, [], ℤ, pos}
use sokol_traefik_plugin.Text.{Bytes}

pub record EvaluationRequest : Type 0 where
  pub request_id : Bytes
  pub client_ip : Bytes
  pub client_ip_source : Bytes
  pub method : Bytes
  pub scheme : Bytes
  pub host : Bytes
  pub path : Bytes
  pub query : Bytes
  pub headers : List (Bytes × Bytes)
  pub cookies : List (Bytes × Bytes)
  pub header_mode : Bytes
  pub cookie_mode : Bytes
  pub allowlisted_headers : List Bytes
  pub allowlisted_cookies : List Bytes
  pub headers_truncated : Bool
  pub cookies_truncated : Bool
  pub protocol_type : Bytes
  pub http_version : Bytes
  pub body : Bytes
  pub body_truncated : Bool
  pub resource_hint : Bytes

pub record EvaluationResponse : Type 0 where
  pub decision : Bytes
  pub status : ℤ
  pub request_id : Bytes
  pub public_reason : Bytes
  pub cache_ttl_ms : ℤ
  pub resource_id : Bytes
  pub site_id : Bytes
  pub challenge_url : Bytes
  pub challenge_token : Bytes
  pub challenge_auto_start : Bool
  pub cacheable : Bool
  pub cache_key : Bytes
  pub cache_key_scope : Bytes
  pub decision_scope : Bytes
  pub policy_revision : ℕ
  pub retry_after_seconds : ℤ

-- The zero value of the Go struct.
abbrev pub no_response : EvaluationResponse
no_response = record {
  decision = [];
  status = pos 0;
  request_id = [];
  public_reason = [];
  cache_ttl_ms = pos 0;
  resource_id = [];
  site_id = [];
  challenge_url = [];
  challenge_token = [];
  challenge_auto_start = false;
  cacheable = false;
  cache_key = [];
  cache_key_scope = [];
  decision_scope = [];
  policy_revision = 0;
  retry_after_seconds = pos 0;
}
