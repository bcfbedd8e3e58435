-- ===== src/Config.antt =====
-- The configuration, plugin.go: `Config` and the tests that `validateConfig` makes. What it calls of
-- Go's packages is in `ConfigEnv`. A problem is a value in place of its message.
pub mod Check
pub mod Lists
pub mod Valid
pub mod Meaning
pub mod Timed
pub mod Accepted
pub mod Tests
pub mod Defaults
use sokol_traefik_plugin.Prelude.{
  ℕ, ◌*◌, Bool, true, false, not, ◌&&◌, ◌||◌, List, [], ◌∷◌, ◌++◌, Option, none, some, ltb, leb,
  ◌==◌, ◌!=◌, nat_eq, bytes_eq, if◌then◌else◌, length, all, ℤ, pos, negsuc, ltb_ℤ,
}
use sokol_traefik_plugin.Text.{
  Bytes, codes, contains_any, contains_byte, has_prefix, has_suffix, split, to_lower, trim_space,
}
use sokol_traefik_plugin.Net.{IpNet}
use sokol_traefik_plugin.Paths.{Paths, validate_relative_page_path}
use sokol_traefik_plugin.Transport.{Network, validate_agent_endpoint}
use sokol_traefik_plugin.ClientIp.{ClientIpConfig}
use sokol_traefik_plugin.Forwarding.{RequestConfig, valid_header_name, valid_cookie_name}
use sokol_traefik_plugin.Middleware.{FailureModeConfig}

pub record AgentConfig : Type 0 where
  pub endpoint : Bytes
  pub token_file : Bytes
  pub connect_timeout : Bytes
  pub request_timeout : Bytes

-- `RequestBodyConfig` as it is read, before its number is known to be positive.
pub record BodyConfig : Type 0 where
  pub enabled : Bool
  pub maximum_bytes : ℤ
  pub oversize_action : Bytes
  pub content_types : List Bytes
  pub bypass_path_prefixes : List Bytes

pub record ResponsesConfig : Type 0 where
  pub root : Bytes
  pub block_file : Bytes
  pub challenge_file : Bytes
  pub rate_limit_file : Bytes
  pub unavailable_file : Bytes
  pub maximum_file_bytes : ℤ
  pub reload_interval : Bytes
  pub default_format : Bytes
  pub allow_symlinks : Bool

pub record CacheConfig : Type 0 where
  pub maximum_entries : ℤ
  pub maximum_ttl : Bytes

pub record CircuitBreakerConfig : Type 0 where
  pub failure_threshold : ℤ
  pub open_duration : Bytes

pub record ChallengeConfig : Type 0 where
  pub path_prefix : Bytes
  pub maximum_body_bytes : ℤ
  pub request_timeout : Bytes

pub record Config : Type 0 where
  pub agent : AgentConfig
  pub failure_mode : FailureModeConfig
  pub client_ip : ClientIpConfig
  pub trusted_proxies : List Bytes
  pub request_body : BodyConfig
  pub request : RequestConfig
  pub responses : ResponsesConfig
  pub cache : CacheConfig
  pub circuit_breaker : CircuitBreakerConfig
  pub challenge : ChallengeConfig
  pub resource_hint : Bytes

pub record RuntimeConfig : Type 0 where
  pub connect_timeout : ℕ
  pub request_timeout : ℕ
  pub challenge_timeout : ℕ
  pub reload_interval : ℕ
  pub maximum_cache_ttl : ℕ
  pub open_duration : ℕ
  pub trusted : List IpNet
  pub response_root : Bytes

pub data Problem : Type 0 where
  connect_timeout_range request_timeout_range challenge_timeout_range : Problem
  connect_exceeds_request connect_exceeds_challenge : Problem
  reload_interval_range maximum_ttl_range open_duration_range : Problem
  endpoint_rejected token_file_relative : Problem
  unavailable_mode malformed_mode deny_mode strategy_unknown provider_headers : Problem
  invalid_cidr too_many_cidrs : Problem
  body_bytes_range oversize_action_unknown content_type_invalid too_many_content_types : Problem
  bypass_prefix_invalid too_many_bypass_prefixes : Problem
  header_mode_unknown cookie_mode_unknown header_invalid too_many_headers : Problem
  cookie_invalid too_many_cookies : Problem
  root_relative block_outside challenge_outside rate_limit_outside unavailable_outside : Problem
  file_bytes_range default_format_unknown : Problem
  entries_range threshold_range path_prefix_invalid challenge_bytes_range hint_too_long : Problem

abbrev pub problem_if : Bool → Problem → List Problem
problem_if wrong problem = if wrong then problem ∷ [] else []

-- Nanoseconds.
abbrev pub millisecond : ℕ
millisecond = 1_000_000

abbrev pub second : ℕ
second = 1_000_000_000

-- time.ParseDuration and net.ParseCIDR (its network), beside the network and the paths.
pub record ConfigEnv : Type 0 where
  pub net : Network
  pub parse_duration : Bytes → Option ℤ
  pub parse_cidr : Bytes → Option IpNet

abbrev pub non_negative : ℤ → ℕ
non_negative (pos n) = n
non_negative (negsuc n) = 0

-- A number out of its bounds.
abbrev pub outside : ℕ → ℕ → ℤ → Bool
outside minimum maximum n = ltb_ℤ n (pos minimum) || ltb_ℤ (pos maximum) n

unfoldable pub bounded_duration : Option ℤ → ℕ → ℕ → Problem → ℕ × List Problem
bounded_duration none minimum maximum problem = (0, problem ∷ [])
bounded_duration (some parsed) minimum maximum problem =
    if outside minimum maximum parsed then (0, problem ∷ []) else (non_negative parsed, [])

unfoldable pub valid_media_parts : List Bytes → Bool
unfolding contains_byte
valid_media_parts (kind ∷ sub ∷ []) =
    kind != [] && sub != [] && (sub == codes "*" || not (contains_byte sub b'*'))
valid_media_parts _ = false

unfoldable pub valid_content_type_pattern : Bytes → Bool
unfolding to_lower trim_space split contains_any
valid_content_type_pattern pattern' =
    let value = trim_space (to_lower pattern') in
    valid_media_parts (split value b'/') && not (contains_any value (32 ∷ 9 ∷ 13 ∷ 10 ∷ 59 ∷ []))

unfoldable pub valid_path_prefix : Bytes → Bool
unfolding has_prefix contains_any
valid_path_prefix value =
    has_prefix value (codes "/")
    && leb (length value) 8192
    && not (contains_any value (0 ∷ 13 ∷ 10 ∷ []))

unfoldable pub cookie_request_header : Bytes → Bool
unfolding to_lower
cookie_request_header value =
    to_lower value == codes "cookie" || to_lower value == codes "set-cookie"

-- One problem for each item that fails the test.
unfoldable pub each : (Bytes → Bool) → Problem → List Bytes → List Problem
each good problem [] = []
each good problem (item ∷ items) =
    let rest = each good problem items in if good item then rest else problem ∷ rest

abbrev pub is_mode : Bytes → Bool
is_mode value = value == codes "allow" || value == codes "deny"

abbrev pub is_strategy : Bytes → Bool
is_strategy s =
    s == codes "direct" || s == codes "forwarded" || s == codes "cloudflare" || s == codes "bunny"

abbrev pub is_forward_mode : Bytes → Bool
is_forward_mode value = value == codes "all" || value == codes "allowlist"

abbrev pub is_header_choice : Bytes → Bool
is_header_choice header =
    valid_header_name header && leb (length header) 128 && not (cookie_request_header header)

pub data Validated : Type 0 where
  valid : RuntimeConfig → Validated
  invalid : List Problem → Validated

abbrev pub validated : RuntimeConfig → List Problem → Validated
validated runtime [] = valid runtime
validated runtime (problem ∷ problems) = invalid (problem ∷ problems)
