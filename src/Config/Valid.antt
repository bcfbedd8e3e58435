-- ===== src/Config/Valid.antt =====
-- What a configuration is when `validateConfig` of plugin.go accepts it.
use sokol_traefik_plugin.Prelude.{
  ℕ, ◌≤◌, ◌≡◌, ◌≢◌, ◌↔◌, ◌⊎◌, Bool, true, false, not, ◌&&◌, ◌||◌, List, [], ◌==◌, ◌!=◌, bytes_eq,
  bytes_beq_iff, ltb, nat_eq, length, All, ℤ, pos, arith,
}
use sokol_traefik_plugin.Text.{Bytes, codes, has_suffix}
use sokol_traefik_plugin.Forwarding.{RequestConfig, valid_header_name, valid_cookie_name}
use sokol_traefik_plugin.Config.{
  BodyConfig, Config, Problem, problem_if, outside, is_mode, is_strategy, is_forward_mode,
  is_header_choice, valid_content_type_pattern, valid_path_prefix, unavailable_mode, malformed_mode,
  deny_mode, strategy_unknown, provider_headers, body_bytes_range, oversize_action_unknown,
  content_type_invalid, too_many_content_types, bypass_prefix_invalid, too_many_bypass_prefixes,
  header_mode_unknown, cookie_mode_unknown, header_invalid, too_many_headers, cookie_invalid,
  too_many_cookies, entries_range, threshold_range, path_prefix_invalid, challenge_bytes_range,
  hint_too_long,
}
use sokol_traefik_plugin.Config.Check.{
  mode_problems, body_problems, request_problems, limit_problems,
}
use sokol_traefik_plugin.Config.Lists.{
  problem_if_iff, problem_unless_iff, append_iff, each_iff, outside_iff,
}

-- A number of the configuration within its bounds.
abbrev pub Between : ℕ → ℕ → ℤ → Type 0
Between low high z = (n : ℕ) × (z ≡ pos n) × (low ≤ n) × (n ≤ high)

-- Each passes the test.
abbrev pub Each : (Bytes → Bool) → List Bytes → Type 0
Each good items = All (λ item. good item ≡ true) items

abbrev pub HasModes : Config → Type 0
HasModes config =
    (is_mode config.failure_mode.agent_unavailable_mode ≡ true)
    × ((is_mode config.failure_mode.malformed_response_mode ≡ true)
        × ((is_mode config.failure_mode.explicit_local_deny ≡ true)
            × ((is_strategy config.client_ip.strategy ≡ true)
                × ((valid_header_name config.client_ip.cloudflare_header ≡ true)
                    × (valid_header_name config.client_ip.bunny_header ≡ true)))))

abbrev pub HasBody : BodyConfig → Type 0
HasBody body =
    Between 1 1_048_576 body.maximum_bytes
    × (((body.oversize_action ≡ codes "headers_only") ⊎ (body.oversize_action ≡ codes "reject"))
        × (Each valid_content_type_pattern body.content_types
            × ((length body.content_types ≤ 32)
                × (Each valid_path_prefix body.bypass_path_prefixes
                    × (length body.bypass_path_prefixes ≤ 32)))))

abbrev pub HasRequest : RequestConfig → Type 0
HasRequest request =
    (is_forward_mode request.header_mode ≡ true)
    × ((is_forward_mode request.cookie_mode ≡ true)
        × (Each is_header_choice request.headers
            × ((length request.headers ≤ 64)
                × (Each valid_cookie_name request.cookies × (length request.cookies ≤ 64)))))

abbrev pub IsPathPrefix : Bytes → Type 0
IsPathPrefix prefix =
    (valid_path_prefix prefix ≡ true)
    × (prefix ≢ codes "/")
    × (has_suffix prefix (codes "/") ≡ false)

abbrev pub HasLimits : Config → Type 0
HasLimits config =
    Between 0 10_000 config.cache.maximum_entries
    × (Between 1 100 config.circuit_breaker.failure_threshold
        × (IsPathPrefix config.challenge.path_prefix
            × (Between 1024 262_144 config.challenge.maximum_body_bytes
                × (length config.resource_hint ≤ 128))))

pub problem_if-ltb_iff : (high n : ℕ) (p : Problem) → (problem_if (ltb high n) p ≡ []) ↔ (n ≤ high)
problem_if-ltb_iff high n p = ground arith

pub outside-Between :
    (low high : ℕ) (z : ℤ) (p : Problem)
    → (problem_if (outside low high z) p ≡ []) ↔ Between low high z
outside-Between low high z p = (
  λ h. (outside_iff low high z).0 ((problem_if_iff (outside low high z) p).0 h),
  λ h. (problem_if_iff (outside low high z) p).1 ((outside_iff low high z).1 h),
)

both_iff :
    (a b : Bool) (p : Problem) → (problem_if (not a || not b) p ≡ []) ↔ ((a ≡ true) × (b ≡ true))
both_iff a b p = ground arith

pub either_iff :
    (s a b : Bytes) (p : Problem) → (problem_if (s != a && s != b) p ≡ []) ↔ ((s ≡ a) ⊎ (s ≡ b))
either_iff s a b p = ground (arith, bytes_beq_iff s a, bytes_beq_iff s b)

pub mode_problems_iff : (config : Config) → (mode_problems config ≡ []) ↔ HasModes config
unfolding mode_problems
mode_problems_iff config =
    append_iff
      (problem_unless_iff (is_mode config.failure_mode.agent_unavailable_mode) unavailable_mode)
      (append_iff
        (problem_unless_iff (is_mode config.failure_mode.malformed_response_mode) malformed_mode)
        (append_iff (problem_unless_iff (is_mode config.failure_mode.explicit_local_deny) deny_mode)
          (append_iff (problem_unless_iff (is_strategy config.client_ip.strategy) strategy_unknown)
            (both_iff (valid_header_name config.client_ip.cloudflare_header)
              (valid_header_name config.client_ip.bunny_header) provider_headers))))

pub body_problems_iff : (body : BodyConfig) → (body_problems body ≡ []) ↔ HasBody body
unfolding body_problems
body_problems_iff body =
    append_iff (outside-Between 1 1_048_576 body.maximum_bytes body_bytes_range) (
      append_iff
        (either_iff body.oversize_action (codes "headers_only") (codes "reject")
          oversize_action_unknown)
        (append_iff (each_iff valid_content_type_pattern content_type_invalid body.content_types) (
          append_iff (problem_if-ltb_iff 32 (length body.content_types) too_many_content_types) (
            append_iff (each_iff valid_path_prefix bypass_prefix_invalid body.bypass_path_prefixes)
              (problem_if-ltb_iff 32 (length body.bypass_path_prefixes)
                too_many_bypass_prefixes)))))

pub request_problems_iff :
    (request : RequestConfig) → (request_problems request ≡ []) ↔ HasRequest request
unfolding request_problems
request_problems_iff request =
    append_iff (problem_unless_iff (is_forward_mode request.header_mode) header_mode_unknown) (
      append_iff (problem_unless_iff (is_forward_mode request.cookie_mode) cookie_mode_unknown) (
        append_iff (each_iff is_header_choice header_invalid request.headers) (
          append_iff (problem_if-ltb_iff 64 (length request.headers) too_many_headers) (
            append_iff (each_iff valid_cookie_name cookie_invalid request.cookies)
              (problem_if-ltb_iff 64 (length request.cookies) too_many_cookies)))))

IsPathPrefix-iff :
    (prefix : Bytes)
    → (problem_if
          (not (valid_path_prefix prefix) || prefix == codes "/" || has_suffix prefix (codes "/"))
          path_prefix_invalid
        ≡ [])
      ↔ IsPathPrefix prefix
IsPathPrefix-iff prefix = ground (arith, bytes_beq_iff prefix (codes "/"))

pub limit_problems_iff : (config : Config) → (limit_problems config ≡ []) ↔ HasLimits config
unfolding limit_problems
limit_problems_iff config =
    append_iff (outside-Between 0 10_000 config.cache.maximum_entries entries_range) (
      append_iff (outside-Between 1 100 config.circuit_breaker.failure_threshold threshold_range) (
        append_iff (IsPathPrefix-iff config.challenge.path_prefix) (
          append_iff
            (outside-Between 1024 262_144 config.challenge.maximum_body_bytes challenge_bytes_range)
            (problem_if-ltb_iff 128 (length config.resource_hint) hint_too_long))))
