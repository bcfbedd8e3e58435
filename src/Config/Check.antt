-- ===== src/Config/Check.antt =====
-- The validation of the configuration, plugin.go: `validateConfig`. The problems come in the order of
-- the code; where that ranges over a Go map of names, in the order written there.
use sokol_traefik_plugin.Prelude.{
  ℕ, ◌*◌, not, ◌&&◌, ◌||◌, List, [], ◌∷◌, ◌++◌, Option, none, some, ltb, ◌==◌, ◌!=◌, nat_eq,
  bytes_eq, if◌then◌else◌, length,
}
use sokol_traefik_plugin.Text.{Bytes, codes, has_suffix, trim_space}
use sokol_traefik_plugin.Net.{IpNet}
use sokol_traefik_plugin.Paths.{validate_relative_page_path}
use sokol_traefik_plugin.Transport.{validate_agent_endpoint}
use sokol_traefik_plugin.Forwarding.{RequestConfig, valid_header_name, valid_cookie_name}
use sokol_traefik_plugin.Config.{
  BodyConfig, Config, ConfigEnv, RuntimeConfig, Problem, problem_if, millisecond, second, outside,
  bounded_duration, valid_content_type_pattern, valid_path_prefix, each, is_mode, is_strategy,
  is_forward_mode, is_header_choice, Validated, validated, connect_timeout_range,
  request_timeout_range, challenge_timeout_range, connect_exceeds_request,
  connect_exceeds_challenge, reload_interval_range, maximum_ttl_range, open_duration_range,
  endpoint_rejected, token_file_relative, unavailable_mode, malformed_mode, deny_mode,
  strategy_unknown, provider_headers, invalid_cidr, too_many_cidrs, body_bytes_range,
  oversize_action_unknown, content_type_invalid, too_many_content_types, bypass_prefix_invalid,
  too_many_bypass_prefixes, header_mode_unknown, cookie_mode_unknown, header_invalid,
  too_many_headers, cookie_invalid, too_many_cookies, root_relative, block_outside,
  challenge_outside, rate_limit_outside, unavailable_outside, file_bytes_range,
  default_format_unknown, entries_range, threshold_range, path_prefix_invalid,
  challenge_bytes_range, hint_too_long,
}

-- `parseNetworks`: the networks that parse, and a problem for each that does not.
unfoldable pub parse_networks : (Bytes → Option IpNet) → List Bytes → List IpNet × List Problem
unfolding trim_space
parse_networks parse_cidr [] = ([], [])
parse_networks parse_cidr (value ∷ values) =
    let rest = parse_networks parse_cidr values in
    elim (parse_cidr (trim_space value)) [
      | none ↦ (rest.0, invalid_cidr ∷ rest.1)
      | some network ↦ (network ∷ rest.0, rest.1)
    ]

unfoldable pub mode_problems : Config → List Problem
mode_problems config =
    problem_if (not (is_mode config.failure_mode.agent_unavailable_mode)) unavailable_mode
    ++ (problem_if (not (is_mode config.failure_mode.malformed_response_mode)) malformed_mode
        ++ (problem_if (not (is_mode config.failure_mode.explicit_local_deny)) deny_mode
            ++ (problem_if (not (is_strategy config.client_ip.strategy)) strategy_unknown
                ++ problem_if
                    (not (valid_header_name config.client_ip.cloudflare_header)
                      || not (valid_header_name config.client_ip.bunny_header))
                    provider_headers)))

unfoldable pub body_problems : BodyConfig → List Problem
unfolding each
body_problems body =
    problem_if (outside 1 1_048_576 body.maximum_bytes) body_bytes_range
    ++ (problem_if
          (body.oversize_action != codes "headers_only" && body.oversize_action != codes "reject")
          oversize_action_unknown
        ++ (each valid_content_type_pattern content_type_invalid body.content_types
            ++ (problem_if (ltb 32 (length body.content_types)) too_many_content_types
                ++ (each valid_path_prefix bypass_prefix_invalid body.bypass_path_prefixes
                    ++ problem_if (ltb 32 (length body.bypass_path_prefixes))
                        too_many_bypass_prefixes))))

unfoldable pub request_problems : RequestConfig → List Problem
unfolding each
request_problems request =
    problem_if (not (is_forward_mode request.header_mode)) header_mode_unknown
    ++ (problem_if (not (is_forward_mode request.cookie_mode)) cookie_mode_unknown
        ++ (each is_header_choice header_invalid request.headers
            ++ (problem_if (ltb 64 (length request.headers)) too_many_headers
                ++ (each valid_cookie_name cookie_invalid request.cookies
                    ++ problem_if (ltb 64 (length request.cookies)) too_many_cookies))))

unfoldable pub limit_problems : Config → List Problem
limit_problems config =
    problem_if (outside 0 10_000 config.cache.maximum_entries) entries_range
    ++ (problem_if (outside 1 100 config.circuit_breaker.failure_threshold) threshold_range
        ++ (problem_if
              (not (valid_path_prefix config.challenge.path_prefix)
                || config.challenge.path_prefix == codes "/"
                || has_suffix config.challenge.path_prefix (codes "/"))
              path_prefix_invalid
            ++ (problem_if (outside 1024 262_144 config.challenge.maximum_body_bytes)
                  challenge_bytes_range
                ++ problem_if (ltb 128 (length config.resource_hint)) hint_too_long)))

-- What `time.ParseDuration` gives, within bounds; otherwise 0 and a problem.
module _ (env : ConfigEnv) (config : Config) where
  abbrev pub connect_timeout_of : ℕ × List Problem
  connect_timeout_of =
      bounded_duration (env.parse_duration config.agent.connect_timeout) millisecond second
        connect_timeout_range

  abbrev pub request_timeout_of : ℕ × List Problem
  request_timeout_of =
      bounded_duration (env.parse_duration config.agent.request_timeout) millisecond (2 * second)
        request_timeout_range

  abbrev pub challenge_timeout_of : ℕ × List Problem
  challenge_timeout_of =
      bounded_duration (env.parse_duration config.challenge.request_timeout) millisecond
        (5 * second) challenge_timeout_range

  abbrev pub reload_interval_of : ℕ × List Problem
  reload_interval_of =
      bounded_duration (env.parse_duration config.responses.reload_interval) second (3600 * second)
        reload_interval_range

  abbrev pub maximum_ttl_of : ℕ × List Problem
  maximum_ttl_of =
      bounded_duration (env.parse_duration config.cache.maximum_ttl) 0 (5 * second)
        maximum_ttl_range

  abbrev pub open_duration_of : ℕ × List Problem
  open_duration_of =
      bounded_duration (env.parse_duration config.circuit_breaker.open_duration) (100 * millisecond)
        (60 * second) open_duration_range

  abbrev pub trusted_of : List IpNet × List Problem
  trusted_of = parse_networks env.parse_cidr config.trusted_proxies

  -- The absolute root, or nothing.
  unfoldable pub response_root_of : Bytes
  response_root_of = elim (env.net.paths.abs (env.net.paths.clean config.responses.root)) [
    | none ↦ []
    | some root ↦ if env.net.paths.is_abs config.responses.root then root else []
  ]

  unfoldable pub root_problem : List Problem
  root_problem = elim (env.net.paths.abs (env.net.paths.clean config.responses.root)) [
    | none ↦ root_relative ∷ []
    | some root ↦ problem_if (not (env.net.paths.is_abs config.responses.root)) root_relative
  ]

  unfoldable pub runtime_of : RuntimeConfig
  unfolding bounded_duration response_root_of
  runtime_of = record {
    connect_timeout = connect_timeout_of.0;
    request_timeout = request_timeout_of.0;
    challenge_timeout = challenge_timeout_of.0;
    reload_interval = reload_interval_of.0;
    maximum_cache_ttl = maximum_ttl_of.0;
    open_duration = open_duration_of.0;
    trusted = trusted_of.0;
    response_root = response_root_of;
  }

  unfoldable pub timeout_problems : List Problem
  timeout_problems =
      let connect = connect_timeout_of in
      let request = request_timeout_of in
      let challenge = challenge_timeout_of in
      connect.1
      ++ (request.1
          ++ (challenge.1
              ++ (problem_if (ltb 0 request.0 && ltb request.0 connect.0) connect_exceeds_request
                  ++ (problem_if (ltb 0 challenge.0 && ltb challenge.0 connect.0)
                        connect_exceeds_challenge
                      ++ (reload_interval_of.1 ++ (maximum_ttl_of.1 ++ open_duration_of.1))))))

  unfoldable pub agent_problems : List Problem
  agent_problems =
      elim (validate_agent_endpoint env.net config.agent.endpoint) as (λ _. List Problem) [
        | none ↦ []
        | some e ↦ endpoint_rejected ∷ []
      ]
      ++ problem_if (not (env.net.paths.is_abs config.agent.token_file)) token_file_relative

  unfoldable pub trusted_problems : List Problem
  trusted_problems =
      trusted_of.1 ++ problem_if (ltb 128 (length config.trusted_proxies)) too_many_cidrs

  abbrev pub page_problem : Bytes → Problem → List Problem
  page_problem name problem =
      problem_if (not (validate_relative_page_path env.net.paths response_root_of name)) problem

  unfoldable pub response_problems : List Problem
  response_problems =
      root_problem
      ++ (page_problem config.responses.block_file block_outside
          ++ (page_problem config.responses.challenge_file challenge_outside
              ++ (page_problem config.responses.rate_limit_file rate_limit_outside
                  ++ (page_problem config.responses.unavailable_file unavailable_outside
                      ++ (problem_if (outside 1 4_194_304 config.responses.maximum_file_bytes)
                            file_bytes_range
                          ++ problem_if
                              (config.responses.default_format != codes "html"
                                && config.responses.default_format != codes "json")
                              default_format_unknown)))))

  unfoldable pub problems : List Problem
  problems =
      timeout_problems
      ++ (agent_problems
          ++ (mode_problems config
              ++ (trusted_problems
                  ++ (body_problems config.request_body
                      ++ (request_problems config.request
                          ++ (response_problems ++ limit_problems config))))))

  unfoldable pub validate_config : Validated
  validate_config = validated runtime_of problems
