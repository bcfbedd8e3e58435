-- ===== src/Config/Accepted.antt =====
-- Which configurations `validateConfig` of plugin.go accepts, and what it makes of them.
use sokol_traefik_plugin.Prelude.{
  ◌≤◌, ◌≡◌, ◌↔◌, inl, inr, ap, subst, sym, ◌&&◌, List, [], ◌++◌, ◌!=◌, bytes_eq, length,
  Option-cases, arith,
}
use sokol_traefik_plugin.Text.{Bytes, codes}
use sokol_traefik_plugin.Net.{IpNet}
use sokol_traefik_plugin.Paths.{validate_relative_page_path}
use sokol_traefik_plugin.Transport.{validate_agent_endpoint}
use sokol_traefik_plugin.Config.{
  Config, ConfigEnv, RuntimeConfig, Problem, valid, validated, problem_if, outside, block_outside,
  challenge_outside, rate_limit_outside, unavailable_outside, file_bytes_range,
  default_format_unknown, too_many_cidrs,
}
use sokol_traefik_plugin.Config.Check.{
  trusted_of, response_root_of, root_problem, runtime_of, timeout_problems, agent_problems,
  mode_problems, body_problems, request_problems, limit_problems, trusted_problems, page_problem,
  response_problems, problems, validate_config,
}
use sokol_traefik_plugin.Config.Lists.{
  same, problem_unless_iff, append_iff, Parses, parse_networks-Parses, Parses-parse_networks,
}
use sokol_traefik_plugin.Config.Valid.{
  problem_if-ltb_iff, outside-Between, either_iff, mode_problems_iff, body_problems_iff,
  request_problems_iff, limit_problems_iff,
}
use sokol_traefik_plugin.Config.Meaning.{HasAgent, IsPage, HasRoot, HasPages, IsConfigured}
use sokol_traefik_plugin.Config.Timed.{timeout_problems-IsTimed, IsTimed-timeout_problems}
use sokol_traefik_plugin.Transport.{EndpointError, validate_agent_endpoint}
use sokol_traefik_plugin.Transport.Endpoint.{validate_agent_endpoint_iff}
use sokol_traefik_plugin.Prelude.{Option, none, some, ◌∷◌}
use sokol_traefik_plugin.Config.{endpoint_rejected, token_file_relative, Problem}

module _ (env : ConfigEnv) (config : Config) where
  endpoint_problem_iff :
      (e : Option EndpointError)
      → ((elim e as (λ _. List Problem) [ none ↦ [] | some e' ↦ endpoint_rejected ∷ [] ]) ≡ [])
        ↔ (e ≡ none)
  endpoint_problem_iff e = ground arith

  agent_problems_iff : (agent_problems env config ≡ []) ↔ HasAgent env config
  unfolding agent_problems
  agent_problems_iff =
      append_iff
        (compose (endpoint_problem_iff (validate_agent_endpoint env.net config.agent.endpoint))
          (validate_agent_endpoint_iff env.net config.agent.endpoint))
        (problem_unless_iff (env.net.paths.is_abs config.agent.token_file) token_file_relative)
    where
      compose : {P Q R : Type 0} → P ↔ Q → Q ↔ R → P ↔ R
      compose left right = (λ p. right.0 (left.0 p), λ r. left.1 (right.1 r))

  pages_iff :
      (page_problem env config config.responses.block_file block_outside
          ++ (page_problem env config config.responses.challenge_file challenge_outside
              ++ (page_problem env config config.responses.rate_limit_file rate_limit_outside
                  ++ (page_problem env config config.responses.unavailable_file unavailable_outside
                      ++ (problem_if
                            (outside 1 4_194_304 config.responses.maximum_file_bytes)
                            file_bytes_range
                          ++ problem_if
                              (config.responses.default_format != codes "html"
                                && config.responses.default_format != codes "json")
                              default_format_unknown))))
        ≡ [])
      ↔ HasPages env config (response_root_of env config)
  pages_iff =
      let page : (name : Bytes) (p : Problem)
          → (page_problem env config name p ≡ [])
            ↔ IsPage env config (response_root_of env config) name =
        λ name p.
          problem_unless_iff
            (validate_relative_page_path env.net.paths (response_root_of env config) name) p in
      append_iff (page config.responses.block_file block_outside) (
        append_iff (page config.responses.challenge_file challenge_outside) (
          append_iff (page config.responses.rate_limit_file rate_limit_outside) (
            append_iff (page config.responses.unavailable_file unavailable_outside) (
              append_iff
                (outside-Between 1 4_194_304 config.responses.maximum_file_bytes file_bytes_range)
                (either_iff config.responses.default_format (codes "html") (codes "json")
                  default_format_unknown)))))

  root_problem-HasRoot :
      root_problem env config ≡ [] → HasRoot env config (response_root_of env config)
  unfolding root_problem response_root_of
  root_problem-HasRoot h =
      elim (Option-cases (env.net.paths.abs (env.net.paths.clean config.responses.root))) [
        | inl bad ↦ absurd (ground arith)
        | inr (root, good) ↦ ground arith
      ]

  HasRoot-root_problem :
      (root : Bytes)
      → HasRoot env config root
      → (root_problem env config ≡ []) × (response_root_of env config ≡ root)
  unfolding root_problem response_root_of
  HasRoot-root_problem root (good, absolute) = ground arith

  trusted_problems-Parses :
      trusted_problems env config ≡ []
      → Parses env.parse_cidr config.trusted_proxies (trusted_of env config).0
        × (length config.trusted_proxies ≤ 128)
  unfolding trusted_problems
  trusted_problems-Parses h =
      let parts =
        (append_iff same (problem_if-ltb_iff 128 (length config.trusted_proxies) too_many_cidrs)).0
          h in
      (parse_networks-Parses env.parse_cidr config.trusted_proxies parts.0, parts.1)

  Parses-trusted_problems :
      (networks : List IpNet)
      → Parses env.parse_cidr config.trusted_proxies networks
      → length config.trusted_proxies ≤ 128
      → (trusted_problems env config ≡ []) × ((trusted_of env config).0 ≡ networks)
  unfolding trusted_problems
  Parses-trusted_problems networks parses few =
      let same_networks =
        Parses-parse_networks env.parse_cidr config.trusted_proxies networks parses in
      (
        (append_iff same (problem_if-ltb_iff 128 (length config.trusted_proxies) too_many_cidrs)).1
            (ap (λ found. found.1) same_networks, few),
        ap (λ found. found.0) same_networks,
      )

  problem_parts : (problems env config ≡ []) ↔ (
      (timeout_problems env config ≡ [])
      × ((agent_problems env config ≡ [])
          × ((mode_problems config ≡ [])
              × ((trusted_problems env config ≡ [])
                  × ((body_problems config.request_body ≡ [])
                      × ((request_problems config.request ≡ [])
                          × ((response_problems env config ≡ [])
                              × (limit_problems config ≡ []))))))))
  unfolding problems
  problem_parts = append_iff same (
      append_iff same (
        append_iff same
          (append_iff same (append_iff same (append_iff same (append_iff same same))))))

  response_parts :
      (response_problems env config ≡ [])
      ↔ ((root_problem env config ≡ []) × HasPages env config (response_root_of env config))
  unfolding response_problems
  response_parts = append_iff same pages_iff

  problems-IsConfigured : problems env config ≡ [] → IsConfigured env config (runtime_of env config)
  unfolding runtime_of
  problems-IsConfigured h =
      let (timed, (agent, (modes, (trusted, (body, (request, (response, limits))))))) =
        problem_parts.0 h in
      let (root, pages) = response_parts.0 response in
      (
        timeout_problems-IsTimed env config timed,
        (
          agent_problems_iff.0 agent,
          (
            (mode_problems_iff config).0 modes,
            (
              trusted_problems-Parses trusted,
              (
                (body_problems_iff config.request_body).0 body,
                (
                  (request_problems_iff config.request).0 request,
                  ((root_problem-HasRoot root, pages), (limit_problems_iff config).0 limits),
                ),
              ),
            ),
          ),
        ),
      )

  IsConfigured-problems :
      (runtime : RuntimeConfig)
      → IsConfigured env config runtime
      → (problems env config ≡ []) × (runtime_of env config ≡ runtime)
  unfolding runtime_of
  IsConfigured-problems runtime
        (timed, (agent, (modes, (trusted, (body, (request, ((root, pages), limits))))))) =
      let (timely, connect, within, challenge, reload, ttl, opened) =
        IsTimed-timeout_problems env config runtime timed in
      let t = Parses-trusted_problems runtime.trusted trusted.0 trusted.1 in
      let r = HasRoot-root_problem runtime.response_root root in
      let found = r.1 in
      let networks = t.1 in
      (
        problem_parts.1 (
          timely,
          (
            agent_problems_iff.1 agent,
            (
              (mode_problems_iff config).1 modes,
              (
                t.0,
                (
                  (body_problems_iff config.request_body).1 body,
                  (
                    (request_problems_iff config.request).1 request,
                    (
                      response_parts.1 (r.0, subst (HasPages env config) (sym r.1) pages),
                      (limit_problems_iff config).1 limits,
                    ),
                  ),
                ),
              ),
            ),
          ),
        ),
        cc,
      )

  validated_lem :
      (runtime runtime' : RuntimeConfig) (found : List Problem)
      → validated runtime found ≡ valid runtime'
      → (found ≡ []) × (runtime ≡ runtime')
  validated_lem runtime runtime' found h = ground arith

  -- The validation accepts a configuration exactly when it is within all its bounds: each duration
  -- reads as a time between its limits, the connect timeout exceeds neither request timeout, the
  -- endpoint parses as an absolute Unix socket or as an HTTP origin with a local host, the token file
  -- and the root are absolute, every trusted network parses, each page is inside the root, and the
  -- modes, names, lists and sizes are within theirs. The runtime that it returns holds the durations,
  -- the networks and the root that were read, and no other does.
  pub validate_config_iff :
      (runtime : RuntimeConfig)
      → (validate_config env config ≡ valid runtime) ↔ IsConfigured env config runtime
  unfolding validate_config
  validate_config_iff runtime = (
    λ h.
        let (none_left, same_runtime) =
          validated_lem (runtime_of env config) runtime (problems env config) h in
        subst (IsConfigured env config) same_runtime (problems-IsConfigured none_left),
    λ h. let done = IsConfigured-problems runtime h in ground (arith, done),
  )
