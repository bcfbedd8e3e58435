-- ===== src/Config/Timed.antt =====
-- The durations of a configuration that `validateConfig` of plugin.go accepts.
use sokol_traefik_plugin.Prelude.{◌*◌, ◌≡◌, ◌↔◌, refl, ◌&&◌, [], bytes_eq, ltb, arith}
use sokol_traefik_plugin.Config.{
  Config, ConfigEnv, RuntimeConfig, problem_if, millisecond, second, connect_timeout_range,
  request_timeout_range, challenge_timeout_range, reload_interval_range, maximum_ttl_range,
  open_duration_range, connect_exceeds_request, connect_exceeds_challenge,
}
use sokol_traefik_plugin.Config.Check.{
  connect_timeout_of, request_timeout_of, challenge_timeout_of, reload_interval_of, maximum_ttl_of,
  open_duration_of, runtime_of, timeout_problems,
}
use sokol_traefik_plugin.Config.Lists.{same, append_iff, bounded_duration_iff}
use sokol_traefik_plugin.Config.Meaning.{IsTimed}

module _ (env : ConfigEnv) (config : Config) where
  timeout_parts : (timeout_problems env config ≡ []) ↔ (
      ((connect_timeout_of env config).1 ≡ [])
      × (((request_timeout_of env config).1 ≡ [])
          × (((challenge_timeout_of env config).1 ≡ [])
              × ((problem_if
                      (ltb 0 (request_timeout_of env config).0
                        && ltb (request_timeout_of env config).0 (connect_timeout_of env config).0)
                      connect_exceeds_request
                    ≡ [])
                  × ((problem_if
                          (ltb 0 (challenge_timeout_of env config).0
                            && ltb
                                (challenge_timeout_of env config).0
                                (connect_timeout_of env config).0)
                          connect_exceeds_challenge
                        ≡ [])
                      × (((reload_interval_of env config).1 ≡ [])
                          × (((maximum_ttl_of env config).1 ≡ [])
                              × ((open_duration_of env config).1 ≡ []))))))))
  unfolding timeout_problems
  timeout_parts = append_iff same (
      append_iff same (
        append_iff same
          (append_iff same (append_iff same (append_iff same (append_iff same same))))))

  pub timeout_problems-IsTimed :
      timeout_problems env config ≡ [] → IsTimed env config (runtime_of env config)
  unfolding runtime_of
  timeout_problems-IsTimed h =
      let (connect, (request, (challenge, (first, (second', (reload, (ttl, opened))))))) =
        timeout_parts.0 h in
      let c =
        (bounded_duration_iff _ millisecond second _ connect_timeout_range).0 (connect, refl) in
      let r =
        (bounded_duration_iff _ millisecond (2 * second) _ request_timeout_range).0
          (request, refl) in
      let g =
        (bounded_duration_iff _ millisecond (5 * second) _ challenge_timeout_range).0
          (challenge, refl) in
      (
        c,
        (
          r,
          (
            g,
            (
              ground (arith, r.1),
              (
                ground (arith, g.1),
                (
                  (bounded_duration_iff _ second (3600 * second) _ reload_interval_range).0
                      (reload, refl),
                  (
                    (bounded_duration_iff _ 0 (5 * second) _ maximum_ttl_range).0 (ttl, refl),
                    (bounded_duration_iff _ (100 * millisecond) (60 * second) _
                          open_duration_range).0
                        (opened, refl),
                  ),
                ),
              ),
            ),
          ),
        ),
      )

  pub IsTimed-timeout_problems :
      (runtime : RuntimeConfig)
      → IsTimed env config runtime
      → (timeout_problems env config ≡ [])
        × ((connect_timeout_of env config).0 ≡ runtime.connect_timeout)
        × ((request_timeout_of env config).0 ≡ runtime.request_timeout)
        × ((challenge_timeout_of env config).0 ≡ runtime.challenge_timeout)
        × ((reload_interval_of env config).0 ≡ runtime.reload_interval)
        × ((maximum_ttl_of env config).0 ≡ runtime.maximum_cache_ttl)
        × ((open_duration_of env config).0 ≡ runtime.open_duration)
  IsTimed-timeout_problems runtime
        (connect, (request, (challenge, (first, (second', (reload, (ttl, opened))))))) =
      let c =
        (bounded_duration_iff _ millisecond second runtime.connect_timeout connect_timeout_range).1
          connect in
      let r =
        (bounded_duration_iff _ millisecond (2 * second) runtime.request_timeout
            request_timeout_range).1
          request in
      let g =
        (bounded_duration_iff _ millisecond (5 * second) runtime.challenge_timeout
            challenge_timeout_range).1
          challenge in
      let l =
        (bounded_duration_iff _ second (3600 * second) runtime.reload_interval
            reload_interval_range).1
          reload in
      let t =
        (bounded_duration_iff _ 0 (5 * second) runtime.maximum_cache_ttl maximum_ttl_range).1 ttl in
      let o =
        (bounded_duration_iff _ (100 * millisecond) (60 * second) runtime.open_duration
            open_duration_range).1
          opened in
      (
        timeout_parts.1 (
          c.0,
          (r.0, (g.0, (ground (arith, c.1, r.1), (ground (arith, c.1, g.1), (l.0, (t.0, o.0)))))),
        ),
        c.1,
        r.1,
        g.1,
        l.1,
        t.1,
        o.1,
      )
