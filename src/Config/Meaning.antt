-- ===== src/Config/Meaning.antt =====
-- What `validateConfig` of plugin.go asks of a configuration, and what the configuration stands for.
use sokol_traefik_plugin.Prelude.{ℕ, ◌*◌, ◌≤◌, ◌≡◌, ◌⊎◌, true, some, bytes_eq, length, pos}
use sokol_traefik_plugin.Text.{Bytes, codes}
use sokol_traefik_plugin.Paths.{validate_relative_page_path}
use sokol_traefik_plugin.Config.{Config, ConfigEnv, RuntimeConfig, millisecond, second}
use sokol_traefik_plugin.Config.Lists.{Parses}
use sokol_traefik_plugin.Config.Valid.{Between, HasModes, HasBody, HasRequest, HasLimits}
use sokol_traefik_plugin.Net.{Url}
use sokol_traefik_plugin.Transport.Endpoint.{IsSocket, IsOrigin}

module _ (env : ConfigEnv) (config : Config) where
  -- The text is that many nanoseconds, within the bounds.
  abbrev pub Reads : Bytes → ℕ → ℕ → ℕ → Type 0
  Reads value low high n = (env.parse_duration value ≡ some (pos n)) × (low ≤ n) × (n ≤ high)

  abbrev pub IsTimed : RuntimeConfig → Type 0
  IsTimed runtime =
      Reads config.agent.connect_timeout millisecond second runtime.connect_timeout
      × (Reads config.agent.request_timeout millisecond (2 * second) runtime.request_timeout
          × (Reads config.challenge.request_timeout millisecond (5 * second)
                runtime.challenge_timeout
              × ((runtime.connect_timeout ≤ runtime.request_timeout)
                  × ((runtime.connect_timeout ≤ runtime.challenge_timeout)
                      × (Reads config.responses.reload_interval second (3600 * second)
                            runtime.reload_interval
                          × (Reads config.cache.maximum_ttl 0 (5 * second) runtime.maximum_cache_ttl
                              × Reads config.circuit_breaker.open_duration (100 * millisecond)
                                  (60 * second) runtime.open_duration))))))

  abbrev pub HasAgent : Type 0
  HasAgent =
      ((u : Url) × (env.net.parse_url config.agent.endpoint ≡ some u)
        × (IsSocket env.net u ⊎ IsOrigin env.net u))
      × (env.net.paths.is_abs config.agent.token_file ≡ true)

  abbrev pub IsPage : Bytes → Bytes → Type 0
  IsPage root name = validate_relative_page_path env.net.paths root name ≡ true

  abbrev pub HasRoot : Bytes → Type 0
  HasRoot root =
      (env.net.paths.abs (env.net.paths.clean config.responses.root) ≡ some root)
      × (env.net.paths.is_abs config.responses.root ≡ true)

  abbrev pub HasPages : Bytes → Type 0
  HasPages root =
      IsPage root config.responses.block_file
      × (IsPage root config.responses.challenge_file
          × (IsPage root config.responses.rate_limit_file
              × (IsPage root config.responses.unavailable_file
                  × (Between 1 4_194_304 config.responses.maximum_file_bytes
                      × ((config.responses.default_format ≡ codes "html")
                          ⊎ (config.responses.default_format ≡ codes "json"))))))

  -- The configuration is within all its bounds, and this is what it stands for.
  abbrev pub IsConfigured : RuntimeConfig → Type 0
  IsConfigured runtime =
      IsTimed runtime
      × (HasAgent
          × (HasModes config
              × ((Parses env.parse_cidr config.trusted_proxies runtime.trusted
                    × (length config.trusted_proxies ≤ 128))
                  × (HasBody config.request_body
                      × (HasRequest config.request
                          × ((HasRoot runtime.response_root × HasPages runtime.response_root)
                              × HasLimits config))))))
