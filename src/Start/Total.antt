-- ===== src/Start/Total.antt =====
-- Every way that `New` of plugin.go ends.
use sokol_traefik_plugin.Prelude.{◌≡◌, ◌⊎◌, inl, inr, refl, true, List, some, bytes_eq}
use sokol_traefik_plugin.Text.{Bytes}
use sokol_traefik_plugin.Transport.{AgentClient, new_agent_client}
use sokol_traefik_plugin.Config.{
  Config, ConfigEnv, RuntimeConfig, Problem, Validated, valid, invalid,
}
use sokol_traefik_plugin.Config.Check.{validate_config}
use sokol_traefik_plugin.Config.Meaning.{IsConfigured}
use sokol_traefik_plugin.Config.Accepted.{validate_config_iff}
use sokol_traefik_plugin.Start.{
  TokenError, TokenResult, token, token_failed, TokenFiles, read_token_file, config_rejected,
  token_rejected, Plugin, Started, started, not_started, middleware_of, with_token, with_validated,
  new_middleware,
}
use sokol_traefik_plugin.Start.Ready.{
  IsSecret, IsSecret-read_token_file, IsStarted, with_token-IsStarted,
}

module _ (env : ConfigEnv) (files : TokenFiles) (config : Config) where
  -- It is refused, and stands for nothing.
  abbrev pub IsRefused : Started → Type 0
  IsRefused result =
      ((problems : List Problem) × (result ≡ not_started (config_rejected problems)))
      × ((runtime : RuntimeConfig) → ¬ IsConfigured env config runtime)

  -- It is accepted, but there is no token in its token file.
  abbrev pub IsTokenless : Started → Type 0
  IsTokenless result =
      ((runtime : RuntimeConfig) × IsConfigured env config runtime)
      × ((text : Bytes) → ¬ IsSecret files config.agent.token_file text)
      × ((e : TokenError) × (result ≡ not_started (token_rejected e)))

  abbrev pub IsRunning : Started → Type 0
  IsRunning result =
      (plugin : Plugin) × (result ≡ started plugin)
      × (plugin.config ≡ config)
      × IsStarted env files plugin

  -- The endpoint of an accepted configuration parses.
  client_made :
      (runtime : RuntimeConfig) (text : Bytes)
      → IsConfigured env config runtime
      → (client : AgentClient) × (new_agent_client env.net config.agent.endpoint text
            runtime.connect_timeout runtime.request_timeout runtime.challenge_timeout
          ≡ some client)
  unfolding new_agent_client
  client_made runtime text (timed, (((u, parsed, here), absolute), rest)) =
      rw (parsed, new_agent_client) (_, refl)

  with_token_cases :
      (runtime : RuntimeConfig) (read : TokenResult)
      → IsConfigured env config runtime
      → read_token_file files config.agent.token_file ≡ read
      → IsRunning (with_token env files config runtime read)
        ⊎ IsTokenless (with_token env files config runtime read)
  unfolding middleware_of
  with_token_cases runtime (token_failed e) configured got = inr (
    (runtime, configured),
    λ text secret.
        let read = IsSecret-read_token_file files config.agent.token_file text secret in cc,
    (e, refl),
  )
  with_token_cases runtime (token text) configured got =
      let (client, made) = client_made runtime text configured in
      let plugin = middleware_of config runtime client in
      let same : with_token env files config runtime (token text) ≡ started plugin =
        rw (made, with_token) refl in
      inl (
        plugin,
        same,
        refl,
        with_token-IsStarted env files config runtime (token text) plugin configured got same,
      )

  with_validated_cases :
      (validated : Validated)
      → validate_config env config ≡ validated
      → IsRunning (with_validated env files config validated)
        ⊎ IsTokenless (with_validated env files config validated)
        ⊎ IsRefused (with_validated env files config validated)
  with_validated_cases (invalid problems) same = inr (
      inr (
        (problems, refl),
        λ runtime h. let other = (validate_config_iff env config runtime).1 h in cc,
      ))
  with_validated_cases (valid runtime) same =
      elim (with_token_cases runtime (read_token_file files config.agent.token_file)
        ((validate_config_iff env config runtime).0 same) refl) [
          | inl running ↦ inl running
          | inr tokenless ↦ inr (inl tokenless)
        ]

  -- With a next handler and a configuration, there are three ways. A configuration that stands for
  -- nothing is refused for its problems. An accepted one whose token file holds no token is refused for
  -- that: the file is not regular, open to others, of a wrong size or unreadable, or its trimmed content
  -- is not 32 to 1024 bytes on one line. In every other case the plugin starts, with that
  -- configuration, what it stands for, and the trimmed content of the token file as its token.
  pub new_middleware_cases :
      IsRunning (new_middleware env files true (some config))
      ⊎ IsTokenless (new_middleware env files true (some config))
      ⊎ IsRefused (new_middleware env files true (some config))
  unfolding new_middleware
  new_middleware_cases = with_validated_cases (validate_config env config) refl
