-- ===== src/Start/Tests.antt =====
-- A plugin constructed from the default configuration.
use sokol_traefik_plugin.Prelude.{◌≡◌, ◌⊎◌, refl, true, [], ◌∷◌, ◌++◌, none, some}
use sokol_traefik_plugin.Text.{Bytes, codes}
use sokol_traefik_plugin.Transport.{AgentClient, new_agent_client}
use sokol_traefik_plugin.Config.Defaults.{create_config}
use sokol_traefik_plugin.Config.Tests.{program, env, runtime}
use sokol_traefik_plugin.Middleware.Steps.{IsSettled}
use sokol_traefik_plugin.Middleware.Runs.{start}
use sokol_traefik_plugin.Start.{
  TokenFiles, Plugin, started, not_started, token_rejected, accessible, middleware_of,
  read_token_file, new_middleware,
}
use sokol_traefik_plugin.Start.Total.{IsRunning, IsTokenless, IsRefused, new_middleware_cases}
use sokol_traefik_plugin.Start.Ready.{IsStarted, new_middleware-IsStarted}

abbrev secret : Bytes
secret = codes "0123456789abcdef0123456789abcdef"

-- The token with a newline after it, for the owner and the group.
abbrev files : TokenFiles
files = record {
  stat = λ path. some (record { is_regular = true; permissions = 416; size = 33 });
  read_file = λ path. some (secret ++ (10 ∷ []));
}

abbrev client : AgentClient
client = record {
  socket = none;
  evaluate_url = codes "http://sokol-edge-agent:8080/v1/evaluate";
  challenge_create_url = codes "http://sokol-edge-agent:8080/v1/challenge/create";
  challenge_verify_url = codes "http://sokol-edge-agent:8080/v1/challenge/verify";
  token = secret;
  connect_timeout = 100_000_000;
  timeout = 500_000_000;
  challenge_timeout = 2_000_000_000;
}

unfoldable plugin : Plugin
plugin = middleware_of create_config runtime client

start_run : new_middleware env files true (some create_config) ≡ started plugin
unfolding program new_middleware read_token_file new_agent_client plugin
start_run = refl

-- The same file, readable by everyone.
accessible_run :
    new_middleware env
      (record {
        stat = λ path. some (record { is_regular = true; permissions = 420; size = 33 });
        read_file = files.read_file;
      })
      true
      (some create_config)
    ≡ not_started (token_rejected accessible)
unfolding program new_middleware read_token_file
accessible_run = refl

new_middleware-IsStarted_example : IsStarted env files plugin × IsSettled plugin.state
unfolding plugin middleware_of
new_middleware-IsStarted_example =
    new_middleware-IsStarted env files true (some create_config) plugin plugin.state start_run start

new_middleware_cases_example :
    IsRunning env files create_config (new_middleware env files true (some create_config))
    ⊎ IsTokenless env files create_config (new_middleware env files true (some create_config))
    ⊎ IsRefused env files create_config (new_middleware env files true (some create_config))
new_middleware_cases_example = new_middleware_cases env files create_config
