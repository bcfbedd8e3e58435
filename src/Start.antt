-- ===== src/Start.antt =====
-- The construction of the plugin, plugin.go: `New`, with `readTokenFile`. The refresh of the provider
-- ranges, which it starts too, is in Providers.
pub mod Ready
pub mod Total
mod Tests
use Prim.Native.Nat.{bit_and}
use sokol_traefik_plugin.Prelude.{
  ℕ, Bool, true, false, not, ◌&&◌, ◌||◌, List, [], ◌∷◌, Option, none, some, ltb, ◌==◌, ◌!=◌, nat_eq,
  if◌then◌else◌, length,
}
use sokol_traefik_plugin.Text.{Bytes, contains_any, trim_space}
use sokol_traefik_plugin.Transport.{AgentClient, new_agent_client}
use sokol_traefik_plugin.Config.{
  Config, ConfigEnv, RuntimeConfig, Problem, Validated, valid, invalid, non_negative,
}
use sokol_traefik_plugin.Config.Check.{validate_config}
use sokol_traefik_plugin.Pages.{FileInfo, PageStore, new_page_store}
use sokol_traefik_plugin.Forwarding.{new_forwarding_policy}
use sokol_traefik_plugin.Cache.{new_decision_cache}
use sokol_traefik_plugin.Breaker.{new_circuit_breaker}
use sokol_traefik_plugin.Middleware.{State}
use sokol_traefik_plugin.Middleware

pub data TokenError : Type 0 where
  no_metadata : TokenError
  accessible : TokenError
  file_size : TokenError
  unreadable : TokenError
  token_invalid : TokenError

pub data TokenResult : Type 0 where
  token : Bytes → TokenResult
  token_failed : TokenError → TokenResult

-- os.Stat and os.ReadFile.
pub record TokenFiles : Type 0 where
  pub stat : Bytes → Option FileInfo
  pub read_file : Bytes → Option Bytes

abbrev pub checked_token : Bytes → TokenResult
checked_token text =
    if ltb (length text) 32 || ltb 1024 (length text) || contains_any text (13 ∷ 10 ∷ [])
    then token_failed token_invalid
    else token text

abbrev pub token_text : Option Bytes → TokenResult
token_text none = token_failed unreadable
token_text (some data') = checked_token (trim_space data')

unfoldable pub read_token_file : TokenFiles → Bytes → TokenResult
read_token_file files path = elim (files.stat path) [
  | none ↦ token_failed no_metadata
  | some info ↦
      if not info.is_regular || bit_and info.permissions 7 != 0
      then token_failed accessible
      else if ltb info.size 32 || ltb 1025 info.size
      then token_failed file_size
      else token_text (files.read_file path)
]

pub data StartError : Type 0 where
  no_next : StartError
  no_config : StartError
  config_rejected : List Problem → StartError
  token_rejected : TokenError → StartError
  endpoint_unparsed : StartError

-- `Middleware`: what serves the requests and what is kept between them.
pub record Plugin : Type 0 where
  pub config : Config
  pub runtime : RuntimeConfig
  pub agent : AgentClient
  pub pages : PageStore
  pub serving : Middleware.Config
  pub state : State

pub data Started : Type 0 where
  started : Plugin → Started
  not_started : StartError → Started

-- What `ServeHTTP` reads of the configuration and of the runtime.
unfoldable pub serving_of : Config → RuntimeConfig → Middleware.Config
serving_of config runtime = record {
  failure_mode = config.failure_mode;
  client_ip = config.client_ip;
  request_body = record {
    enabled = config.request_body.enabled;
    maximum_bytes = non_negative config.request_body.maximum_bytes;
    oversize_action = config.request_body.oversize_action;
    content_types = config.request_body.content_types;
    bypass_path_prefixes = config.request_body.bypass_path_prefixes;
  };
  challenge_path_prefix = config.challenge.path_prefix;
  resource_hint = config.resource_hint;
  trusted = runtime.trusted;
  forwarding = new_forwarding_policy config.request;
}

unfoldable pub middleware_of : Config → RuntimeConfig → AgentClient → Plugin
middleware_of config runtime client = record {
  config = config;
  runtime = runtime;
  agent = client;
  pages = new_page_store config.responses runtime.response_root runtime.reload_interval;
  serving = serving_of config runtime;
  state = record {
    cache =
        new_decision_cache (non_negative config.cache.maximum_entries) runtime.maximum_cache_ttl;
    breaker =
        new_circuit_breaker (non_negative config.circuit_breaker.failure_threshold)
          runtime.open_duration;
    client_ip_log_at = 0;
  };
}

module _ (env : ConfigEnv) (files : TokenFiles) where
  abbrev pub with_token : Config → RuntimeConfig → TokenResult → Started
  with_token config runtime (token_failed e) = not_started (token_rejected e)
  with_token config runtime (token text) =
      elim (new_agent_client env.net config.agent.endpoint text runtime.connect_timeout
        runtime.request_timeout runtime.challenge_timeout) [
          | none ↦ not_started endpoint_unparsed
          | some client ↦ started (middleware_of config runtime client)
        ]

  abbrev pub with_validated : Config → Validated → Started
  with_validated config (invalid problems) = not_started (config_rejected problems)
  with_validated config (valid runtime) =
      with_token config runtime (read_token_file files config.agent.token_file)

  unfoldable pub new_middleware : Bool → Option Config → Started
  new_middleware has_next none = not_started (if has_next then no_config else no_next)
  new_middleware has_next (some config) =
      if has_next then with_validated config (validate_config env config) else not_started no_next
