-- ===== src/Start/Ready.antt =====
-- What holds of a plugin that `New` returns, and of every state it comes to.
use Prim.Native.Nat.{bit_and}
use sokol_traefik_plugin.Prelude.{
  ℕ, ◌≤◌, ◌≡◌, ◌↔◌, refl, sym, subst, Bool, true, false, [], ◌∷◌, Option, none, some, ◌==◌, nat_eq,
  bytes_eq, length, Option-cases, inl, inr, Bool-cases, arith,
}
use sokol_traefik_plugin.Text.{Bytes, codes, contains_any, trim_space}
use sokol_traefik_plugin.Transport.{AgentClient, new_agent_client}
use sokol_traefik_plugin.Config.{
  Config, ConfigEnv, RuntimeConfig, Validated, valid, invalid, non_negative,
}
use sokol_traefik_plugin.Config.Check.{validate_config}
use sokol_traefik_plugin.Config.Accepted.{validate_config_iff}
use sokol_traefik_plugin.Config.Meaning.{IsConfigured}
use sokol_traefik_plugin.Pages.{FileInfo}
use sokol_traefik_plugin.Middleware.{State}
use sokol_traefik_plugin.Middleware.Steps.{IsSettled}
use sokol_traefik_plugin.Middleware.Runs.{new_state, Reachable, Reachable-IsSettled}
use sokol_traefik_plugin.Start.{
  TokenResult, token, token_failed, TokenFiles, token_text, read_token_file, Plugin, started,
  serving_of, middleware_of, with_token, with_validated, new_middleware,
}

-- The states that the plugin comes to from its construction on.
abbrev pub Comes : Plugin → State → Type 0
Comes plugin st =
    Reachable plugin.serving (non_negative plugin.config.cache.maximum_entries)
      plugin.runtime.maximum_cache_ttl
      (non_negative plugin.config.circuit_breaker.failure_threshold) plugin.runtime.open_duration st

-- The text is the trimmed content of the file, which is regular, of 32 to 1025 bytes and closed to
-- others; and it has 32 to 1024 bytes on one line.
pub record IsSecret (files : TokenFiles) (path text : Bytes) : Type 0 where
  pub info : FileInfo
  pub described : files.stat path ≡ some info
  pub regular : info.is_regular ≡ true
  pub protected : bit_and info.permissions 7 ≡ 0
  pub file_large : 32 ≤ info.size
  pub file_small : info.size ≤ 1025
  pub content : Bytes
  pub in_file : files.read_file path ≡ some content
  pub trimmed : text ≡ trim_space content
  pub long_enough : 32 ≤ length text
  pub short_enough : length text ≤ 1024
  pub on_one_line : contains_any text (13 ∷ 10 ∷ []) ≡ false

token_text_iff :
    (read : Option Bytes) (text : Bytes)
    → (token_text read ≡ token text) ↔ (
        ((content : Bytes) × (read ≡ some content) × (text ≡ trim_space content))
        × (32 ≤ length text)
        × (length text ≤ 1024)
        × (contains_any text (13 ∷ 10 ∷ []) ≡ false))
token_text_iff none text = (λ h. cc, λ ((content, read, trimmed), long, short, line). cc)
token_text_iff (some content) text = (
  λ h. ((content, refl, ground arith), ground arith, ground arith, ground arith),
  λ ((content', read, trimmed), long, short, line). ground arith,
)

read_token_file-IsSecret :
    (files : TokenFiles) (path text : Bytes)
    → read_token_file files path ≡ token text
    → IsSecret files path text
unfolding read_token_file
read_token_file-IsSecret files path text h = elim (Option-cases (files.stat path)) [
  | inl bad ↦ absurd (ground arith)
  | inr (info, described) ↦
      let last : token_text (files.read_file path) ≡ token text = ground arith in
      let ((content, in_file, trimmed), long, short, line) =
        (token_text_iff (files.read_file path) text).0 last in
      record {
        info = info;
        described = described;
        regular = ground arith;
        protected = ground arith;
        file_large = ground arith;
        file_small = ground arith;
        content = content;
        in_file = in_file;
        trimmed = trimmed;
        long_enough = long;
        short_enough = short;
        on_one_line = line;
      }
]

pub IsSecret-read_token_file :
    (files : TokenFiles) (path text : Bytes)
    → IsSecret files path text
    → read_token_file files path ≡ token text
unfolding read_token_file
IsSecret-read_token_file files path text secret =
    let last : token_text (files.read_file path) ≡ token text =
      (token_text_iff (files.read_file path) text).1 (
        (secret.content, secret.in_file, secret.trimmed),
        secret.long_enough,
        secret.short_enough,
        secret.on_one_line,
      ) in
    ground (
      arith, last, secret.described, secret.regular, secret.protected, secret.file_large,
      secret.file_small,
    )

module _ (env : ConfigEnv) (files : TokenFiles) where
  abbrev pub IsStarted : Plugin → Type 0
  IsStarted plugin =
      IsConfigured env plugin.config plugin.runtime
      × IsSecret files plugin.config.agent.token_file plugin.agent.token
      × (plugin.agent.connect_timeout ≡ plugin.runtime.connect_timeout)
      × (plugin.agent.timeout ≡ plugin.runtime.request_timeout)
      × (plugin.agent.challenge_timeout ≡ plugin.runtime.challenge_timeout)
      × (plugin.serving ≡ serving_of plugin.config plugin.runtime)
      × (plugin.state
          ≡ new_state (non_negative plugin.config.cache.maximum_entries)
              plugin.runtime.maximum_cache_ttl
              (non_negative plugin.config.circuit_breaker.failure_threshold)
              plugin.runtime.open_duration)

  client_lem :
      (endpoint text : Bytes) (connect request challenge : ℕ) (client : AgentClient)
      → new_agent_client env.net endpoint text connect request challenge ≡ some client
      → (client.token ≡ text)
        × (client.connect_timeout ≡ connect)
        × (client.timeout ≡ request)
        × (client.challenge_timeout ≡ challenge)
  unfolding new_agent_client
  client_lem endpoint text connect request challenge client h =
      elim (Option-cases (env.net.parse_url endpoint)) [
        | inl bad ↦ absurd (ground arith)
        | inr (parsed, good) ↦ elim (Bool-cases (parsed.scheme == codes "unix")) [
          | inl socket ↦ ground arith
          | inr origin ↦ ground arith
        ]
      ]

  pub with_token-IsStarted :
      (config : Config) (runtime : RuntimeConfig) (read : TokenResult) (plugin : Plugin)
      → IsConfigured env config runtime
      → read_token_file files config.agent.token_file ≡ read
      → with_token env files config runtime read ≡ started plugin
      → IsStarted plugin
  unfolding middleware_of
  with_token-IsStarted config runtime (token_failed e) plugin configured got h = cc
  with_token-IsStarted config runtime (token text) plugin configured got h =
      elim (Option-cases (
        new_agent_client env.net config.agent.endpoint text runtime.connect_timeout
          runtime.request_timeout runtime.challenge_timeout)) [
            | inl bad ↦ absurd (ground arith)
            | inr (client, made) ↦
                let same : middleware_of config runtime client ≡ plugin = ground arith in
                let c =
                  client_lem config.agent.endpoint text runtime.connect_timeout
                    runtime.request_timeout runtime.challenge_timeout client made in
                subst IsStarted same (
                  configured,
                  subst (IsSecret files config.agent.token_file) (sym c.0)
                      (read_token_file-IsSecret files config.agent.token_file text got),
                  c.1,
                  c.2,
                  c.3,
                  refl,
                  refl,
                )
          ]

  with_validated-IsStarted :
      (config : Config) (validated : Validated) (plugin : Plugin)
      → validate_config env config ≡ validated
      → with_validated env files config validated ≡ started plugin
      → IsStarted plugin
  with_validated-IsStarted config (invalid problems) plugin same h = cc
  with_validated-IsStarted config (valid runtime) plugin same h =
      with_token-IsStarted config runtime (read_token_file files config.agent.token_file) plugin
        ((validate_config_iff env config runtime).0 same) refl h

  IsConfigured-settles :
      (plugin : Plugin) (st : State)
      → IsConfigured env plugin.config plugin.runtime
      → Comes plugin st
      → IsSettled st
  IsConfigured-settles plugin st
        (
          (connect, (request, (challenge, (first, (second', (reload, (ttl, opened))))))),
          (
            agent,
            (modes, (trusted, (body, (forward, (response, (entries, (threshold, limits))))))),
          ),
        )
        comes =
      let (n, is_n, low, high) = threshold in
      Reachable-IsSettled (ground arith) (omega (arith, opened.1)) comes

  -- A plugin that is constructed has an accepted configuration, with the timeouts that it stands for.
  -- Its token is the trimmed content of the token file, a regular file of 32 to 1025 bytes without
  -- access for others, and has 32 to 1024 bytes on one line. In whatever state the plugin comes to, by
  -- whatever requests, its cache and its circuit breaker are well formed and no request is left on
  -- trial.
  pub new_middleware-IsStarted :
      (has_next : Bool) (given : Option Config) (plugin : Plugin) (st : State)
      → new_middleware env files has_next given ≡ started plugin
      → Comes plugin st
      → IsStarted plugin × IsSettled st
  unfolding new_middleware
  new_middleware-IsStarted has_next none plugin st h comes = cc
  new_middleware-IsStarted has_next (some config) plugin st h comes =
      let started' =
        with_validated-IsStarted config (validate_config env config) plugin refl (ground arith) in
      (started', IsConfigured-settles plugin st started'.0 comes)
