-- ===== src/Config/Defaults.antt =====
-- The configuration that Traefik starts from, plugin.go: `CreateConfig`, with the names of
-- forwarding.go that it takes.
use sokol_traefik_plugin.Prelude.{false, List, [], ◌∷◌, pos}
use sokol_traefik_plugin.Text.{Bytes, codes}
use sokol_traefik_plugin.Config.{Config}

abbrev pub default_trust_cookie_name : Bytes
default_trust_cookie_name = codes "__Host-sokol_trust"

abbrev pub legacy_default_headers : List Bytes
legacy_default_headers =
    codes "Accept"
    ∷ codes "Content-Type"
    ∷ codes "User-Agent"
    ∷ codes "Origin"
    ∷ codes "Sec-Fetch-Dest"
    ∷ codes "Sec-Fetch-Mode"
    ∷ codes "Sec-Fetch-Site"
    ∷ codes "Upgrade"
    ∷ codes "Connection"
    ∷ codes "Sec-WebSocket-Protocol"
    ∷ codes "Sec-WebSocket-Version"
    ∷ []

abbrev pub create_config : Config
create_config = record {
  agent = record {
    endpoint = codes "http://sokol-edge-agent:8080";
    token_file = codes "/run/secrets/sokol-plugin-token";
    connect_timeout = codes "100ms";
    request_timeout = codes "500ms";
  };
  failure_mode = record {
    agent_unavailable_mode = codes "allow";
    malformed_response_mode = codes "allow";
    explicit_local_deny = codes "deny";
  };
  client_ip = record {
    strategy = codes "forwarded";
    cloudflare_header = codes "CF-Connecting-IP";
    bunny_header = codes "X-Real-IP";
  };
  trusted_proxies = [];
  request_body = record {
    enabled = false;
    maximum_bytes = pos 1_048_576;
    oversize_action = codes "headers_only";
    content_types =
        codes "application/json"
        ∷ codes "application/x-www-form-urlencoded"
        ∷ codes "application/xml"
        ∷ codes "text/xml"
        ∷ [];
    bypass_path_prefixes = [];
  };
  request = record {
    header_mode = codes "all";
    headers = legacy_default_headers;
    cookie_mode = codes "all";
    cookies = default_trust_cookie_name ∷ [];
  };
  responses = record {
    root = codes "/etc/traefik/sokol";
    block_file = codes "block.html";
    challenge_file = codes "challenge.html";
    rate_limit_file = codes "rate-limit.html";
    unavailable_file = codes "unavailable.html";
    maximum_file_bytes = pos 524_288;
    reload_interval = codes "30s";
    default_format = codes "html";
    allow_symlinks = false;
  };
  cache = record { maximum_entries = pos 4096; maximum_ttl = codes "1s" };
  circuit_breaker = record { failure_threshold = pos 3; open_duration = codes "5s" };
  challenge = record {
    path_prefix = codes "/.sokol";
    maximum_body_bytes = pos 65_536;
    request_timeout = codes "2s";
  };
  resource_hint = [];
}
