-- ===== src/Config/Tests.antt =====
-- The default configuration, validated in concrete surroundings.
use sokol_traefik_plugin.Prelude.{
  ◌+◌, ◌≡◌, ◌↔◌, refl, false, [], ◌∷◌, ◌++◌, Option, none, some, ◌==◌, bytes_eq, bytes_beq, nat_eq,
  if◌then◌else◌, length, take, drop, any, all, pos, ℤ,
}
use sokol_traefik_plugin.Text.{
  Bytes, codes, contains_byte, contains_any, has_prefix, has_suffix, split, split_from, to_lower,
  trim_space, trim_by, trim_left, trim, trim_last,
}
use sokol_traefik_plugin.Net.{to4, ip_equal}
use sokol_traefik_plugin.Net.Kinds.{is_loopback, is_private, is_link_local_unicast}
use sokol_traefik_plugin.Paths.{Paths, stays_inside, path_within, validate_relative_page_path}
use sokol_traefik_plugin.Transport.{local_agent_ip, check_host, check_url, validate_agent_endpoint}
use sokol_traefik_plugin.Forwarding.{valid_header_name, valid_cookie_name}
use sokol_traefik_plugin.Config.{
  ConfigEnv, RuntimeConfig, valid, invalid, bounded_duration, valid_media_parts,
  valid_content_type_pattern, valid_path_prefix, cookie_request_header, each,
  connect_exceeds_request, block_outside,
}
use sokol_traefik_plugin.Config.Check.{
  parse_networks, mode_problems, body_problems, request_problems, limit_problems, response_root_of,
  root_problem, runtime_of, timeout_problems, agent_problems, trusted_problems, response_problems,
  problems, validate_config,
}
use sokol_traefik_plugin.Config.Accepted.{validate_config_iff}
use sokol_traefik_plugin.Config.Meaning.{IsConfigured}
use sokol_traefik_plugin.Config.Defaults.{create_config}

unfoldable pub program : Unit {0}
unfolding bytes_beq take drop any all contains_byte contains_any has_prefix has_suffix split
    split_from to_lower trim_space trim_by trim_left trim trim_last to4 ip_equal is_loopback
    is_private is_link_local_unicast stays_inside path_within validate_relative_page_path
    local_agent_ip check_host check_url validate_agent_endpoint valid_header_name valid_cookie_name
    bounded_duration valid_media_parts valid_content_type_pattern valid_path_prefix
    cookie_request_header each parse_networks mode_problems body_problems request_problems
    limit_problems response_root_of root_problem runtime_of timeout_problems agent_problems
    trusted_problems response_problems problems validate_config
program = tt

abbrev pub milliseconds : Bytes → Option ℤ
milliseconds text =
    if text == codes "100ms"
    then some (pos 100_000_000)
    else if text == codes "500ms"
    then some (pos 500_000_000)
    else if text == codes "1s"
    then some (pos 1_000_000_000)
    else if text == codes "2s"
    then some (pos 2_000_000_000)
    else if text == codes "5s"
    then some (pos 5_000_000_000)
    else if text == codes "30s"
    then some (pos 30_000_000_000)
    else none

-- Paths without dots.
abbrev pub paths : Paths
paths = record {
  is_abs = λ s. has_prefix s (codes "/");
  clean = λ s. s;
  abs = λ s. some s;
  join = λ root name. root ++ (codes "/" ++ name);
  rel = λ root candidate. some (drop (length root + 1) candidate);
}

abbrev pub env : ConfigEnv
env = record {
  net = record {
    parse_url = λ s. some (record {
      scheme = codes "http";
      has_user = false;
      host = codes "sokol-edge-agent:8080";
      path = [];
      raw_query = [];
      fragment = [];
    });
    hostname = λ u. codes "sokol-edge-agent";
    paths = paths;
    parse_ip = λ s. none;
    split_address = λ s. none;
    lookup_ip = λ now s. (none, now);
    dial = λ now ip port. (false, now);
  };
  parse_duration = milliseconds;
  parse_cidr = λ s. none;
}

abbrev pub runtime : RuntimeConfig
runtime = record {
  connect_timeout = 100_000_000;
  request_timeout = 500_000_000;
  challenge_timeout = 2_000_000_000;
  reload_interval = 30_000_000_000;
  maximum_cache_ttl = 1_000_000_000;
  open_duration = 5_000_000_000;
  trusted = [];
  response_root = codes "/etc/traefik/sokol";
}

pub default_run : validate_config env create_config ≡ valid runtime
unfolding program
default_run = refl

-- Two faults: a connect timeout above the request timeout, and a page outside the root.
faulty_run :
    validate_config env (record create_config {
      agent = record create_config.agent { connect_timeout = codes "1s" };
      responses = record create_config.responses { block_file = codes "../block.html" };
    })
    ≡ invalid (connect_exceeds_request ∷ block_outside ∷ [])
unfolding program
faulty_run = refl

validate_config_iff_example :
    (validate_config env create_config ≡ valid runtime) ↔ IsConfigured env create_config runtime
validate_config_iff_example = validate_config_iff env create_config runtime
