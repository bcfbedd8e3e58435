-- ===== src/Challenge/Tests.antt =====
-- The theorem about the trust cookie at a concrete submission.
use sokol_traefik_plugin.Prelude.{
  ◌≡◌, refl, true, false, [], ◌∷◌, none, some, length, any, all, take, bytes_beq, pos,
}
use sokol_traefik_plugin.Prelude.GoMap.{lookup}
use sokol_traefik_plugin.Text.{
  codes, contains_byte, contains_any, has_prefix, to_lower, trim_space, equal_fold,
}
use sokol_traefik_plugin.Net.{
  Ip, Request, header_get, values, first_of_values, canonical_header_key, canonical_from,
}
use sokol_traefik_plugin.Inbound.{request_scheme}
use sokol_traefik_plugin.Agent.{reply, valid_public_reason}
use sokol_traefik_plugin.Challenge.{
  BrowserVerifyRequest, decoded, Cookie, ChallengeEnv, challenge_request, read_challenge,
  check_verified, agent_challenge_verify, valid_challenge_fields, conclude_verify,
  same_origin_submission, verify_submission, challenge_verify, bounded_user_agent,
}
use sokol_traefik_plugin.Challenge.Granted.{IsGranted, challenge_verify-IsGranted}

program : Unit {0}
unfolding any all take bytes_beq lookup contains_byte contains_any has_prefix to_lower trim_space
    equal_fold header_get values first_of_values canonical_header_key canonical_from request_scheme
    valid_public_reason challenge_request read_challenge check_verified agent_challenge_verify
    valid_challenge_fields conclude_verify same_origin_submission verify_submission challenge_verify
    bounded_user_agent
program = tt

abbrev client : Ip
client = 192 ∷ 0 ∷ 2 ∷ 7 ∷ []

abbrev input : BrowserVerifyRequest
input = record {
  challenge_token = codes "0123456789abcdef0123456789abcdef";
  resource_id = codes "r";
  site_id = codes "s";
  path = codes "/";
  payload = codes "{}";
}

abbrev env : ChallengeEnv
env = record {
  resolver = record { parse_ip = λ s. some client; split_host_port = λ s. none };
  ip_string = λ ip. codes "192.0.2.7";
  parse_url = λ s. some (record {
    scheme = codes "https";
    has_user = false;
    host = codes "h";
    path = [];
    raw_query = [];
    fragment = [];
  });
  query_value = λ query name. [];
  read_submission = λ n body. decoded input true;
  create_json = record { decode = λ s. none; taken = λ s. length s; at_end = λ s. true };
  create_send = λ r. reply 503 [] [];
  verify_json = record {
    decode = λ s. some (record {
      verified = true;
      public_reason = codes "ok";
      cookie_name = codes "__Host-sokol_trust";
      cookie_value = codes "v";
      cookie_max_age = pos 3600;
    });
    taken = λ s. length s;
    at_end = λ s. true;
  };
  verify_send = λ r. reply 200 (codes "application/json") (codes "x");
}

abbrev request : Request
request = record {
  method = codes "POST";
  host = codes "h";
  path = codes "/.sokol/challenge/verify";
  raw_query = [];
  remote_addr = codes "v";
  proto = codes "HTTP/1.1";
  is_tls = true;
  header = (codes "Origin", codes "https://h" ∷ []) ∷ [];
  cookies = [];
  content_length = pos 2;
  transfer_encoding = [];
  body = none;
}

abbrev cookie : Cookie
cookie = record { name = codes "__Host-sokol_trust"; value = codes "v"; max_age = pos 3600 }

challenge_verify_run : (challenge_verify env [] 65_536 request client).cookie ≡ some cookie
unfolding program
challenge_verify_run = refl

challenge_verify-IsGranted_example : IsGranted env [] 65_536 request client cookie
challenge_verify-IsGranted_example =
    challenge_verify-IsGranted env [] 65_536 request client cookie challenge_verify_run
