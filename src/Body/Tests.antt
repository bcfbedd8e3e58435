-- ===== src/Body/Tests.antt =====
-- The theorems about the body capture at concrete inputs.
use sokol_traefik_plugin.Prelude.{
  ◌≡◌, refl, true, false, [], ◌∷◌, Option, some, ltb, leb, length, any, if◌then◌else◌, pos,
  bytes_beq,
}
use sokol_traefik_plugin.Prelude.GoMap.{lookup}
use sokol_traefik_plugin.Text.{
  Bytes, codes, has_prefix, has_suffix, trim_last, trim_space, to_lower,
}
use sokol_traefik_plugin.Net.{BodyStream, Request, header_get}
use sokol_traefik_plugin.Body.{
  RequestBodyConfig, captures, capture_request_body, body_content_type_allowed, media_type_allowed,
  bypass_body_path,
}
use sokol_traefik_plugin.Body.Replay.{capture_request_body_left, capture_request_body_whole}

abbrev stream : BodyStream
stream = record { bytes = codes "hello"; broken = false }

abbrev request : Request
request = record {
  method = codes "POST";
  host = codes "h";
  path = codes "/form";
  raw_query = [];
  remote_addr = codes "192.0.2.1:4711";
  proto = codes "HTTP/1.1";
  is_tls = false;
  header = (codes "Content-Type", codes "text/plain" ∷ []) ∷ [];
  cookies = [];
  content_length = pos 5;
  transfer_encoding = [];
  body = some stream;
}

abbrev config : RequestBodyConfig
config = record {
  enabled = true;
  maximum_bytes = 4;
  oversize_action = codes "reject";
  content_types = codes "text/*" ∷ [];
  bypass_path_prefixes = codes "/upload" ∷ [];
}

abbrev parse : Bytes → Option Bytes
parse s = some s

capture_request_body_left_example :
    (capture_request_body parse request config (codes "http")).left ≡ some stream
capture_request_body_left_example = capture_request_body_left parse request config (codes "http")

captured : captures parse request config (codes "http") ≡ true
unfolding captures body_content_type_allowed media_type_allowed bypass_body_path has_prefix
    has_suffix trim_last trim_space to_lower any bytes_beq lookup header_get
captured = refl

-- Five bytes, where four are allowed.
capture_request_body_whole_example :
    ((capture_request_body parse request config (codes "http")).body
      ≡ (if leb (length stream.bytes) 4 then stream.bytes else []))
    × ((capture_request_body parse request config (codes "http")).oversized
        ≡ ltb 4 (length stream.bytes))
    × ((capture_request_body parse request config (codes "http")).failed ≡ false)
capture_request_body_whole_example =
    capture_request_body_whole parse request config (codes "http") stream refl refl captured
