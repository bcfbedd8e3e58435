-- ===== src/Pages/Tests.antt =====
-- The pages and their responses at concrete files and requests.
use sokol_traefik_plugin.Prelude.{
  ◌≡◌, refl, true, false, [], ◌∷◌, none, some, ◌==◌, bytes_eq, bytes_beq, if◌then◌else◌, length,
  take, drop, any, all, pos, negsuc, ℤ, ltb_ℤ, arith,
}
use sokol_traefik_plugin.Prelude.GoMap.{lookup, insert}
use sokol_traefik_plugin.Text.{
  Bytes, codes, contains_byte, contains_any, has_prefix, split, split_from, cut, cut_from, to_lower,
  trim_space, trim_by, trim_left, trim, format_uint, digits_from,
}
use sokol_traefik_plugin.Wire.{EvaluationResponse, no_response}
use sokol_traefik_plugin.Net.{
  Header, Request, canonical_header_key, canonical_from, values, header_get, first_of_values,
}
use sokol_traefik_plugin.Paths.{stays_inside, path_within, validate_relative_page_path}
use sokol_traefik_plugin.Config.{ResponsesConfig}
use sokol_traefik_plugin.Config.Defaults.{create_config}
use sokol_traefik_plugin.Config.Tests.{paths}
use sokol_traefik_plugin.Pages.{
  Files, PageStore, new_page_store, page_file, fallback_for, resolve_page, read_page, load, reload,
  page,
}
use sokol_traefik_plugin.Pages.Fallback.{fallback_page}
use sokol_traefik_plugin.Pages.Recent.{Call, run}
use sokol_traefik_plugin.Pages.Served.{IsServed, page-run-IsServed}
use sokol_traefik_plugin.Pages.Media.{
  Floats, matches_parts, matches_media, item_quality, offered, scan_items, media_quality,
  prefers_json,
}
use sokol_traefik_plugin.Pages.Fill.{replace_from, replace_all, html_escape, fill, count}
use sokol_traefik_plugin.Pages.Write.{
  html_body, WriteEnv, header_set, header_add, set_enforcement_headers, enforcement_status,
  set_retry_after, random_nonce, challenge_create_url, replacements, write,
}
use sokol_traefik_plugin.Pages.Cors.{IsAllowed}
use sokol_traefik_plugin.Pages.Headers.{IsPrivate}
use sokol_traefik_plugin.Pages.Written.{IsErrorStatus, KeepsMarkup, write-IsGuarded}

program : Unit {0}
unfolding bytes_beq take drop any all lookup insert contains_byte contains_any has_prefix split
    split_from cut cut_from to_lower trim_space trim_by trim_left trim format_uint digits_from
    canonical_header_key canonical_from values header_get first_of_values stays_inside path_within
    validate_relative_page_path new_page_store page_file fallback_for resolve_page read_page load
    reload page run matches_parts matches_media item_quality offered scan_items media_quality
    prefers_json replace_from replace_all html_escape fill count header_set header_add
    set_enforcement_headers enforcement_status set_retry_after random_nonce challenge_create_url
    replacements write
program = tt

abbrev config : ResponsesConfig
config = create_config.responses

abbrev template : Bytes
template = codes "<p title=\"{{SOKOL_PATH}}\">{{SOKOL_REQUEST_ID}}</p>"

-- One file under every name, and none at all.
abbrev some_file : Files
some_file = record {
  paths = paths;
  eval_symlinks = λ s. some s;
  open_file = λ s. some (record {
    stat = some (record { is_regular = true; permissions = 420; size = length template });
    read_limited = λ limit. some template;
  });
  valid_utf8 = λ s. true;
}

abbrev no_file : Files
no_file = record {
  paths = paths;
  eval_symlinks = λ s. none;
  open_file = λ s. none;
  valid_utf8 = λ s. true;
}

abbrev page_store : PageStore
page_store = new_page_store config (codes "/etc/traefik/sokol") 30

abbrev first_call : Call
first_call = record { files = some_file; decision = codes "block"; now = 5 }

abbrev second_call : Call
second_call = record { files = no_file; decision = codes "block"; now = 34 }

abbrev third_call : Call
third_call = record { files = no_file; decision = codes "block"; now = 35 }

-- The page is kept for its interval, and then the file is gone.
kept_run :
    ((page no_file (run page_store (first_call ∷ [])) (codes "block") 34).1 ≡ template)
    × ((page no_file (run page_store (first_call ∷ [])) (codes "block") 35).1 ≡ fallback_page)
unfolding program
kept_run = (refl, refl)

page-run-IsServed_example :
    IsServed config
      (codes "/etc/traefik/sokol")
      30
      second_call
      (page no_file (run page_store (first_call ∷ [])) (codes "block") 34).1
      (second_call ∷ first_call ∷ [])
page-run-IsServed_example =
    page-run-IsServed config (codes "/etc/traefik/sokol") 30 (first_call ∷ []) second_call
      (omega arith)

-- Thousandths.
abbrev floats : Floats ℤ
floats = record {
  minus_one = negsuc 999;
  zero = pos 0;
  one = pos 1000;
  less = ltb_ℤ;
  parse_float = λ s.
      if s == codes "0.5" then some (pos 500) else if s == codes "0" then some (pos 0) else none;
}

abbrev env : WriteEnv ℤ
env = record {
  files = some_file;
  floats = floats;
  parse_url = λ s. none;
  query_escape = λ s. s;
  escaped_path = λ request. request.path;
  random_bytes = some (codes "abc");
  base64 = λ s. s;
  now = 5;
  timestamp = codes "2026-01-01T00:00:00Z";
  timestamp_nano = [];
  shuffle = λ entries. entries;
}

-- A path that tries to leave its attribute.
abbrev request : Request
request = record {
  method = codes "GET";
  host = codes "example.org";
  path = codes "/\"><b";
  raw_query = [];
  remote_addr = [];
  proto = codes "HTTP/1.1";
  is_tls = true;
  header = (codes "Accept", codes "application/json;q=0.5, text/html" ∷ []) ∷ [];
  cookies = [];
  content_length = pos 0;
  transfer_encoding = [];
  body = none;
}

abbrev blocked : EvaluationResponse
blocked = record no_response {
  decision = codes "block";
  status = pos 403;
  request_id = codes "r<1";
}

write_run :
    (write env page_store [] request blocked).1.body
    ≡ html_body (codes "<p title=\"/&#34;&gt;&lt;b\">r&lt;1</p>")
unfolding program
write_run = refl

-- Over the headers that someone else set.
abbrev cached : Header
cached = (codes "Cache-Control", codes "max-age=60" ∷ []) ∷ []

write-IsGuarded_example :
    IsErrorStatus (write env page_store cached request blocked).1.status
    × IsPrivate (write env page_store cached request blocked).1.header
    × IsAllowed env cached
        (header_get request.header (codes "Origin"))
        (write env page_store cached request blocked).1.header
    × KeepsMarkup
        (write env page_store cached request blocked).1.body
        (page some_file page_store (codes "block") 5).1
write-IsGuarded_example = write-IsGuarded env page_store cached request blocked (λ P entries h. h)

-- Of equal qualities, the one that stands first_call is preferred.
prefers_run :
    (prefers_json floats (codes "application/json, text/html") (codes "html") ≡ true)
    × (prefers_json floats (codes "text/*;q=0.5, application/json;q=x") (codes "json") ≡ false)
    × (prefers_json floats [] (codes "json") ≡ true)
unfolding program
prefers_run = (refl, refl, refl)

-- A page is HTML although the client takes everything but that.
excluded_run : prefers_json floats (codes "text/html;q=0, */*") (codes "html") ≡ false
unfolding program
excluded_run = refl
