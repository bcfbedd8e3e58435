-- ===== src/Forwarding/Tests.antt =====
-- The theorems about the forwarded fields at concrete inputs.
use sokol_traefik_plugin.Prelude.{
  ◌≤◌, ◌≡◌, refl, false, [], ◌∷◌, none, length, any, all, take, bytes_beq, bytes_eq, pos,
}
use sokol_traefik_plugin.Prelude.GoMap.{lookup, insert, has}
use sokol_traefik_plugin.Text.{codes, contains_any, contains_byte, to_lower, join, format_uint}
use sokol_traefik_plugin.Text.Order.{sort_by, bytes_lt}
use sokol_traefik_plugin.Net.{Request, canonical_header_key, canonical_from, values}
use sokol_traefik_plugin.Forwarding.{
  ForwardingPolicy, add_header, add_cookie, add_each, new_forwarding_policy, take_within,
  take_field, take_header, take_headers, header_names, unconfigured, add_content_length,
  add_transfer_encoding, forwarded_headers, first_cookies, keep_present, keep_unlisted,
  cookie_names, cookie_value, take_cookie, take_cookies, forwarded_cookies, valid_header_name,
  valid_cookie_name, member,
}
use sokol_traefik_plugin.Forwarding.Bounds.{size, AllSound, forwarded_cookies-bounds}

program : Unit {0}
unfolding any all take bytes_beq lookup insert has contains_any contains_byte to_lower join
    format_uint sort_by bytes_lt canonical_header_key canonical_from values add_header add_cookie
    add_each new_forwarding_policy take_within take_field take_header take_headers header_names
    unconfigured add_content_length add_transfer_encoding forwarded_headers first_cookies
    keep_present keep_unlisted cookie_names cookie_value take_cookie take_cookies forwarded_cookies
    valid_header_name valid_cookie_name member
program = tt

abbrev request : Request
request = record {
  method = codes "POST";
  host = codes "h";
  path = codes "/";
  raw_query = [];
  remote_addr = codes "192.0.2.1:4711";
  proto = codes "HTTP/1.1";
  is_tls = false;
  header =
      (codes "User-Agent", codes "curl" ∷ [])
      ∷ (codes "Cookie", codes "b=2; a=1" ∷ [])
      ∷ (codes "Accept", codes "x" ∷ codes "y" ∷ [])
      ∷ [];
  cookies = (codes "b", codes "2") ∷ (codes "a", codes "1") ∷ [];
  content_length = pos 12;
  transfer_encoding = [];
  body = none;
}

abbrev policy : ForwardingPolicy
policy = new_forwarding_policy (record {
  header_mode = codes "all";
  headers = codes "user-agent" ∷ [];
  cookie_mode = codes "all";
  cookies = [];
})

-- All headers but the cookies, joined, with the content length; the cookies by name.
forwarded_headers_run : forwarded_headers policy request ≡ (
  (codes "user-agent", codes "curl")
      ∷ (codes "accept", codes "x, y")
      ∷ (codes "content-length", codes "12")
      ∷ [],
  false,
)
unfolding program
forwarded_headers_run = refl

forwarded_cookies_run :
    forwarded_cookies policy request ≡ ((codes "a", codes "1") ∷ (codes "b", codes "2") ∷ [], false)
unfolding program
forwarded_cookies_run = refl

forwarded_cookies-bounds_example :
    (length (forwarded_cookies policy request).0 ≤ 128)
    × (size (forwarded_cookies policy request).0 ≤ 65_536)
    × AllSound (forwarded_cookies policy request).0
forwarded_cookies-bounds_example = forwarded_cookies-bounds policy request
