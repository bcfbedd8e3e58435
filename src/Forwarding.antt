-- ===== src/Forwarding.antt =====
-- The headers and cookies that are described to the Agent, forwarding.go: `forwardingPolicy`,
-- `forwardedHeaders` and `forwardedCookies`. A set of names is the list of its members.
pub mod Bounds
pub mod Complete
pub mod Origin
pub mod Present
mod Tests
use sokol_traefik_plugin.Prelude.{
  ℕ, ◌+◌, Bool, true, false, not, ◌&&◌, ◌||◌, List, [], ◌∷◌, ◌++◌, map, Option, none, some, ltb,
  leb, ◌==◌, ◌!=◌, bytes_eq, if◌then◌else◌, length, take, any, all, ℤ, pos, negsuc,
}
use sokol_traefik_plugin.Prelude.GoMap.{lookup, insert, has}
use sokol_traefik_plugin.Text.{
  Bytes, codes, contains_any, contains_byte, to_lower, join, format_uint,
}
use sokol_traefik_plugin.Text.Order.{sort_by}
use sokol_traefik_plugin.Net.{Header, Request, canonical_header_key, token_bytes, values}

abbrev pub maximum_forwarded_value_bytes : ℕ
maximum_forwarded_value_bytes = 4096

abbrev pub maximum_forwarded_name_bytes : ℕ
maximum_forwarded_name_bytes = 128

-- `maximumForwardedHeaders` and `maximumForwardedCookies`
abbrev pub maximum_forwarded_fields : ℕ
maximum_forwarded_fields = 128

-- `maximumForwardedHeaderBytes` and `maximumForwardedCookieBytes`
abbrev pub maximum_forwarded_bytes : ℕ
maximum_forwarded_bytes = 65_536

pub record RequestConfig : Type 0 where
  pub header_mode : Bytes
  pub headers : List Bytes
  pub cookie_mode : Bytes
  pub cookies : List Bytes

pub record ForwardingPolicy : Type 0 where
  pub all_headers : Bool
  pub all_cookies : Bool
  pub headers : List Bytes
  pub cookies : List Bytes
  pub header_set : List Bytes
  pub cookie_set : List Bytes
  pub allowlisted_headers : List Bytes
  pub allowlisted_cookies : List Bytes

unfoldable pub member : Bytes → List Bytes → Bool
unfolding any
member name names = any (λ n. n == name) names

unfoldable pub add_header : ForwardingPolicy → Bytes → ForwardingPolicy
unfolding member
add_header policy header =
    let canonical = canonical_header_key header in
    if member canonical policy.header_set then policy else record policy {
      header_set = canonical ∷ policy.header_set;
      headers = policy.headers ++ canonical ∷ [];
      allowlisted_headers =
          if policy.all_headers
          then policy.allowlisted_headers ++ to_lower canonical ∷ []
          else policy.allowlisted_headers;
    }

unfoldable pub add_cookie : ForwardingPolicy → Bytes → ForwardingPolicy
unfolding member
add_cookie policy cookie = if member cookie policy.cookie_set then policy else record policy {
  cookie_set = cookie ∷ policy.cookie_set;
  cookies = policy.cookies ++ cookie ∷ [];
  allowlisted_cookies =
      if policy.all_cookies
      then policy.allowlisted_cookies ++ cookie ∷ []
      else policy.allowlisted_cookies;
}

unfoldable pub add_each :
    (ForwardingPolicy → Bytes → ForwardingPolicy) → ForwardingPolicy → List Bytes → ForwardingPolicy
add_each add policy [] = policy
add_each add policy (name ∷ names) = add_each add (add policy name) names

unfoldable pub new_forwarding_policy : RequestConfig → ForwardingPolicy
unfolding add_each add_header add_cookie
new_forwarding_policy config =
    let policy : ForwardingPolicy = record {
      all_headers = config.header_mode == codes "all";
      all_cookies = config.cookie_mode == codes "all";
      headers = [];
      cookies = [];
      header_set = [];
      cookie_set = [];
      allowlisted_headers = [];
      allowlisted_cookies = [];
    } in
    add_each add_cookie (add_each add_header policy config.headers) config.cookies

-- The variables of the two loops: the fields taken so far, their bytes, and the flag.
pub record Taken : Type 0 where
  pub result : List (Bytes × Bytes)
  pub total : ℕ
  pub truncated : Bool

abbrev pub nothing_taken : Bool → Taken
nothing_taken truncated = record { result = []; total = 0; truncated = truncated }

abbrev pub flag : Taken → Taken
flag t = record t { truncated = true }

-- validHeaderName of plugin.go
unfoldable pub valid_header_name : Bytes → Bool
unfolding all contains_byte
valid_header_name value =
    if value == [] then false else all (λ c. contains_byte token_bytes c) value

unfoldable pub valid_cookie_name : Bytes → Bool
valid_cookie_name value = valid_header_name value && leb (length value) 128

-- NUL, CR and LF
abbrev pub line_breaks : Bytes
line_breaks = 0 ∷ 13 ∷ 10 ∷ []

-- The bounds on the fields that both loops end with, for a value already cut.
unfoldable pub take_within : Bytes → Bytes → Taken → Taken
unfolding insert
take_within name value t =
    if leb maximum_forwarded_fields (length t.result)
      || ltb maximum_forwarded_bytes (t.total + length name + length value)
    then flag t
    else record t {
      total = t.total + (length name + length value);
      result = insert name value t.result;
    }

-- A value that is too long is cut, and the flag set.
unfoldable pub take_field : Bytes → Bytes → Taken → Taken
take_field name value t =
    if ltb maximum_forwarded_value_bytes (length value)
    then take_within name (take maximum_forwarded_value_bytes value) (flag t)
    else take_within name value t

-- One round of the loop over the header names.
unfoldable pub take_header : Header → Bytes → Taken → Taken
take_header header name t =
    let vs = values header name in
    let key = to_lower name in
    let value = join vs (codes ", ") in
    elim vs [
      | [] ↦ t
      | _ ∷ _ ↦
          if key == codes "cookie"
          then t
          else if has key t.result
          then t
          else if ltb maximum_forwarded_name_bytes (length key) || not (valid_header_name key)
          then flag t
          else if contains_any value line_breaks
          then flag t
          else take_field key value t
    ]

unfoldable pub take_headers : Header → List Bytes → Taken → Taken
take_headers header [] t = t
take_headers header (name ∷ names) t = take_headers header names (take_header header name t)

-- The names of the request's headers that are not configured.
unfoldable pub unconfigured : List Bytes → List Bytes → List Bytes
unconfigured configured [] = []
unconfigured configured (name ∷ names) =
    let rest = unconfigured configured names in
    if member (canonical_header_key name) configured then rest else name ∷ rest

unfoldable pub header_names : ForwardingPolicy → Request → List Bytes
unfolding unconfigured sort_by to_lower
header_names p request =
    if p.all_headers
    then p.headers ++ sort_by to_lower (unconfigured p.header_set (map (λ h. h.0) request.header))
    else p.headers

-- The two fields that Go keeps outside the header map.
unfoldable pub add_content_length : Request → List (Bytes × Bytes) → List (Bytes × Bytes)
unfolding insert format_uint
add_content_length request result = elim (request.content_length) [
  | negsuc n ↦ result
  | pos n ↦
      if request.method != codes "GET" && request.method != codes "HEAD"
      then insert (codes "content-length") (format_uint n) result
      else result
]

unfoldable pub add_transfer_encoding : Request → List (Bytes × Bytes) → List (Bytes × Bytes)
unfolding insert join
add_transfer_encoding request result =
    if ltb 0 (length request.transfer_encoding)
    then insert (codes "transfer-encoding") (join request.transfer_encoding (codes ", ")) result
    else result

unfoldable pub forwarded_headers : ForwardingPolicy → Request → List (Bytes × Bytes) × Bool
forwarded_headers p request =
    let t = take_headers request.header (header_names p request) (nothing_taken false) in
    (add_transfer_encoding request (add_content_length request t.result), t.truncated)

-- The first cookie of each name, their order, and whether a name repeats.
unfoldable pub first_cookies :
    List (Bytes × Bytes) → List (Bytes × Bytes) → Bool → List (Bytes × Bytes) × Bool
unfolding has insert
first_cookies first [] truncated = (first, truncated)
first_cookies first ((name, value) ∷ parsed) truncated =
    first_cookies (if has name first then first else insert name value first) parsed
      (if has name first then true else truncated)

unfoldable pub keep_present : List (Bytes × Bytes) → List Bytes → List Bytes
keep_present first [] = []
keep_present first (name ∷ names) =
    let rest = keep_present first names in if has name first then name ∷ rest else rest

unfoldable pub keep_unlisted : List Bytes → List Bytes → List Bytes
keep_unlisted configured [] = []
keep_unlisted configured (name ∷ names) =
    let rest = keep_unlisted configured names in
    if member name configured then rest else name ∷ rest

unfoldable pub cookie_names : ForwardingPolicy → List (Bytes × Bytes) → List Bytes
unfolding keep_present keep_unlisted sort_by
cookie_names p first =
    if p.all_cookies
    then keep_present first p.cookies
      ++ sort_by (λ s. s) (keep_unlisted p.cookie_set (map (λ c. c.0) first))
    else keep_present first p.cookies

-- `first[name]`
unfoldable pub cookie_value : List (Bytes × Bytes) → Bytes → Bytes
unfolding lookup
cookie_value first name = elim (lookup name first) [ none ↦ [] | some v ↦ v ]

-- One round of the loop over the cookie names.
unfoldable pub take_cookie : List (Bytes × Bytes) → Bytes → Taken → Taken
take_cookie first name t =
    if not (valid_cookie_name name) || contains_any (cookie_value first name) line_breaks
    then flag t
    else take_field name (cookie_value first name) t

unfoldable pub take_cookies : List (Bytes × Bytes) → List Bytes → Taken → Taken
take_cookies first [] t = t
take_cookies first (name ∷ names) t = take_cookies first names (take_cookie first name t)

unfoldable pub forwarded_cookies : ForwardingPolicy → Request → List (Bytes × Bytes) × Bool
forwarded_cookies p request =
    let parsed = first_cookies [] request.cookies false in
    let t = take_cookies parsed.0 (cookie_names p parsed.0) (nothing_taken parsed.1) in
    (t.result, t.truncated)
