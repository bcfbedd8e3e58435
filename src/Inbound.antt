-- ===== src/Inbound.antt =====
-- What the middleware reads off an incoming request, middleware.go: the request ID, the protocol,
-- the scheme and the check of the metadata.
use sokol_traefik_plugin.Prelude.{
  Bool, false, not, ◌&&◌, ◌||◌, List, [], ◌∷◌, none, some, ltb, leb, ◌==◌, bytes_eq, if◌then◌else◌,
  length, any,
}
use sokol_traefik_plugin.Text.{
  Bytes, codes, contains_any, equal_fold, has_prefix, split, to_lower, to_upper, trim_space,
}
use sokol_traefik_plugin.Net.{IpNet, Header, Request, header_get, values}
use sokol_traefik_plugin.ClientIp.{Resolver, ip_is_trusted, parse_remote_ip}

-- `random` stands for the identifier from crypto/rand or, should that fail, from the clock.
unfoldable pub normalized_request_id : Bytes → Bytes → Bytes
normalized_request_id random given =
    let value = trim_space given in
    if leb 1 (length value) && leb (length value) 128 && not (contains_any value (13 ∷ 10 ∷ 0 ∷ []))
    then value
    else random

abbrev pub is_dots : Bytes → Bool
is_dots segment = segment == codes "." || segment == codes ".."

-- `valid_utf8` stands for utf8.ValidString.
unfoldable pub valid_inbound_metadata : (Bytes → Bool) → Request → Bool
valid_inbound_metadata valid_utf8 r =
    if ltb (length r.method) 1
      || ltb 32 (length r.method)
      || ltb (length r.host) 1
      || ltb 253 (length r.host)
      || ltb 8192 (length r.path)
      || ltb 8192 (length r.raw_query)
      || contains_any r.host (13 ∷ 10 ∷ 0 ∷ [])
      || not (valid_utf8 r.path)
      || not (has_prefix r.path (codes "/"))
      || contains_any r.path (0 ∷ b'?' ∷ b'#' ∷ [])
    then false
    else not (any is_dots (split r.path b'/'))

unfoldable pub request_scheme : Resolver → Request → List IpNet → Bytes
request_scheme net request trusted =
    let forwarded = trim_space (to_lower (header_get request.header (codes "X-Forwarded-Proto"))) in
    if request.is_tls then codes "https" else elim (parse_remote_ip net request.remote_addr) [
      | none ↦ codes "http"
      | some direct ↦
          if ip_is_trusted direct trusted
            && (forwarded == codes "https" || forwarded == codes "http")
          then forwarded
          else codes "http"
    ]

unfoldable pub header_has_token : Header → Bytes → Bytes → Bool
header_has_token header name token =
    any (λ value. any (λ item. equal_fold (trim_space item) token) (split value b','))
      (values header name)

abbrev pub webdav_methods : List Bytes
webdav_methods =
    codes "PROPFIND"
    ∷ codes "PROPPATCH"
    ∷ codes "MKCOL"
    ∷ codes "COPY"
    ∷ codes "MOVE"
    ∷ codes "LOCK"
    ∷ codes "UNLOCK"
    ∷ codes "REPORT"
    ∷ codes "SEARCH"
    ∷ []

unfoldable pub protocol_type : Request → Bytes
protocol_type request =
    let h = request.header in
    if header_has_token h (codes "Connection") (codes "upgrade")
      && equal_fold (trim_space (header_get h (codes "Upgrade"))) (codes "websocket")
    then codes "websocket"
    else if has_prefix (to_lower (header_get h (codes "Content-Type"))) (codes "application/grpc")
    then codes "grpc"
    else if header_has_token h (codes "Accept") (codes "text/event-stream")
    then codes "sse"
    else if any (λ m. to_upper request.method == m) webdav_methods
    then codes "webdav"
    else codes "http"
