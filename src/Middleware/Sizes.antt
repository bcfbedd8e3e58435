-- ===== src/Middleware/Sizes.antt =====
-- The sizes of what the Agent is asked.
use sokol_traefik_plugin.Prelude.{
  ℕ, ◌≤◌, ◌≡◌, refl, subst, Bool, true, [], ◌∷◌, map, Option, some, ◌==◌, bytes_eq, bytes_beq,
  if◌then◌else◌, length, Option-cases, inl, inr, arith,
}
use sokol_traefik_plugin.Text.{Bytes, codes, has_prefix, to_upper}
use sokol_traefik_plugin.Wire.{EvaluationRequest}
use sokol_traefik_plugin.Net.{Ip, BodyStream, Request}
use sokol_traefik_plugin.Forwarding.Bounds.{size, forwarded_cookies-bounds}
use sokol_traefik_plugin.Forwarding.Origin.{forwarded_headers-bounds}
use sokol_traefik_plugin.Body.{RequestBodyConfig, capture_request_body, read_prefix}
use sokol_traefik_plugin.Inbound.{normalized_request_id, valid_inbound_metadata, protocol_type}
use sokol_traefik_plugin.Middleware.{Config, Env, State, evaluation_input, serve_http}
use sokol_traefik_plugin.Middleware.Asked.{input_of, IsOpen, serve_http_asked_iff}

-- A message to the Agent within its limits.
pub record IsSized (maximum_body : ℕ) (input : EvaluationRequest) : Type 0 where
  pub request_id : length input.request_id ≤ 128
  pub method_given : 1 ≤ length input.method
  pub method : length input.method ≤ 32
  pub host_given : 1 ≤ length input.host
  pub host : length input.host ≤ 253
  pub path : length input.path ≤ 8192
  pub rooted : has_prefix input.path (codes "/") ≡ true
  pub query : length input.query ≤ 8192
  pub headers : length input.headers ≤ 130
  pub cookies : length input.cookies ≤ 128
  pub cookie_bytes : size input.cookies ≤ 65_536
  pub body : length input.body ≤ maximum_body

length-map_bytes : (f : ℕ → ℕ) (s : Bytes) → length (map f s) ≡ length s
length-map_bytes f [] = refl
length-map_bytes f (c ∷ s) = omega (arith, length-map_bytes f s)

length-to_upper : (s : Bytes) → length (to_upper s) ≡ length s
unfolding to_upper
length-to_upper s = length-map_bytes _ s

length-normalized_request_id-le :
    (random given : Bytes) → length random ≤ 128 → length (normalized_request_id random given) ≤ 128
unfolding normalized_request_id
length-normalized_request_id-le random given h = ground arith

length-read_prefix-le :
    (limit : ℕ) (stream : BodyStream) → length (read_prefix limit stream).body ≤ limit
unfolding read_prefix
length-read_prefix-le limit stream = ground arith

length-capture_request_body-le :
    (parse : Bytes → Option Bytes) (request : Request) (config : RequestBodyConfig)
    (protocol : Bytes)
    → length (capture_request_body parse request config protocol).body ≤ config.maximum_bytes
unfolding capture_request_body
length-capture_request_body-le parse request config protocol = elim (Option-cases request.body) [
  | inl absent ↦ ground arith
  | inr (stream, there) ↦ ground (arith, length-read_prefix-le config.maximum_bytes stream)
]

-- What the check of the metadata leaves.
valid_inbound_metadata_lem :
    (valid_utf8 : Bytes → Bool) (r : Request)
    → valid_inbound_metadata valid_utf8 r ≡ true
    → (1 ≤ length r.method)
      × (length r.method ≤ 32)
      × (1 ≤ length r.host)
      × (length r.host ≤ 253)
      × (length r.path ≤ 8192)
      × (length r.raw_query ≤ 8192)
      × (has_prefix r.path (codes "/") ≡ true)
unfolding valid_inbound_metadata
valid_inbound_metadata_lem valid_utf8 r h = ground arith

module _ (env : Env) (config : Config) where
  rooted_path :
      (path : Bytes)
      → has_prefix path (codes "/") ≡ true
      → (if path == [] then codes "/" else path) ≡ path
  unfolding has_prefix bytes_beq
  rooted_path [] h = absurd (ground arith)
  rooted_path (c ∷ path) h = refl

  input_of-IsSized :
      (st : State) (request : Request) (client_ip : Ip)
      → length env.random_id ≤ 128
      → IsOpen env config st request client_ip
      → IsSized config.request_body.maximum_bytes (input_of env config request client_ip)
  unfolding evaluation_input
  input_of-IsSized st request client_ip h gates =
      let (method_given, method, host_given, host, path, query, rooted) =
        valid_inbound_metadata_lem env.valid_utf8 request gates.valid in
      let (cookies, cookie_bytes, sound) = forwarded_cookies-bounds config.forwarding request in
      let (bounded, origin, complete, kept, fields) =
        forwarded_headers-bounds config.forwarding request [] in
      let same = rooted_path request.path rooted in
      record {
        request_id = length-normalized_request_id-le env.random_id _ h;
        method_given = omega (arith, length-to_upper request.method, method_given);
        method = omega (arith, length-to_upper request.method, method);
        host_given = host_given;
        host = host;
        path = rw same path;
        rooted = rw same rooted;
        query = query;
        headers = fields;
        cookies = cookies;
        cookie_bytes = cookie_bytes;
        body =
            length-capture_request_body-le env.parse_media_type request config.request_body
              (protocol_type request);
      }

  -- Whatever the request says, what the Agent is asked is within bounds, where the random identifier
  -- has at most 128 bytes: the request ID, the method, the host, the path, which starts with a
  -- slash, the query, the numbers of headers and of cookies, the bytes of the cookies, and the body.
  pub serve_http-IsSized :
      (st : State) (request : Request) (input : EvaluationRequest)
      → length env.random_id ≤ 128
      → (serve_http env config st request).asked ≡ some input
      → IsSized config.request_body.maximum_bytes input
  serve_http-IsSized st request input h asked =
      let (client_ip, gates, same) = (serve_http_asked_iff env config st request input).0 asked in
      subst (IsSized config.request_body.maximum_bytes) same
        (input_of-IsSized st request client_ip h gates)
