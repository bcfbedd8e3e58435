-- ===== src/Pages/Write.antt =====
-- The response to a request that is held back, responses.go: `write`, with its status, its headers,
-- and the template that it fills in.
use sokol_traefik_plugin.Prelude.{
  ℕ, Bool, true, false, not, ◌&&◌, ◌||◌, List, [], ◌∷◌, ◌++◌, Option, none, some, ◌==◌, ◌!=◌,
  bytes_eq, int_eq, if◌then◌else◌, ℤ, pos, ltb_ℤ,
}
use sokol_traefik_plugin.Prelude.GoMap.{insert}
use sokol_traefik_plugin.Text.{Bytes, codes, format_uint, trim_space}
use sokol_traefik_plugin.Net.{Header, Request, Url, canonical_header_key, header_get, values}
use sokol_traefik_plugin.Wire.{EvaluationResponse}
use sokol_traefik_plugin.Config.{non_negative}
use sokol_traefik_plugin.Pages.{Files, PageStore, page}
use sokol_traefik_plugin.Pages.Media.{Floats, prefers_json}
use sokol_traefik_plugin.Pages.Fill.{html_escape, fill}

-- Header.Set and Header.Add
unfoldable pub header_set : Header → Bytes → Bytes → Header
unfolding insert canonical_header_key
header_set header name value = insert (canonical_header_key name) (value ∷ []) header

unfoldable pub header_add : Header → Bytes → Bytes → Header
unfolding insert canonical_header_key values
header_add header name value =
    insert (canonical_header_key name) (values header name ++ (value ∷ [])) header

unfoldable pub set_enforcement_headers : Header → Header
unfolding header_set
set_enforcement_headers header =
    header_set
      (header_set
        (header_set (header_set header (codes "Cache-Control") (codes "no-store, private"))
          (codes "Referrer-Policy") (codes "no-referrer"))
        (codes "X-Content-Type-Options") (codes "nosniff"))
      (codes "X-Robots-Tag") (codes "noindex, nofollow, noarchive")

unfoldable pub enforcement_status : EvaluationResponse → ℤ
enforcement_status response =
    let decision = response.decision in
    if decision == codes "block" || decision == codes "challenge"
    then pos 403
    else if decision == codes "rate_limit"
    then pos 429
    else if decision == codes "error"
    then (if not (ltb_ℤ response.status (pos 400)) && not (ltb_ℤ (pos 599) response.status)
        then response.status
        else pos 503)
    else pos 403

-- What the response is made of: the fields that the JSON encoder gets, or the filled template.
pub data WrittenBody : Type 0 where
  json_body : Bytes → ℤ → Bytes → Bytes → WrittenBody
  html_body : Bytes → WrittenBody

pub record Written : Type 0 where
  pub status : ℤ
  pub header : Header
  pub body : WrittenBody

-- The surroundings of one call: url.Parse, url.QueryEscape, URL.EscapedPath, what crypto/rand and
-- base64 give, the clock with its two formats, and the order in which a map is gone through.
pub record WriteEnv (F : Type 0) : Type 0 where
  pub files : Files
  pub floats : Floats F
  pub parse_url : Bytes → Option Url
  pub query_escape : Bytes → Bytes
  pub escaped_path : Request → Bytes
  pub random_bytes : Option Bytes
  pub base64 : Bytes → Bytes
  pub now : ℕ
  pub timestamp : Bytes
  pub timestamp_nano : Bytes
  pub shuffle : List (Bytes × Bytes) → List (Bytes × Bytes)

abbrev pub format_bool : Bool → Bytes
format_bool true = codes "true"
format_bool false = codes "false"

abbrev pub content_security_policy : Bytes → Bytes
content_security_policy nonce =
    codes "default-src 'none'; base-uri 'none'; form-action 'self'; frame-ancestors 'none'; "
    ++ (codes "img-src 'self' data: https://sokol-static.my-k.cloud; "
        ++ (codes "style-src 'unsafe-inline' https://sokol-static.my-k.cloud; "
            ++ (codes "font-src https://sokol-static.my-k.cloud; "
                ++ (codes "script-src 'nonce-"
                    ++ (nonce
                        ++ (codes "' 'wasm-unsafe-eval' https://sokol-static.my-k.cloud; "
                            ++ codes
                                "worker-src blob:; connect-src 'self' https://sokol-static.my-k.cloud https://sokol.my-k.cloud"))))))

abbrev pub wants_retry_after : EvaluationResponse → Bool
wants_retry_after response =
    ltb_ℤ (pos 0) response.retry_after_seconds
    && (enforcement_status response == pos 429 || enforcement_status response == pos 403)

unfoldable pub set_retry_after : EvaluationResponse → Header → Header
unfolding header_set format_uint
set_retry_after response header =
    if wants_retry_after response
    then header_set header (codes "Retry-After")
        (format_uint (non_negative response.retry_after_seconds))
    else header

module _ {F : Type 0} (env : WriteEnv F) where
  abbrev pub is_origin : Url → Bool
  is_origin parsed = not (
      parsed.host == []
      || parsed.has_user
      || (parsed.scheme != codes "http" && parsed.scheme != codes "https")
      || parsed.path != []
      || parsed.raw_query != []
      || parsed.fragment != [])

  unfoldable pub set_json_cors_headers : Header → Bytes → Header
  unfolding header_set header_add trim_space
  set_json_cors_headers header given =
      let origin = trim_space given in
      elim (env.parse_url origin) [
        | none ↦ header
        | some parsed ↦
            if is_origin parsed
            then header_add
                (header_set
                  (header_set (header_set header (codes "Access-Control-Allow-Origin") origin)
                    (codes "Access-Control-Allow-Credentials") (codes "true"))
                  (codes "Access-Control-Expose-Headers") (codes "Retry-After"))
                (codes "Vary") (codes "Origin")
            else header
      ]

  unfoldable pub random_nonce : Bytes
  random_nonce = elim env.random_bytes [
    | none ↦ env.base64 env.timestamp_nano
    | some value ↦ env.base64 value
  ]

  unfoldable pub challenge_create_url : Request → EvaluationResponse → Bytes
  challenge_create_url request response =
      response.challenge_url
      ++ (codes "?token="
          ++ (env.query_escape response.challenge_token
              ++ (codes "&resource="
                  ++ (env.query_escape response.resource_id
                      ++ (codes "&site="
                          ++ (env.query_escape response.site_id
                              ++ (codes "&path=" ++ env.query_escape request.path)))))))

  unfoldable pub replacements : Request → EvaluationResponse → List (Bytes × Bytes)
  unfolding html_escape random_nonce challenge_create_url
  replacements request response =
      (codes "{{SOKOL_REQUEST_ID}}", html_escape response.request_id)
      ∷ (codes "{{SOKOL_HOST}}", html_escape request.host)
      ∷ (codes "{{SOKOL_PATH}}", html_escape (env.escaped_path request))
      ∷ (codes "{{SOKOL_TIMESTAMP}}", html_escape env.timestamp)
      ∷ (codes "{{SOKOL_CHALLENGE_URL}}", html_escape (challenge_create_url request response))
      ∷ (codes "{{SOKOL_CHALLENGE_TOKEN}}", html_escape response.challenge_token)
      ∷ (codes "{{SOKOL_CHALLENGE_RESOURCE_ID}}", html_escape response.resource_id)
      ∷ (codes "{{SOKOL_CHALLENGE_SITE_ID}}", html_escape response.site_id)
      ∷ (codes "{{SOKOL_CHALLENGE_AUTO_START}}", format_bool response.challenge_auto_start)
      ∷ (codes "{{SOKOL_CSP_NONCE}}", html_escape random_nonce)
      ∷ []

  abbrev pub json_answer : Request → EvaluationResponse → Header → Written
  json_answer request response header = record {
    status = enforcement_status response;
    header =
        header_set (set_json_cors_headers header (header_get request.header (codes "Origin")))
          (codes "Content-Type") (codes "application/json; charset=utf-8");
    body =
        json_body response.decision (enforcement_status response) response.request_id
          response.public_reason;
  }

  abbrev pub html_answer : Request → EvaluationResponse → Header → Bytes → Written
  html_answer request response header template = record {
    status = enforcement_status response;
    header =
        header_set (header_set header (codes "Content-Type") (codes "text/html; charset=utf-8"))
          (codes "Content-Security-Policy") (content_security_policy random_nonce);
    body = html_body (fill (env.shuffle (replacements request response)) template);
  }

  -- `header` holds what the writer's header has before the call.
  unfoldable pub write : PageStore → Header → Request → EvaluationResponse → PageStore × Written
  unfolding set_enforcement_headers set_retry_after
  write store header request response =
      let started = set_retry_after response (set_enforcement_headers header) in
      let shown = page env.files store response.decision env.now in
      if prefers_json env.floats (header_get request.header (codes "Accept"))
        store.config.default_format
      then (store, json_answer request response started)
      else (shown.0, html_answer request response started shown.1)
