-- ===== src/Pages/Written.antt =====
-- What holds of every response that `write` of responses.go sends.
use sokol_traefik_plugin.Prelude.{
  ℕ, ◌≤◌, ◌≡◌, inl, ◌∙◌, inr, refl, Bool, true, false, List, ◌∷◌, bytes_eq, bytes_beq, All, ℤ, pos,
  Bool-cases, arith,
}
use sokol_traefik_plugin.Text.{Bytes, codes}
use sokol_traefik_plugin.Net.{Header, Request, canonical_header_key, header_get}
use sokol_traefik_plugin.Wire.{EvaluationResponse}
use sokol_traefik_plugin.Config.Lists.{outside_iff}
use sokol_traefik_plugin.Pages.{PageStore, page}
use sokol_traefik_plugin.Pages.Media.{prefers_json}
use sokol_traefik_plugin.Pages.Fill.{html_escape, fill, count}
use sokol_traefik_plugin.Pages.Markup.{
  IsFree, is_plain, is_plain-IsFree, escaped-IsPlain, IsMarkup, IsPlain, count-fill,
}
use sokol_traefik_plugin.Pages.Write.{
  set_enforcement_headers, set_retry_after, set_json_cors_headers, json_answer, html_answer,
  enforcement_status, challenge_create_url, random_nonce, WrittenBody, json_body, html_body,
  WriteEnv, format_bool, replacements, write,
}
use sokol_traefik_plugin.Pages.Cors.{
  allow_origin, IsAllowed, IsAllowed-within, set_enforcement_headers-origin, set_retry_after-origin,
  set_json_cors_headers-IsAllowed,
}
use sokol_traefik_plugin.Pages.Headers.{
  get-set_other, IsPrivate, header_set-IsPrivate, set_enforcement_headers-IsPrivate,
  set_retry_after-IsPrivate, set_json_cors_headers-IsPrivate,
}

-- 400 to 599.
abbrev pub IsErrorStatus : ℤ → Type 0
IsErrorStatus status = (n : ℕ) × (status ≡ pos n) × (400 ≤ n) × (n ≤ 599)

enforcement_status-IsErrorStatus :
    (response : EvaluationResponse) → IsErrorStatus (enforcement_status response)
unfolding enforcement_status
enforcement_status-IsErrorStatus response =
    (outside_iff 400 599 (enforcement_status response)).0 (ground arith)

-- The page has as many of each of the bytes of markup as its template.
abbrev pub SameMarkup : Bytes → Bytes → Type 0
SameMarkup text template =
    (count b'<' text ≡ count b'<' template)
    × (count b'>' text ≡ count b'>' template)
    × (count 34 text ≡ count 34 template)
    × (count 39 text ≡ count 39 template)

abbrev pub KeepsMarkup : WrittenBody → Bytes → Type 0
KeepsMarkup (json_body decision status request_id reason) template = Unit
KeepsMarkup (html_body text) template = SameMarkup text template

format_bool-IsFree : (b : ℕ) (v : Bool) → IsMarkup b → IsFree b (format_bool v)
format_bool-IsFree b true markup = is_plain-IsFree b _ markup refl
format_bool-IsFree b false markup = is_plain-IsFree b _ markup refl

module _ {F : Type 0} (env : WriteEnv F) where
  replacements-IsPlain :
      (request : Request) (response : EvaluationResponse) (b : ℕ)
      → IsMarkup b
      → All (IsPlain b) (replacements env request response)
  unfolding replacements
  replacements-IsPlain request response b markup = (
    plain response.request_id refl,
    (
      plain request.host refl,
      (
        plain (env.escaped_path request) refl,
        (
          plain env.timestamp refl,
          (
            plain (challenge_create_url env request response) refl,
            (
              plain response.challenge_token refl,
              (
                plain response.resource_id refl,
                (
                  plain response.site_id refl,
                  (
                    (
                      λ e. ground (arith, e),
                      is_plain-IsFree b _ markup refl,
                      format_bool-IsFree b response.challenge_auto_start markup,
                    ),
                    (plain (random_nonce env) refl, tt),
                  ),
                ),
              ),
            ),
          ),
        ),
      ),
    ),
  )
    where
      plain :
          {c : ℕ} {name : Bytes} (value : Bytes)
          → is_plain (c ∷ name) ≡ true
          → IsPlain b (c ∷ name, html_escape value)
      plain value h = escaped-IsPlain b value markup h

  fill-SameMarkup :
      (request : Request) (response : EvaluationResponse) (template : Bytes)
      → ((P : Bytes × Bytes → Type 0) (entries : List (Bytes × Bytes))
          → All P entries
          → All P (env.shuffle entries))
      → SameMarkup (fill (env.shuffle (replacements env request response)) template) template
  fill-SameMarkup request response template shuffled =
      let same : (b : ℕ)
          → IsMarkup b
          → count b (fill (env.shuffle (replacements env request response)) template)
            ≡ count b template =
        λ b markup. count-fill b _ template (
          shuffled (IsPlain b) (replacements env request response)
            (replacements-IsPlain request response b markup)) in
      (
        same b'<' (inl refl),
        same b'>' (inr (inl refl)),
        same 34 (inr (inr (inl refl))),
        same 39 (inr (inr (inr refl))),
      )

  json_answer-IsAllowed :
      (header : Header) (request : Request) (response : EvaluationResponse)
      → IsAllowed env header
          (header_get request.header (codes "Origin"))
          (json_answer env request response
            (set_retry_after response (set_enforcement_headers header))).header
  unfolding canonical_header_key bytes_beq
  json_answer-IsAllowed header request response =
      let origin = header_get request.header (codes "Origin") in
      let start = set_retry_after response (set_enforcement_headers header) in
      let shared = set_json_cors_headers env start origin in
      IsAllowed-within env header start shared _ origin
        (set_retry_after-origin response (set_enforcement_headers header)
          ∙ set_enforcement_headers-origin header)
        (get-set_other shared (codes "Content-Type") allow_origin _ refl)
        (set_json_cors_headers-IsAllowed env start origin)

  html_answer-IsAllowed :
      (header : Header) (request : Request) (response : EvaluationResponse) (template : Bytes)
      → IsAllowed env header
          (header_get request.header (codes "Origin"))
          (html_answer env request response
            (set_retry_after response (set_enforcement_headers header))
            template).header
  unfolding canonical_header_key bytes_beq
  html_answer-IsAllowed header request response template = inl (
      get-set_other _ (codes "Content-Security-Policy") allow_origin _ refl
      ∙ (get-set_other _ (codes "Content-Type") allow_origin _ refl
          ∙ (set_retry_after-origin response (set_enforcement_headers header)
              ∙ set_enforcement_headers-origin header)))

  -- Given that a map, in whatever order it is gone through, yields only its own entries: every
  -- response that is written has a status from 400 to 599 and the four private headers, whatever the
  -- writer's header held before. The origin that it allows to read it is the one allowed before, or
  -- that of the request, where this is a scheme of the web and a host and nothing else. An HTML page
  -- has as many `<`, `>`, double and single quotes as the template that it fills in.
  pub write-IsGuarded :
      (store : PageStore) (header : Header) (request : Request) (response : EvaluationResponse)
      → ((P : Bytes × Bytes → Type 0) (entries : List (Bytes × Bytes))
          → All P entries
          → All P (env.shuffle entries))
      → IsErrorStatus (write env store header request response).1.status
        × IsPrivate (write env store header request response).1.header
        × IsAllowed env header
            (header_get request.header (codes "Origin"))
            (write env store header request response).1.header
        × KeepsMarkup
            (write env store header request response).1.body
            (page env.files store response.decision env.now).1
  unfolding write canonical_header_key bytes_beq
  write-IsGuarded store header request response shuffled =
      let status = enforcement_status-IsErrorStatus response in
      let start =
        set_retry_after-IsPrivate response (set_enforcement_headers header)
          (set_enforcement_headers-IsPrivate header) in
      elim (Bool-cases (
        prefers_json env.floats (header_get request.header (codes "Accept"))
          store.config.default_format)) [
            | inl json ↦
                rw (json, write)
                  (
                    status,
                    header_set-IsPrivate _ (codes "Content-Type") _ refl (
                        set_json_cors_headers-IsPrivate env _
                          (header_get request.header (codes "Origin")) start),
                    json_answer-IsAllowed header request response,
                    tt,
                  )
            | inr html ↦
                rw (html, write)
                  (
                    status,
                    header_set-IsPrivate _ (codes "Content-Security-Policy") _ refl (
                        header_set-IsPrivate _ (codes "Content-Type")
                          (codes "text/html; charset=utf-8") refl start),
                    html_answer-IsAllowed header request response
                        (page env.files store response.decision env.now).1,
                    fill-SameMarkup request response
                        (page env.files store response.decision env.now).1 shuffled,
                  )
          ]
