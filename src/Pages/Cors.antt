-- ===== src/Pages/Cors.antt =====
-- Which origin a response of responses.go allows to read it.
use sokol_traefik_plugin.Prelude.{
  ◌≡◌, ◌≢◌, ◌⊎◌, inl, inr, refl, ◌∙◌, true, false, [], some, bytes_eq, bytes_beq, bytes_beq_iff,
  Bool-cases, Option-cases, arith,
}
use sokol_traefik_plugin.Text.{Bytes, codes, trim_space}
use sokol_traefik_plugin.Net.{Header, Url, canonical_header_key, header_get}
use sokol_traefik_plugin.Wire.{EvaluationResponse}
use sokol_traefik_plugin.Pages.Write.{
  set_enforcement_headers, set_retry_after, wants_retry_after, is_origin, set_json_cors_headers,
  WriteEnv,
}
use sokol_traefik_plugin.Pages.Headers.{get-set, get-set_other, get-add_other}

abbrev pub allow_origin : Bytes
allow_origin = codes "Access-Control-Allow-Origin"

-- Nothing but a scheme of the web and a host.
abbrev pub IsWebOrigin : Url → Type 0
IsWebOrigin u =
    ((u.scheme ≡ codes "http") ⊎ (u.scheme ≡ codes "https"))
    × (u.host ≢ [])
    × (u.has_user ≡ false)
    × (u.path ≡ [])
    × (u.raw_query ≡ [])
    × (u.fragment ≡ [])

pub set_enforcement_headers-origin :
    (header : Header)
    → header_get (set_enforcement_headers header) allow_origin ≡ header_get header allow_origin
unfolding set_enforcement_headers canonical_header_key bytes_beq
set_enforcement_headers-origin header =
    get-set_other _ (codes "X-Robots-Tag") allow_origin _ refl
    ∙ (get-set_other _ (codes "X-Content-Type-Options") allow_origin _ refl
        ∙ (get-set_other _ (codes "Referrer-Policy") allow_origin _ refl
            ∙ get-set_other header (codes "Cache-Control") allow_origin _ refl))

pub set_retry_after-origin :
    (response : EvaluationResponse) (header : Header)
    → header_get (set_retry_after response header) allow_origin ≡ header_get header allow_origin
unfolding set_retry_after canonical_header_key bytes_beq
set_retry_after-origin response header = elim (Bool-cases (wants_retry_after response)) [
  | inl wanted ↦
      rw (wanted, set_retry_after) (get-set_other header (codes "Retry-After") allow_origin _ refl)
  | inr unwanted ↦ rw (unwanted, set_retry_after) refl
]

module _ {F : Type 0} (env : WriteEnv F) where
  is_origin-IsWebOrigin : (u : Url) → is_origin env u ≡ true → IsWebOrigin u
  is_origin-IsWebOrigin u h = ground (
    arith,
    bytes_beq_iff u.scheme (codes "http"),
    bytes_beq_iff u.scheme (codes "https"),
    bytes_beq_iff u.host [],
    bytes_beq_iff u.path [],
    bytes_beq_iff u.raw_query [],
    bytes_beq_iff u.fragment [],
  )

  -- The origin is the one allowed before, or the one given, where that is an origin of the web.
  abbrev pub IsAllowed : Header → Bytes → Header → Type 0
  IsAllowed before origin after =
      (header_get after allow_origin ≡ header_get before allow_origin)
      ⊎ ((header_get after allow_origin ≡ trim_space origin)
          × ((parsed : Url) × (env.parse_url (trim_space origin) ≡ some parsed)
              × IsWebOrigin parsed))

  pub set_json_cors_headers-IsAllowed :
      (header : Header) (origin : Bytes)
      → IsAllowed header origin (set_json_cors_headers env header origin)
  unfolding set_json_cors_headers canonical_header_key bytes_beq
  set_json_cors_headers-IsAllowed header origin =
      elim (Option-cases (env.parse_url (trim_space origin))) [
        | inl bad ↦ rw (bad, set_json_cors_headers) (inl refl)
        | inr (parsed, good) ↦ elim (Bool-cases (is_origin env parsed)) [
          | inr other ↦ rw (good, other, set_json_cors_headers) (inl refl)
          | inl plain ↦
              rw (good, plain, set_json_cors_headers)
                (inr (
                  get-add_other _ (codes "Vary") allow_origin (codes "Origin") refl
                      ∙ (get-set_other _ (codes "Access-Control-Expose-Headers") allow_origin _ refl
                          ∙ (get-set_other _ (codes "Access-Control-Allow-Credentials") allow_origin
                                _ refl
                              ∙ get-set header (codes "Access-Control-Allow-Origin") allow_origin
                                  (trim_space origin))),
                  (parsed, refl, is_origin-IsWebOrigin parsed plain),
                ))
        ]
      ]

  -- What comes before and after keeps the allowed origin.
  pub IsAllowed-within :
      (before start after end : Header) (origin : Bytes)
      → header_get start allow_origin ≡ header_get before allow_origin
      → header_get end allow_origin ≡ header_get after allow_origin
      → IsAllowed start origin after
      → IsAllowed before origin end
  IsAllowed-within before start after end origin s e (inl same) = inl (e ∙ (same ∙ s))
  IsAllowed-within before start after end origin s e (inr (given, web)) = inr (e ∙ given, web)
