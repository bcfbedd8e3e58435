-- ===== src/Pages/Headers.antt =====
-- The headers of a response that is held back, responses.go: what `write` sets stays set.
use sokol_traefik_plugin.Prelude.{
  ◌≡◌, inl, inr, refl, ◌∙◌, Bool, false, ◌||◌, List, [], ◌∷◌, ◌++◌, ◌==◌, bytes_eq, bytes_beq,
  if◌then◌else◌, Bool-cases, Option-cases, arith,
}
use sokol_traefik_plugin.Prelude.GoMap.{insert, lookup-insert}
use sokol_traefik_plugin.Text.{Bytes, codes, trim_space}
use sokol_traefik_plugin.Net.{
  Header, canonical_header_key, header_get, values, values, first_of_values,
}
use sokol_traefik_plugin.Wire.{EvaluationResponse}
use sokol_traefik_plugin.Pages.Write.{
  header_set, header_add, set_enforcement_headers, set_retry_after, wants_retry_after, is_origin,
  set_json_cors_headers, WriteEnv,
}

-- The names of the four headers of `setEnforcementHeaders`.
abbrev pub same_name : Bytes → Bytes → Bool
same_name name other = canonical_header_key name == canonical_header_key other

abbrev is_kept : Bytes → Bool
is_kept name =
    same_name name (codes "Cache-Control")
    || same_name name (codes "Referrer-Policy")
    || same_name name (codes "X-Content-Type-Options")
    || same_name name (codes "X-Robots-Tag")

-- The headers that keep the response out of caches, referrers and search engines.
pub record IsPrivate (header : Header) : Type 0 where
  pub uncached : header_get header (codes "Cache-Control") ≡ codes "no-store, private"
  pub unreferred : header_get header (codes "Referrer-Policy") ≡ codes "no-referrer"
  pub unsniffed : header_get header (codes "X-Content-Type-Options") ≡ codes "nosniff"
  pub unindexed : header_get header (codes "X-Robots-Tag") ≡ codes "noindex, nofollow, noarchive"

get-insert :
    (header : Header) (key name : Bytes) (vs : List Bytes)
    → header_get (insert key vs header) name
      ≡ (if key == canonical_header_key name then first_of_values vs else header_get header name)
unfolding header_get values first_of_values
get-insert header key name vs =
    ground (arith, lookup-insert key (canonical_header_key name) vs header)

insert-IsPrivate :
    (header : Header) (name : Bytes) (vs : List Bytes)
    → is_kept name ≡ false
    → IsPrivate header
    → IsPrivate (insert (canonical_header_key name) vs header)
insert-IsPrivate header name vs h p =
    let get : (other : Bytes)
        → same_name name other ≡ false
        → header_get (insert (canonical_header_key name) vs header) other
          ≡ header_get header other =
      λ other apart. ground (arith, get-insert header (canonical_header_key name) other vs) in
    record {
      uncached = get (codes "Cache-Control") (ground arith) ∙ p.uncached;
      unreferred = get (codes "Referrer-Policy") (ground arith) ∙ p.unreferred;
      unsniffed = get (codes "X-Content-Type-Options") (ground arith) ∙ p.unsniffed;
      unindexed = get (codes "X-Robots-Tag") (ground arith) ∙ p.unindexed;
    }

pub header_set-IsPrivate :
    (header : Header) (name value : Bytes)
    → is_kept name ≡ false
    → IsPrivate header
    → IsPrivate (header_set header name value)
unfolding header_set
header_set-IsPrivate header name value h p = insert-IsPrivate header name (value ∷ []) h p

header_add-IsPrivate :
    (header : Header) (name value : Bytes)
    → is_kept name ≡ false
    → IsPrivate header
    → IsPrivate (header_add header name value)
unfolding header_add
header_add-IsPrivate header name value h p = insert-IsPrivate header name _ h p

pub get-set :
    (header : Header) (name other value : Bytes)
    → header_get (header_set header name value) other
      ≡ (if same_name name other then value else header_get header other)
unfolding header_set first_of_values
get-set header name other value = get-insert header (canonical_header_key name) other (value ∷ [])

pub get-set_other :
    (header : Header) (name other value : Bytes)
    → same_name name other ≡ false
    → header_get (header_set header name value) other ≡ header_get header other
get-set_other header name other value apart = ground (arith, get-set header name other value)

pub get-add_other :
    (header : Header) (name other value : Bytes)
    → same_name name other ≡ false
    → header_get (header_add header name value) other ≡ header_get header other
unfolding header_add
get-add_other header name other value apart = ground (
  arith,
  get-insert header (canonical_header_key name) other (values header name ++ (value ∷ [])),
)

pub set_enforcement_headers-IsPrivate :
    (header : Header) → IsPrivate (set_enforcement_headers header)
unfolding set_enforcement_headers canonical_header_key header_get bytes_beq
set_enforcement_headers-IsPrivate header =
    let first = header_set header (codes "Cache-Control") (codes "no-store, private") in
    let second = header_set first (codes "Referrer-Policy") (codes "no-referrer") in
    let third = header_set second (codes "X-Content-Type-Options") (codes "nosniff") in
    let value = codes "noindex, nofollow, noarchive" in
    record {
      uncached =
          get-set third (codes "X-Robots-Tag") (codes "Cache-Control") value
          ∙ (get-set second (codes "X-Content-Type-Options") (codes "Cache-Control")
                (codes "nosniff")
              ∙ (get-set first (codes "Referrer-Policy") (codes "Cache-Control")
                    (codes "no-referrer")
                  ∙ get-set header (codes "Cache-Control") (codes "Cache-Control")
                      (codes "no-store, private")));
      unreferred =
          get-set third (codes "X-Robots-Tag") (codes "Referrer-Policy") value
          ∙ (get-set second (codes "X-Content-Type-Options") (codes "Referrer-Policy")
                (codes "nosniff")
              ∙ get-set first (codes "Referrer-Policy") (codes "Referrer-Policy")
                  (codes "no-referrer"));
      unsniffed =
          get-set third (codes "X-Robots-Tag") (codes "X-Content-Type-Options") value
          ∙ get-set second (codes "X-Content-Type-Options") (codes "X-Content-Type-Options")
              (codes "nosniff");
      unindexed = get-set third (codes "X-Robots-Tag") (codes "X-Robots-Tag") value;
    }

pub set_retry_after-IsPrivate :
    (response : EvaluationResponse) (header : Header)
    → IsPrivate header
    → IsPrivate (set_retry_after response header)
unfolding set_retry_after canonical_header_key bytes_beq
set_retry_after-IsPrivate response header p = elim (Bool-cases (wants_retry_after response)) [
  | inl wanted ↦
      rw (wanted, set_retry_after) (header_set-IsPrivate header (codes "Retry-After") _ refl p)
  | inr unwanted ↦ rw (unwanted, set_retry_after) p
]

module _ {F : Type 0} (env : WriteEnv F) where
  pub set_json_cors_headers-IsPrivate :
      (header : Header) (origin : Bytes)
      → IsPrivate header
      → IsPrivate (set_json_cors_headers env header origin)
  unfolding set_json_cors_headers canonical_header_key bytes_beq
  set_json_cors_headers-IsPrivate header origin p =
      elim (Option-cases (env.parse_url (trim_space origin))) [
        | inl bad ↦ rw (bad, set_json_cors_headers) p
        | inr (parsed, good) ↦ elim (Bool-cases (is_origin env parsed)) [
          | inr other ↦ rw (good, other, set_json_cors_headers) p
          | inl accepted ↦
              rw (good, accepted, set_json_cors_headers)
                (header_add-IsPrivate _ (codes "Vary") (codes "Origin") refl (
                  header_set-IsPrivate _ (codes "Access-Control-Expose-Headers")
                    (codes "Retry-After") refl
                    (header_set-IsPrivate _ (codes "Access-Control-Allow-Credentials")
                      (codes "true") refl
                      (header_set-IsPrivate _ (codes "Access-Control-Allow-Origin")
                        (trim_space origin) refl p))))
        ]
      ]
