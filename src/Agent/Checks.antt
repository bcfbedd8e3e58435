-- ===== src/Agent/Checks.antt =====
-- The remaining checks of an evaluation response, and all of them together.
use sokol_traefik_plugin.Prelude.{
  ◌≤◌, ◌≡◌, ◌≢◌, ◌↔◌, ◌⊎◌, true, false, [], ◌∷◌, none, nat_eq, bytes_eq, int_eq, bytes_beq_iff,
  length, All, pos, arith,
}
use sokol_traefik_plugin.Text.{Bytes, codes, has_prefix, contains_any}
use sokol_traefik_plugin.Wire.{EvaluationResponse}
use sokol_traefik_plugin.Agent.{
  check_public, check_retry_after, check_cache_ttl, check_challenge_url, check_challenge_token,
  check_challenge,
}
use sokol_traefik_plugin.Agent.Validation.{Between, IsReason, IsHexByte, IsReason-iff}

-- No carriage return and no line feed.
abbrev pub IsOneLine : Bytes → Type 0
IsOneLine s = All (λ c. (c ≢ 13) × (c ≢ 10)) s

line_iff : (s : Bytes) → (contains_any s (13 ∷ 10 ∷ []) ≡ false) ↔ IsOneLine s
unfolding contains_any
line_iff [] = ground arith
line_iff (c ∷ s) = ground (arith, line_iff s)

pub scope_iff :
    (s : Bytes)
    → (contains_any s (13 ∷ 10 ∷ 0 ∷ []) ≡ false) ↔ All (λ c. (c ≢ 13) × (c ≢ 10) × (c ≢ 0)) s
unfolding contains_any
scope_iff [] = ground arith
scope_iff (c ∷ s) = ground (arith, scope_iff s)

abbrev pub IsDenial : EvaluationResponse → Type 0
IsDenial r = (r.decision ≡ codes "block") ⊎ (r.decision ≡ codes "rate_limit")

abbrev pub RetryFits : EvaluationResponse → Type 0
RetryFits r =
    Between 0 86_400 r.retry_after_seconds × ((r.retry_after_seconds ≡ pos 0) ⊎ IsDenial r)

-- A path of this origin: it starts with one slash, so it names no other host.
abbrev pub UrlFits : EvaluationResponse → Type 0
UrlFits r =
    (r.challenge_url ≡ [])
    ⊎ ((has_prefix r.challenge_url (codes "/") ≡ true)
        × (has_prefix r.challenge_url (codes "//") ≡ false)
        × (length r.challenge_url ≤ 2048)
        × IsOneLine r.challenge_url)

abbrev pub ChallengeFits : EvaluationResponse → Type 0
ChallengeFits r =
    r.decision ≡ codes "challenge"
    → (r.challenge_url ≢ []) × (r.challenge_token ≢ []) × (r.resource_id ≢ []) × (r.site_id ≢ [])

-- The cache metadata of a decision that may be cached.
pub record IsAuthorized (r : EvaluationResponse) : Type 0 where
  pub lives : Between 1 5000 r.cache_ttl_ms
  pub key : (length r.cache_key ≡ 64) × All IsHexByte r.cache_key
  pub scope : r.cache_key_scope ≡ codes "request"
  pub decision_scope :
      (1 ≤ length r.decision_scope)
      × (length r.decision_scope ≤ 256)
      × All (λ c. (c ≢ 13) × (c ≢ 10) × (c ≢ 0)) r.decision_scope
  pub revision : r.policy_revision ≢ 0

pub check_public_iff :
    (r : EvaluationResponse)
    → (check_public r ≡ none)
      ↔ (IsReason r.public_reason × (length r.resource_id ≤ 128) × (length r.site_id ≤ 128))
unfolding check_public
check_public_iff r = ground (arith, IsReason-iff r.public_reason)

pub check_retry_after_iff : (r : EvaluationResponse) → (check_retry_after r ≡ none) ↔ RetryFits r
unfolding check_retry_after
check_retry_after_iff r =
    ground (
      arith,
      bytes_beq_iff r.decision (codes "block"),
      bytes_beq_iff r.decision (codes "rate_limit"),
    )

pub check_cache_ttl_iff :
    (r : EvaluationResponse) → (check_cache_ttl r ≡ none) ↔ Between 0 5000 r.cache_ttl_ms
unfolding check_cache_ttl
check_cache_ttl_iff r = ground arith

pub check_challenge_url_iff : (r : EvaluationResponse) → (check_challenge_url r ≡ none) ↔ UrlFits r
unfolding check_challenge_url
check_challenge_url_iff r =
    ground (arith, bytes_beq_iff r.challenge_url [], line_iff r.challenge_url)

pub check_challenge_token_iff :
    (r : EvaluationResponse)
    → (check_challenge_token r ≡ none)
      ↔ ((length r.challenge_token ≤ 4096) × IsOneLine r.challenge_token)
unfolding check_challenge_token
check_challenge_token_iff r = ground (arith, line_iff r.challenge_token)

pub check_challenge_iff : (r : EvaluationResponse) → (check_challenge r ≡ none) ↔ ChallengeFits r
unfolding check_challenge
check_challenge_iff r = ground (
  arith,
  bytes_beq_iff r.decision (codes "challenge"),
  bytes_beq_iff r.challenge_url [],
  bytes_beq_iff r.challenge_token [],
  bytes_beq_iff r.resource_id [],
  bytes_beq_iff r.site_id [],
)
