-- ===== src/Body.antt =====
-- The capture of the request body, body.go. `mime.ParseMediaType` (its media type) is a parameter. A
-- request whose body is absent or `http.NoBody` has `none`.
pub mod Replay
mod Tests
use sokol_traefik_plugin.Prelude.{
  ℕ, ◌+◌, ◌≤◌, Bool, true, false, not, ◌&&◌, ◌||◌, List, [], ◌∷◌, ◌++◌, Option, none, some, ltb,
  leb, ◌==◌, ◌!=◌, bytes_eq, if◌then◌else◌, length, take, drop, any,
}
use sokol_traefik_plugin.Text.{
  Bytes, codes, has_prefix, has_suffix, trim_last, trim_space, to_lower,
}
use sokol_traefik_plugin.Net.{BodyStream, Request, header_get}

pub record RequestBodyConfig : Type 0 where
  pub enabled : Bool
  pub maximum_bytes : ℕ
  pub oversize_action : Bytes
  pub content_types : List Bytes
  pub bypass_path_prefixes : List Bytes

-- The body, whether it is too large, and whether the read failed; and the body that is left for the
-- next handler, put together from what was read and what was not.
pub record Captured : Type 0 where
  pub body : Bytes
  pub oversized : Bool
  pub failed : Bool
  pub left : Option BodyStream

unfoldable pub bypass_body_path : Bytes → List Bytes → Bool
unfolding any has_prefix trim_last
bypass_body_path path prefixes =
    any
      (λ prefix.
        prefix == codes "/"
        || path == prefix
        || has_prefix path (trim_last b'/' prefix ++ codes "/"))
      prefixes

unfoldable pub media_type_allowed : Bytes → List Bytes → Bool
unfolding any has_prefix has_suffix trim_last trim_space to_lower
media_type_allowed media_type allowed =
    any
      (λ pattern'.
        let p = to_lower (trim_space pattern') in
        p == media_type || (has_suffix p (codes "/*") && has_prefix media_type (trim_last b'*' p)))
      allowed

-- `io.ReadAll` on the limited body: at most `limit + 1` bytes; a broken body fails where it ends
-- before them.
unfoldable pub read_prefix : ℕ → BodyStream → Captured
read_prefix limit stream =
    let prefix = take (limit + 1) stream.bytes in
    let left =
      some (record { bytes = prefix ++ drop (limit + 1) stream.bytes; broken = stream.broken }) in
    if stream.broken && leb (length stream.bytes) limit
    then record { body = []; oversized = false; failed = true; left = left }
    else if ltb limit (length prefix)
    then record { body = []; oversized = true; failed = false; left = left }
    else record { body = prefix; oversized = false; failed = false; left = left }

module _ (parse_media_type : Bytes → Option Bytes) where
  unfoldable pub body_content_type_allowed : Bytes → List Bytes → Bool
  unfolding media_type_allowed
  body_content_type_allowed value allowed = elim (parse_media_type value) [
    | none ↦ false
    | some media_type ↦ media_type_allowed (to_lower media_type) allowed
  ]

  unfoldable pub captures : Request → RequestBodyConfig → Bytes → Bool
  captures request config protocol =
      config.enabled
      && protocol == codes "http"
      && not (bypass_body_path request.path config.bypass_path_prefixes)
      && body_content_type_allowed (header_get request.header (codes "Content-Type"))
          config.content_types

  unfoldable pub capture_request_body : Request → RequestBodyConfig → Bytes → Captured
  capture_request_body request config protocol = elim (request.body) [
    | none ↦ record { body = []; oversized = false; failed = false; left = none }
    | some stream ↦
        if captures request config protocol
        then read_prefix config.maximum_bytes stream
        else record { body = []; oversized = false; failed = false; left = some stream }
  ]
