-- ===== src/Body/Replay.antt =====
-- The next handler still reads the whole body, and the Agent sees all of it or nothing.
use sokol_traefik_plugin.Prelude.{
  ℕ, zero, suc, ◌+◌, ◌≡◌, inl, inr, refl, ap, true, false, [], ◌∷◌, ◌++◌, Option, some, ltb, leb,
  if◌then◌else◌, length, take, drop, take_of_length-le, Option-cases, arith,
}
use native.Mathlib.Numerals.{add-one}
use sokol_traefik_plugin.Text.{Bytes}
use sokol_traefik_plugin.Net.{BodyStream, Request}
use sokol_traefik_plugin.Body.{RequestBodyConfig, read_prefix, captures, capture_request_body}

take-append-drop : (n : ℕ) (s : Bytes) → take n s ++ drop n s ≡ s
unfolding take drop
take-append-drop zero s = refl
take-append-drop (suc n) [] = refl
take-append-drop (suc n) (c ∷ s) = ap (◌∷◌ c) (take-append-drop n s)

ltb-length-take : (n : ℕ) (s : Bytes) → ltb n (length (take (suc n) s)) ≡ ltb n (length s)
unfolding take
ltb-length-take n [] = refl
ltb-length-take zero (c ∷ s) = ground arith
ltb-length-take (suc n) (c ∷ s) = ground (arith, ltb-length-take n s)

read_prefix_left : (limit : ℕ) (stream : BodyStream) → (read_prefix limit stream).left ≡ some stream
unfolding read_prefix
read_prefix_left limit stream = ground (arith, take-append-drop (limit + 1) stream.bytes)

read_prefix_whole :
    (limit : ℕ) (stream : BodyStream)
    → stream.broken ≡ false
    → ((read_prefix limit stream).body
        ≡ (if leb (length stream.bytes) limit then stream.bytes else []))
      × ((read_prefix limit stream).oversized ≡ ltb limit (length stream.bytes))
      × ((read_prefix limit stream).failed ≡ false)
unfolding read_prefix
read_prefix_whole limit stream sound =
    rw (sound, add-one limit)
      (ground
        (arith, ltb-length-take limit stream.bytes, take_of_length-le (suc limit) stream.bytes))

-- Whatever is captured, cut or refused, the next handler finds the body as it came.
pub capture_request_body_left :
    (parse_media_type : Bytes → Option Bytes) (request : Request) (config : RequestBodyConfig)
    (protocol : Bytes)
    → (capture_request_body parse_media_type request config protocol).left ≡ request.body
unfolding capture_request_body
capture_request_body_left parse_media_type request config protocol =
    elim (Option-cases request.body) [
      | inl absent ↦ ground arith
      | inr (stream, there) ↦ ground (arith, read_prefix_left config.maximum_bytes stream)
    ]

-- A body that is captured and can be read whole goes to the Agent whole where it has at most the
-- configured bytes; otherwise it is reported as too large, and none of it goes.
pub capture_request_body_whole :
    (parse_media_type : Bytes → Option Bytes) (request : Request) (config : RequestBodyConfig)
    (protocol : Bytes) (stream : BodyStream)
    → request.body ≡ some stream
    → stream.broken ≡ false
    → captures parse_media_type request config protocol ≡ true
    → ((capture_request_body parse_media_type request config protocol).body
        ≡ (if leb (length stream.bytes) config.maximum_bytes then stream.bytes else []))
      × ((capture_request_body parse_media_type request config protocol).oversized
          ≡ ltb config.maximum_bytes (length stream.bytes))
      × ((capture_request_body parse_media_type request config protocol).failed ≡ false)
unfolding capture_request_body
capture_request_body_whole parse_media_type request config protocol stream there sound on =
    ground (arith, read_prefix_whole config.maximum_bytes stream sound)
