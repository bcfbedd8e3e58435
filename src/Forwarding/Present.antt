-- ===== src/Forwarding/Present.antt =====
-- Which headers the loop leaves out where it does not set the flag.
use sokol_traefik_plugin.Prelude.{
  ◌≡◌, ◌≢◌, ◌⊎◌, inl, inr, false, List, [], ◌∷◌, none, ◌==◌, bytes_eq, bytes_beq_iff, All,
  Bool-cases, Option-cases, refl, arith,
}
use sokol_traefik_plugin.Prelude.GoMap.{lookup, insert, has, lookup-insert}
use sokol_traefik_plugin.Text.{Bytes, codes, to_lower, join}
use sokol_traefik_plugin.Net.{Header, values}
use sokol_traefik_plugin.Forwarding.{Taken, take_field, take_header, take_headers}
use sokol_traefik_plugin.Forwarding.Bounds.{take_header_cases}
use sokol_traefik_plugin.Forwarding.Complete.{take_field_unflagged}

-- The header is taken, or it has no value or is that of the cookies.
abbrev pub IsTreated : Header → Taken → Bytes → Type 0
IsTreated header t name =
    (values header name ≡ [])
    ⊎ ((to_lower name ≡ codes "cookie") ⊎ (lookup (to_lower name) t.result ≢ none))

-- A field stays once it is taken.
insert_keeps :
    (k v key : Bytes) (m : List (Bytes × Bytes))
    → lookup key m ≢ none
    → lookup key (insert k v m) ≢ none
insert_keeps k v key m h e = h (ground (arith, e, lookup-insert k key v m))

take_field-IsTreated :
    (header : Header) (name : Bytes) (t u : Taken)
    → u ≡ take_field (to_lower name) (join (values header name) (codes ", ")) t
    → u.truncated ≡ false
    → (t.truncated ≡ false) × IsTreated header u name
take_field-IsTreated header name t u same h =
    let key = to_lower name in
    let value = join (values header name) (codes ", ") in
    let kept = take_field_unflagged key value t (rw same at h) in
    (
      kept.0,
      inr (
          inr (λ e.
            ground (
              arith,
              e,
              same,
              kept.1,
              lookup-insert key key value t.result,
              bytes_beq_iff key key,
            ))),
    )

take_header_unflagged :
    (header : Header) (name : Bytes) (t : Taken)
    → (take_header header name t).truncated ≡ false
    → (t.truncated ≡ false) × IsTreated header (take_header header name t) name
unfolding take_header has
take_header_unflagged header name t h = by_values (values header name) refl
  where
    by_values :
        (vs : List Bytes)
        → values header name ≡ vs
        → (t.truncated ≡ false) × IsTreated header (take_header header name t) name
    by_values [] e = (ground (arith, e, h), inl e)
    by_values (v ∷ vs) e = elim (Bool-cases (to_lower name == codes "cookie")) [
      | inl cookie ↦ (
        ground (arith, e, h, cookie),
        inr (inl ((bytes_beq_iff (to_lower name) (codes "cookie")).0 cookie)),
      )
      | inr other ↦ elim (Option-cases (lookup (to_lower name) t.result)) [
        | inr (w, there) ↦ (
          ground (arith, e, h, other, there),
          inr (inr (λ absent. ground (arith, e, other, there, absent))),
        )
        | inl new ↦
            take_field-IsTreated header name t (take_header header name t)
              (ground (arith, e, h, other, new)) h
      ]
    ]

take_header_keeps :
    (header : Header) (name key : Bytes) (t : Taken)
    → (take_header header name t).truncated ≡ false
    → lookup key t.result ≢ none
    → lookup key (take_header header name t).result ≢ none
take_header_keeps header name key t h there = elim (take_header_cases header name t) [
  | inl same ↦ rw same there
  | inr (inl flagged) ↦ rw flagged there
  | inr (inr (valid, short, clean, taken)) ↦
      let value = join (values header name) (codes ", ") in
      let kept = take_field_unflagged (to_lower name) value t (rw taken at h) in
      rw (taken, kept.1) (insert_keeps (to_lower name) value key t.result there)
]

take_headers_unflagged :
    (header : Header) (names : List Bytes) (t : Taken)
    → (take_headers header names t).truncated ≡ false
    → t.truncated ≡ false
unfolding take_headers
take_headers_unflagged header [] t h = h
take_headers_unflagged header (name ∷ names) t h =
    (take_header_unflagged header name t
      (take_headers_unflagged header names (take_header header name t) h)).0

take_headers_keeps :
    (header : Header) (names : List Bytes) (t : Taken) (key : Bytes)
    → (take_headers header names t).truncated ≡ false
    → lookup key t.result ≢ none
    → lookup key (take_headers header names t).result ≢ none
unfolding take_headers
take_headers_keeps header [] t key h there = there
take_headers_keeps header (name ∷ names) t key h there =
    let u = take_header header name t in
    take_headers_keeps header names u key h
      (take_header_keeps header name key t (take_headers_unflagged header names u h) there)

-- Where the flag is not set every header of the list is taken that has a value and is not that of
-- the cookies.
pub take_headers-IsTreated :
    (header : Header) (names : List Bytes) (t : Taken)
    → (take_headers header names t).truncated ≡ false
    → All (IsTreated header (take_headers header names t)) names
unfolding take_headers
take_headers-IsTreated header [] t h = tt
take_headers-IsTreated header (name ∷ names) t h =
    let u = take_header header name t in
    (
      elim (take_header_unflagged header name t (take_headers_unflagged header names u h)).1 [
        | inl empty ↦ inl empty
        | inr (inl cookie) ↦ inr (inl cookie)
        | inr (inr there) ↦ inr (inr (take_headers_keeps header names u (to_lower name) h there))
      ],
      take_headers-IsTreated header names u h,
    )
