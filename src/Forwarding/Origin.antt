-- ===== src/Forwarding/Origin.antt =====
-- Where the forwarded headers come from, and that the loop's fields stay in what is forwarded.
use sokol_traefik_plugin.Prelude.{
  ◌+◌, ap, Any-map, ◌≤◌, ◌≡◌, refl, subst, inl, inr, ◌⊎◌, true, false, ◌&&◌, ◌||◌, List, [], ◌∷◌,
  Option, some, ltb, leb, ◌==◌, ◌!=◌, bytes_eq, if◌then◌else◌, length, take, take_of_length-le, All,
  All-map, Any, Bool-cases, arith, ℤ, pos, negsuc,
}
use sokol_traefik_plugin.Prelude.GoMap.{lookup, lookup-insert, All-insert}
use sokol_traefik_plugin.Text.{Bytes, codes, to_lower, join, format_uint}
use sokol_traefik_plugin.Net.{Header, Request, values}
use sokol_traefik_plugin.Forwarding.{
  ForwardingPolicy, Taken, nothing_taken, take_within, take_field, take_header, take_headers,
  header_names, add_content_length, add_transfer_encoding, forwarded_headers,
  maximum_forwarded_fields, maximum_forwarded_bytes, maximum_forwarded_value_bytes, flag,
}
use sokol_traefik_plugin.Forwarding.Present.{IsTreated, take_headers-IsTreated}
use sokol_traefik_plugin.Forwarding.Bounds.{
  IsBounded, nothing_taken-IsBounded, take_header_cases, take_headers-IsBounded,
  length-add_content_length, length-add_transfer_encoding,
}

-- The values of the header, joined and cut at 4096 bytes, under the name in lower case.
abbrev field_of : Header → Bytes → Bytes × Bytes
field_of header name = (to_lower name, take 4096 (join (values header name) (codes ", ")))

-- Every field is the one of a header of the list.
abbrev pub AllOf : Header → List Bytes → List (Bytes × Bytes) → Type 0
AllOf header names fields =
    All
      (λ f.
        Any
          (λ name.
            (f.0 ≡ to_lower name) × (f.1 ≡ take 4096 (join (values header name) (codes ", "))))
          names)
      fields

module _ (P : Bytes × Bytes → Type 0) where
  take_within-All :
      (name value : Bytes) (t : Taken)
      → P (name, value)
      → All P t.result
      → All P (take_within name value t).result
  unfolding take_within
  take_within-All name value t p h =
      elim (Bool-cases (
        leb maximum_forwarded_fields (length t.result)
        || ltb maximum_forwarded_bytes (t.total + length name + length value))) [
          | inl full ↦ rw full h
          | inr room ↦ rw room (All-insert P name value t.result p h)
        ]

  take_field-All :
      (name value : Bytes) (t : Taken)
      → P (name, take 4096 value)
      → All P t.result
      → All P (take_field name value t).result
  unfolding take_field
  take_field-All name value t p h =
      elim (Bool-cases (ltb maximum_forwarded_value_bytes (length value))) [
        | inl long ↦ rw long (take_within-All name (take 4096 value) (flag t) p h)
        | inr fits ↦ rw fits (
            take_within-All name value t
              (subst (λ v. P (name, v)) (take_of_length-le 4096 value (ground (arith, fits))) p) h)
      ]

  take_headers-All :
      (header : Header) (names : List Bytes) (t : Taken)
      → All (λ name. P (field_of header name)) names
      → All P t.result
      → All P (take_headers header names t).result
  unfolding take_headers
  take_headers-All header [] t p h = h
  take_headers-All header (name ∷ names) t p h =
      take_headers-All header names (take_header header name t) p.1
        (elim (take_header_cases header name t) [
          | inl same ↦ rw same h
          | inr (inl flagged) ↦ rw flagged h
          | inr (inr (valid, short, clean, taken)) ↦
              rw taken (take_field-All (to_lower name) _ t p.0 h)
        ])

members : (names : List Bytes) → All (λ name. Any (λ other. name ≡ other) names) names
members [] = tt
members (name ∷ names) = (inl refl, All-map _ _ names (λ x h. inr h) (members names))

take_headers-AllOf :
    (header : Header) (names : List Bytes)
    → AllOf header names (take_headers header names (nothing_taken false)).result
take_headers-AllOf header names =
    take_headers-All _ header names (nothing_taken false)
      (All-map _ _ names
        (λ name found.
          Any-map _ _ names
            (λ other same. (ap (λ n. to_lower n) same, ap (λ n. (field_of header n).1) same)) found)
        (members names))
      tt

-- What the name stands for once the content length and the transfer encoding are set.
abbrev with_length : Request → Bytes → Option Bytes → Option Bytes
with_length request name taken = elim (request.content_length) [
  | negsuc n ↦ taken
  | pos n ↦
      if request.method != codes "GET" && request.method != codes "HEAD"
      then if codes "content-length" == name then some (format_uint n) else taken
      else taken
]

abbrev pub described : Request → Bytes → Option Bytes → Option Bytes
described request name taken =
    if ltb 0 (length request.transfer_encoding)
    then if codes "transfer-encoding" == name
      then some (join request.transfer_encoding (codes ", "))
      else with_length request name taken
    else with_length request name taken

lookup-add_content_length :
    (request : Request) (name : Bytes) (m : List (Bytes × Bytes))
    → lookup name (add_content_length request m) ≡ with_length request name (lookup name m)
unfolding add_content_length
lookup-add_content_length request name m = by_length request.content_length refl
  where
    by_length :
        (n : ℤ)
        → request.content_length ≡ n
        → lookup name (add_content_length request m) ≡ with_length request name (lookup name m)
    by_length (negsuc n) e = rw (e, add_content_length) refl
    by_length (pos n) e =
        elim (Bool-cases (request.method != codes "GET" && request.method != codes "HEAD")) [
          | inl sent ↦
              rw (e, sent, add_content_length)
                (lookup-insert (codes "content-length") name (format_uint n) m)
          | inr unsent ↦ rw (e, unsent, add_content_length) refl
        ]

lookup-add_transfer_encoding :
    (request : Request) (name : Bytes) (m : List (Bytes × Bytes))
    → lookup name (add_transfer_encoding request (add_content_length request m))
      ≡ described request name (lookup name m)
unfolding add_transfer_encoding
lookup-add_transfer_encoding request name m =
    let sized = lookup-add_content_length request name m in
    elim (Bool-cases (ltb 0 (length request.transfer_encoding))) [
      | inl coded ↦
          rw
            (
              coded,
              lookup-insert (codes "transfer-encoding") name
                  (join request.transfer_encoding (codes ", ")) (add_content_length request m),
              sized,
            )
            refl
      | inr plain ↦ rw plain sized
    ]

pub forwarded_headers-bounds :
    (p : ForwardingPolicy) (request : Request) (name : Bytes)
    → let t = take_headers request.header (header_names p request) (nothing_taken false) in
      IsBounded t
      × AllOf request.header (header_names p request) t.result
      × (((forwarded_headers p request).1 ≡ true)
          ⊎ All (IsTreated request.header t) (header_names p request))
      × (lookup name (forwarded_headers p request).0
          ≡ described request name (lookup name t.result))
      × (length (forwarded_headers p request).0 ≤ 130)
unfolding forwarded_headers
forwarded_headers-bounds p request name =
    let names = header_names p request in
    let t = take_headers request.header names (nothing_taken false) in
    let b =
      take_headers-IsBounded request.header names (nothing_taken false)
        (nothing_taken-IsBounded false) in
    (
      b,
      take_headers-AllOf request.header names,
      elim (Bool-cases t.truncated) [
        | inl cut ↦ inl cut
        | inr whole ↦ inr (take_headers-IsTreated request.header names (nothing_taken false) whole)
      ],
      lookup-add_transfer_encoding request name t.result,
      omega (
        arith,
        b.fields,
        length-add_content_length request t.result,
        length-add_transfer_encoding request (add_content_length request t.result),
      ),
    )
