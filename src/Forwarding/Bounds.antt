-- ===== src/Forwarding/Bounds.antt =====
-- The bounds on what is forwarded: number, bytes, names and values of the fields.
use sokol_traefik_plugin.Prelude.{
  ℕ, zero, suc, ◌+◌, ◌≤◌, ◌≡◌, ◌⊎◌, inl, inr, refl, Bool, true, false, ◌||◌, List, [], ◌∷◌, ltb,
  leb, ◌==◌, bytes_eq, bytes_beq_iff, length, length-take-le, take, All, Bool-cases, Option-cases,
  arith, ℤ, pos, negsuc,
}
use sokol_traefik_plugin.Prelude.GoMap.{lookup, insert, length-insert_new, length-insert_old}
use sokol_traefik_plugin.Text.{Bytes, codes, contains_any, to_lower, join, format_uint}
use sokol_traefik_plugin.Net.{Header, Request, values}
use sokol_traefik_plugin.Forwarding.{
  maximum_forwarded_value_bytes, maximum_forwarded_fields, maximum_forwarded_bytes,
  ForwardingPolicy, Taken, nothing_taken, flag, valid_header_name, valid_cookie_name, line_breaks,
  take_within, take_field, take_header, take_headers, add_content_length, add_transfer_encoding,
  forwarded_cookies, take_cookie, take_cookies, first_cookies, cookie_names, cookie_value,
}

-- The bytes of all names and values.
abbrev pub size : List (Bytes × Bytes) → ℕ
size [] = 0
size ((name, value) ∷ m) = length name + length value + size m

-- A field that may be forwarded.
pub record IsSound (name value : Bytes) : Type 0 where
  pub valid_name : valid_header_name name ≡ true
  pub short_name : length name ≤ 128
  pub short_value : length value ≤ 4096
  pub one_line : contains_any value line_breaks ≡ false

abbrev pub AllSound : List (Bytes × Bytes) → Type 0
AllSound m = All (λ f. IsSound f.0 f.1) m

pub record IsBounded (t : Taken) : Type 0 where
  pub fields : length t.result ≤ 128
  pub counted : size t.result ≤ t.total
  pub bytes : t.total ≤ 65_536
  pub sound : AllSound t.result

pub nothing_taken-IsBounded : (b : Bool) → IsBounded (nothing_taken b)
nothing_taken-IsBounded b = omega arith

size-insert-le :
    (name value : Bytes) (m : List (Bytes × Bytes))
    → size (insert name value m) ≤ size m + (length name + length value)
unfolding insert
size-insert-le name value [] = omega arith
size-insert-le name value ((n, v) ∷ m) =
    ground (arith, size-insert-le name value m, bytes_beq_iff n name)

insert-AllSound :
    (name value : Bytes) (m : List (Bytes × Bytes))
    → IsSound name value
    → AllSound m
    → AllSound (insert name value m)
unfolding insert
insert-AllSound name value [] h k = (h, tt)
insert-AllSound name value ((n, v) ∷ m) h k = elim (Bool-cases (n == name)) [
  | inl same ↦ rw same (h, k.1)
  | inr other ↦ rw other (k.0, insert-AllSound name value m h k.1)
]

length-insert-le :
    (name value : Bytes) (m : List (Bytes × Bytes)) → length (insert name value m) ≤ length m + 1
length-insert-le name value m = elim (Option-cases (lookup name m)) [
  | inl new ↦ omega (arith, length-insert_new name value m new)
  | inr (v, old) ↦ ground (arith, length-insert_old name value m)
]

take_within-IsBounded :
    (name value : Bytes) (t : Taken)
    → IsSound name value
    → IsBounded t
    → IsBounded (take_within name value t)
unfolding take_within
take_within-IsBounded name value t h b =
    elim (Bool-cases (
      leb maximum_forwarded_fields (length t.result)
      || ltb maximum_forwarded_bytes (t.total + length name + length value))) [
        | inl full ↦
            rw full
              (record { fields = b.fields; counted = b.counted; bytes = b.bytes; sound = b.sound })
        | inr room ↦ rw room (record {
          fields = ground (arith, b.fields, length-insert-le name value t.result);
          counted = omega (arith, b.counted, size-insert-le name value t.result);
          bytes = ground (arith, b.bytes);
          sound = insert-AllSound name value t.result h b.sound;
        })
      ]

flag-IsBounded : (t : Taken) → IsBounded t → IsBounded (flag t)
flag-IsBounded t b = record {
  fields = b.fields;
  counted = b.counted;
  bytes = b.bytes;
  sound = b.sound;
}

take_one_line :
    (n : ℕ) (s : Bytes)
    → contains_any s line_breaks ≡ false
    → contains_any (take n s) line_breaks ≡ false
unfolding contains_any take
take_one_line zero s h = refl
take_one_line (suc n) [] h = refl
take_one_line (suc n) (c ∷ s) h = ground (arith, take_one_line n s)

take_field-IsBounded :
    (name value : Bytes) (t : Taken)
    → valid_header_name name ≡ true
    → length name ≤ 128
    → contains_any value line_breaks ≡ false
    → IsBounded t
    → IsBounded (take_field name value t)
unfolding take_field
take_field-IsBounded name value t valid short clean b =
    elim (Bool-cases (ltb maximum_forwarded_value_bytes (length value))) [
      | inl long ↦ rw long (
          take_within-IsBounded name (take maximum_forwarded_value_bytes value) (flag t)
            (record {
              valid_name = valid;
              short_name = short;
              short_value = length-take-le maximum_forwarded_value_bytes value;
              one_line = take_one_line maximum_forwarded_value_bytes value clean;
            })
            (flag-IsBounded t b))
      | inr fits ↦ rw fits (
          take_within-IsBounded name value t
            (record {
              valid_name = valid;
              short_name = short;
              short_value = ground arith;
              one_line = clean;
            })
            b)
    ]

-- A round takes nothing, sets the flag, or takes the joined values under the name in lower case.
pub take_header_cases :
    (header : Header) (name : Bytes) (t : Taken)
    → (take_header header name t ≡ t)
      ⊎ ((take_header header name t ≡ flag t)
          ⊎ ((valid_header_name (to_lower name) ≡ true)
              × (length (to_lower name) ≤ 128)
              × (contains_any (join (values header name) (codes ", ")) line_breaks ≡ false)
              × (take_header header name t
                  ≡ take_field (to_lower name) (join (values header name) (codes ", ")) t)))
unfolding take_header
take_header_cases header name t = ground arith

take_header-IsBounded :
    (header : Header) (name : Bytes) (t : Taken)
    → IsBounded t
    → IsBounded (take_header header name t)
take_header-IsBounded header name t b = elim (take_header_cases header name t) [
  | inl same ↦ rw same b
  | inr (inl flagged) ↦ rw flagged (flag-IsBounded t b)
  | inr (inr (valid, short, clean, taken)) ↦
      rw taken (take_field-IsBounded (to_lower name) _ t valid short clean b)
]

pub take_headers-IsBounded :
    (header : Header) (names : List Bytes) (t : Taken)
    → IsBounded t
    → IsBounded (take_headers header names t)
unfolding take_headers
take_headers-IsBounded header [] t b = b
take_headers-IsBounded header (name ∷ names) t b =
    take_headers-IsBounded header names (take_header header name t)
      (take_header-IsBounded header name t b)

pub take_cookie_cases :
    (first : List (Bytes × Bytes)) (name : Bytes) (t : Taken)
    → (take_cookie first name t ≡ flag t)
      ⊎ ((valid_header_name name ≡ true)
          × (length name ≤ 128)
          × (contains_any (cookie_value first name) line_breaks ≡ false)
          × (take_cookie first name t ≡ take_field name (cookie_value first name) t))
unfolding take_cookie valid_cookie_name
take_cookie_cases first name t = ground arith

take_cookie-IsBounded :
    (first : List (Bytes × Bytes)) (name : Bytes) (t : Taken)
    → IsBounded t
    → IsBounded (take_cookie first name t)
take_cookie-IsBounded first name t b = elim (take_cookie_cases first name t) [
  | inl flagged ↦ rw flagged (flag-IsBounded t b)
  | inr (valid, short, clean, taken) ↦ rw taken (take_field-IsBounded name _ t valid short clean b)
]

take_cookies-IsBounded :
    (first : List (Bytes × Bytes)) (names : List Bytes) (t : Taken)
    → IsBounded t
    → IsBounded (take_cookies first names t)
unfolding take_cookies
take_cookies-IsBounded first [] t b = b
take_cookies-IsBounded first (name ∷ names) t b =
    take_cookies-IsBounded first names (take_cookie first name t)
      (take_cookie-IsBounded first name t b)

-- The forwarded cookies are at most 128, hold at most 64 KiB of names and values, and each has a
-- valid name of at most 128 bytes and a value of at most 4096 bytes without NUL, CR or LF.
pub forwarded_cookies-bounds :
    (p : ForwardingPolicy) (request : Request)
    → (length (forwarded_cookies p request).0 ≤ 128)
      × (size (forwarded_cookies p request).0 ≤ 65_536)
      × AllSound (forwarded_cookies p request).0
unfolding forwarded_cookies
forwarded_cookies-bounds p request =
    let parsed = first_cookies [] request.cookies false in
    let b =
      take_cookies-IsBounded parsed.0 (cookie_names p parsed.0) (nothing_taken parsed.1)
        (nothing_taken-IsBounded parsed.1) in
    (b.fields, omega (arith, b.counted, b.bytes), b.sound)

magnitude : ℤ → ℕ
magnitude (pos n) = n
magnitude (negsuc n) = 0

pub length-add_content_length :
    (request : Request) (m : List (Bytes × Bytes))
    → length (add_content_length request m) ≤ length m + 1
unfolding add_content_length magnitude
length-add_content_length request m = ground (
  arith,
  length-insert-le (codes "content-length") (format_uint (magnitude request.content_length)) m,
)

pub length-add_transfer_encoding :
    (request : Request) (m : List (Bytes × Bytes))
    → length (add_transfer_encoding request m) ≤ length m + 1
unfolding add_transfer_encoding
length-add_transfer_encoding request m = ground (
  arith,
  length-insert-le (codes "transfer-encoding") (join request.transfer_encoding (codes ", ")) m,
)
