-- ===== src/CacheKey/Fields.antt =====
-- What the cache key tells apart: two requests with one key agree on the client, the method, the
-- target and the protocol.
use sokol_traefik_plugin.Prelude.{
  ◌≡◌, ◌≢◌, ◌⊎◌, inl, inr, Bool-cases, ◌==◌, bytes_eq, bytes_beq_iff, [], ◌∷◌, ◌++◌, All, arith,
}
use sokol_traefik_plugin.Text.{Bytes}
use sokol_traefik_plugin.Wire.{EvaluationRequest}
use sokol_traefik_plugin.CacheKey.{write_hash_part, write_fields, hashed, evaluation_cache_key}

-- No byte of the text is the separator.
abbrev pub NoNul : Bytes → Type 0
NoNul s = All (λ c. c ≢ 0) s

-- A part ends at the first separator.
write_hash_part_injective :
    (s t rest rest' : Bytes)
    → NoNul s
    → NoNul t
    → write_hash_part s ++ rest ≡ write_hash_part t ++ rest'
    → (s ≡ t) × (rest ≡ rest')
unfolding write_hash_part
write_hash_part_injective [] [] rest rest' h k e = ground arith
write_hash_part_injective [] (y ∷ t) rest rest' h k e = ground arith
write_hash_part_injective (x ∷ s) [] rest rest' h k e = ground arith
write_hash_part_injective (x ∷ s) (y ∷ t) rest rest' h k e =
    ground (arith, write_hash_part_injective s t rest rest' h.1 k.1)

-- The fields that HTTP keeps free of the NUL byte.
pub record IsNulFree (r : EvaluationRequest) : Type 0 where
  pub client_ip : NoNul r.client_ip
  pub method : NoNul r.method
  pub scheme : NoNul r.scheme
  pub host : NoNul r.host
  pub path : NoNul r.path
  pub query : NoNul r.query
  pub protocol_type : NoNul r.protocol_type
  pub http_version : NoNul r.http_version
  pub resource_hint : NoNul r.resource_hint

-- The requests agree on what they ask of which resource, for which client.
pub record SameTarget (r s : EvaluationRequest) : Type 0 where
  pub client_ip : r.client_ip ≡ s.client_ip
  pub method : r.method ≡ s.method
  pub scheme : r.scheme ≡ s.scheme
  pub host : r.host ≡ s.host
  pub path : r.path ≡ s.path
  pub query : r.query ≡ s.query
  pub protocol_type : r.protocol_type ≡ s.protocol_type
  pub http_version : r.http_version ≡ s.http_version
  pub resource_hint : r.resource_hint ≡ s.resource_hint

write_fields-SameTarget :
    (r s : EvaluationRequest) (rest rest' : Bytes)
    → IsNulFree r
    → IsNulFree s
    → write_fields r rest ≡ write_fields s rest'
    → SameTarget r s
unfolding write_fields
write_fields-SameTarget r s rest rest' f g e =
    let (client_ip, e1) = write_hash_part_injective _ _ _ _ f.client_ip g.client_ip e in
    let (method, e2) = write_hash_part_injective _ _ _ _ f.method g.method e1 in
    let (scheme, e3) = write_hash_part_injective _ _ _ _ f.scheme g.scheme e2 in
    let (host, e4) = write_hash_part_injective _ _ _ _ f.host g.host e3 in
    let (path, e5) = write_hash_part_injective _ _ _ _ f.path g.path e4 in
    let (query, e6) = write_hash_part_injective _ _ _ _ f.query g.query e5 in
    let (protocol, e7) = write_hash_part_injective _ _ _ _ f.protocol_type g.protocol_type e6 in
    let (version, e8) = write_hash_part_injective _ _ _ _ f.http_version g.http_version e7 in
    let (hint, e9) = write_hash_part_injective _ _ _ _ f.resource_hint g.resource_hint e8 in
    record {
      client_ip = client_ip;
      method = method;
      scheme = scheme;
      host = host;
      path = path;
      query = query;
      protocol_type = protocol;
      http_version = version;
      resource_hint = hint;
    }

-- Where two requests whose fields hold no NUL byte have equal cache keys, they agree on the nine
-- fields, or else the digest takes two different texts to one value.
pub evaluation_cache_key-SameTarget :
    (digest : Bytes → Bytes) (r s : EvaluationRequest)
    → IsNulFree r
    → IsNulFree s
    → evaluation_cache_key digest r ≡ evaluation_cache_key digest s
    → SameTarget r s
      ⊎ ((hashed digest r ≢ hashed digest s)
          × (digest (hashed digest r) ≡ digest (hashed digest s)))
unfolding evaluation_cache_key hashed
evaluation_cache_key-SameTarget digest r s f g e =
    elim (Bool-cases (hashed digest r == hashed digest s)) [
      | inl same ↦ inl (
          write_fields-SameTarget r s _ _ f g
            ((bytes_beq_iff (hashed digest r) (hashed digest s)).0 same))
      | inr other ↦ inr (
        (λ same. ground (arith, other, (bytes_beq_iff (hashed digest r) (hashed digest s)).1 same)),
        e,
      )
    ]
