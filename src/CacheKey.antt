-- ===== src/CacheKey.antt =====
-- The keys of the decision cache, from cache.go: `evaluationCacheKey`, `cacheCompositeKey`,
-- `writeHashPart` and `writeStringMap`. A hash writer is the list of the bytes written so far, and
-- `digest` stands for the lower-case hexadecimal text of their SHA-256 sum.
pub mod Fields
mod Tests
use sokol_traefik_plugin.Prelude.{
  ℕ, Bool, true, false, List, [], ◌∷◌, ◌++◌, map, Option, none, some, ◌==◌, bytes_eq, nat_eq,
  if◌then◌else◌, length,
}
use sokol_traefik_plugin.Prelude.GoMap.{lookup}
use sokol_traefik_plugin.Text.{Bytes, codes, to_lower, format_uint}
use sokol_traefik_plugin.Text.Order.{sort_by}
use sokol_traefik_plugin.Wire.{EvaluationRequest, EvaluationResponse}

unfoldable pub write_hash_part : Bytes → Bytes
write_hash_part value = value ++ 0 ∷ []

-- `values[key]`, the empty string where the key is missing.
unfoldable pub value_of : List (Bytes × Bytes) → Bytes → Bytes
unfolding lookup
value_of values key = elim (lookup key values) [ none ↦ [] | some v ↦ v ]

unfoldable pub write_keys : List (Bytes × Bytes) → List Bytes → Bytes
unfolding write_hash_part value_of to_lower
write_keys values [] = []
write_keys values (key ∷ keys) =
    write_hash_part (to_lower key)
    ++ (write_hash_part (value_of values key) ++ write_keys values keys)

unfoldable pub write_string_map : List (Bytes × Bytes) → Bytes
unfolding write_keys sort_by
write_string_map values = write_keys values (sort_by (λ s. s) (map (λ e. e.0) values))

abbrev pub mark : Bool → Bytes → Bytes
mark b text = if b then write_hash_part text else []

-- What the nine plain fields contribute, and what follows them.
unfoldable pub write_fields : EvaluationRequest → Bytes → Bytes
unfolding write_hash_part
write_fields r rest =
    write_hash_part r.client_ip
    ++ (write_hash_part r.method
        ++ (write_hash_part r.scheme
            ++ (write_hash_part r.host
                ++ (write_hash_part r.path
                    ++ (write_hash_part r.query
                        ++ (write_hash_part r.protocol_type
                            ++ (write_hash_part r.http_version
                                ++ (write_hash_part r.resource_hint ++ rest))))))))

unfoldable pub write_marks : EvaluationRequest → Bytes
unfolding write_hash_part
write_marks r =
    mark r.body_truncated (codes "body-truncated")
    ++ (mark r.headers_truncated (codes "headers-truncated")
        ++ mark r.cookies_truncated (codes "cookies-truncated"))

module _ (digest : Bytes → Bytes) where
  unfoldable pub write_body : EvaluationRequest → Bytes
  unfolding write_hash_part
  write_body r = if length r.body == 0 then [] else write_hash_part (digest r.body)

  -- Everything that `evaluationCacheKey` hashes.
  unfoldable pub hashed : EvaluationRequest → Bytes
  unfolding write_fields write_marks write_string_map write_body
  hashed r = write_fields r (
      write_marks r ++ (write_string_map r.headers ++ (write_string_map r.cookies ++ write_body r)))

  unfoldable pub evaluation_cache_key : EvaluationRequest → Bytes
  unfolding hashed
  evaluation_cache_key request = digest (hashed request)

  unfoldable pub cache_composite_key : EvaluationRequest → EvaluationResponse → Bytes
  unfolding write_hash_part evaluation_cache_key format_uint
  cache_composite_key request response = digest (
      write_hash_part (evaluation_cache_key request)
      ++ (write_hash_part request.client_ip
          ++ (write_hash_part response.resource_id
              ++ (write_hash_part response.decision_scope
                  ++ (write_hash_part (format_uint response.policy_revision)
                      ++ write_hash_part response.cache_key)))))
