-- ===== src/Cache/Confused.antt =====
-- An answer of the cache to a request that it was not stored for.
use sokol_traefik_plugin.Prelude.{ℕ, ◌+◌, ◌≤◌, ◌<◌, ◌≡◌, ◌≢◌, false, List, [], some}
use sokol_traefik_plugin.Text.{Bytes}
use sokol_traefik_plugin.Wire.{EvaluationRequest, EvaluationResponse}
use sokol_traefik_plugin.CacheKey.{evaluation_cache_key, hashed}
use sokol_traefik_plugin.Cache.{DecisionCache, get, put, refuses, time_to_live}
use sokol_traefik_plugin.Cache.Reads.{get-put}

-- A response that the cache takes on for a request with these headers and no cookies is also served,
-- until it expires, to a request with no headers and these very names and values as its cookies,
-- and which is the same in all else.
pub get-put_moved :
    (digest : Bytes → Bytes) (c : DecisionCache) (r : EvaluationRequest)
    (fields : List (Bytes × Bytes)) (response : EvaluationResponse) (now : ℕ) (request_id : Bytes)
    (later : ℕ)
    → refuses c response ≡ false
    → time_to_live c.maximum_ttl response.cache_ttl_ms ≢ 0
    → c.latest_revision ≤ response.policy_revision
    → later < now + time_to_live c.maximum_ttl response.cache_ttl_ms
    → (get digest
        (put digest c (record r { headers = fields; cookies = [] }) response now)
        (record r { headers = []; cookies = fields })
        request_id
        later).1
      ≡ some (record response { request_id = request_id })
unfolding get evaluation_cache_key hashed
get-put_moved digest c r fields response now request_id later taken alive recent h =
    get-put digest c (record r { headers = fields; cookies = [] }) response now taken alive recent
      request_id later h
