-- ===== src/Cache/Reads.antt =====
-- What can be read after a `put`, and what a full cache gives up.
use sokol_traefik_plugin.Prelude.{
  ℕ, ◌+◌, ◌≤◌, ◌<◌, ◌≡◌, ◌≢◌, ◌∙◌, ap, false, ◌||◌, Option, some, ◌==◌, bytes_eq, nat_eq,
  bytes_beq_iff, arith,
}
use sokol_traefik_plugin.Prelude.GoMap.{lookup}
use sokol_traefik_plugin.Text.{Bytes}
use sokol_traefik_plugin.Wire.{EvaluationRequest, EvaluationResponse}
use sokol_traefik_plugin.CacheKey.{evaluation_cache_key, cache_composite_key}
use sokol_traefik_plugin.Cache.{
  DecisionCacheEntry, DecisionCache, get, put, store, use_entry, refuses, advance, entry_of,
  time_to_live,
}
use sokol_traefik_plugin.Cache.Storing.{lookup-store, store_index, store_settings}

refuses_enabled :
    (c : DecisionCache) (response : EvaluationResponse)
    → refuses c response ≡ false
    → (c.maximum_entries == 0 || c.maximum_ttl == 0) ≡ false
unfolding refuses
refuses_enabled c response h = ground arith

advance_recent :
    (revision : ℕ) (c : DecisionCache)
    → c.latest_revision ≤ revision
    → ((advance revision c).latest_revision ≡ revision)
      × ((advance revision c).maximum_entries ≡ c.maximum_entries)
      × ((advance revision c).maximum_ttl ≡ c.maximum_ttl)
unfolding advance
advance_recent revision c h = ground arith

-- An entry that the index leads to is the one that `get` looks at.
get_found :
    (digest : Bytes → Bytes) (c : DecisionCache) (request : EvaluationRequest) (request_id : Bytes)
    (now : ℕ) (composite : Bytes) (e : DecisionCacheEntry)
    → (c.maximum_entries == 0 || c.maximum_ttl == 0) ≡ false
    → lookup (evaluation_cache_key digest request) c.request_index ≡ some composite
    → lookup composite c.entries ≡ some e
    → get digest c request request_id now
      ≡ use_entry c (evaluation_cache_key digest request) composite e request_id now
unfolding get
get_found digest c request request_id now composite e on listed found = rw (on, listed, found)

module _ (digest : Bytes → Bytes) (c : DecisionCache) (request : EvaluationRequest)
    (response : EvaluationResponse) (now : ℕ) (taken : refuses c response ≡ false)
    (alive : time_to_live c.maximum_ttl response.cache_ttl_ms ≢ 0)
    (recent : c.latest_revision ≤ response.policy_revision) where
  put-store :
      put digest c request response now
      ≡ store
          (advance response.policy_revision c)
          (entry_of digest request response now (time_to_live c.maximum_ttl response.cache_ttl_ms))
          now
  unfolding put
  put-store = ground arith

  abbrev entry : DecisionCacheEntry
  entry = entry_of digest request response now (time_to_live c.maximum_ttl response.cache_ttl_ms)

  abbrev stored : DecisionCache
  stored = store (advance response.policy_revision c) entry now

  use_entry_stored :
      (request_id : Bytes) (later : ℕ)
      → later < now + time_to_live c.maximum_ttl response.cache_ttl_ms
      → (use_entry stored
          (evaluation_cache_key digest request)
          (cache_composite_key digest request response)
          entry
          request_id
          later).1
        ≡ some (record response { request_id = request_id })
  unfolding use_entry entry_of
  use_entry_stored request_id later h = ground (
    arith,
    bytes_beq_iff (evaluation_cache_key digest request) (evaluation_cache_key digest request),
    store_settings (advance response.policy_revision c) entry now,
    advance_recent response.policy_revision c recent,
  )

  -- What a `put` takes on, a `get` for the same request reads until it expires, under the ID of the
  -- new request.
  pub get-put :
      (request_id : Bytes) (later : ℕ)
      → later < now + time_to_live c.maximum_ttl response.cache_ttl_ms
      → (get digest (put digest c request response now) request request_id later).1
        ≡ some (record response { request_id = request_id })
  unfolding entry_of
  get-put request_id later h =
      let d = advance response.policy_revision c in
      let fingerprint = evaluation_cache_key digest request in
      let composite = cache_composite_key digest request response in
      let listed : lookup fingerprint stored.request_index ≡ some composite =
        ground
          (arith, store_index d entry now fingerprint, bytes_beq_iff fingerprint fingerprint) in
      let found : lookup composite stored.entries ≡ some entry =
        ground (arith, lookup-store d entry now composite, bytes_beq_iff composite composite) in
      let on : (stored.maximum_entries == 0 || stored.maximum_ttl == 0) ≡ false = ground (
        arith,
        store_settings d entry now,
        advance_recent response.policy_revision c recent,
        refuses_enabled c response taken,
      ) in
      ap (λ x. (get digest x request request_id later).1) put-store
      ∙ ap (λ (x : DecisionCache × Option EvaluationResponse). x.1)
          (get_found digest stored request request_id later composite entry on listed found)
      ∙ use_entry_stored request_id later h
