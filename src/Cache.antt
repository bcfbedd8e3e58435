-- ===== src/Cache.antt =====
-- The decision cache of cache.go: `decisionCache` with `get`, `put` and `deleteEntry`. The order of
-- an association list stands for the order in which Go iterates over the map. Each method holds
-- the mutex from its first access to the state to its end. Times are nanoseconds since Go's zero
-- time; `maximumEntries` and `maximumTTL` are the numbers that `validateConfig` lets through.
pub mod Invariant
pub mod Room
pub mod Storing
pub mod Getting
pub mod Preserved
pub mod History
pub mod Hits
pub mod Reads
pub mod Eviction
pub mod Confused
mod Tests
use sokol_traefik_plugin.Prelude.{
  ℕ, zero, suc, ◌+◌, ◌*◌, Bool, true, false, not, ◌&&◌, ◌||◌, List, [], ◌∷◌, Option, none, some,
  ltb, leb, ◌==◌, ◌!=◌, nat_eq, bytes_eq, leb_ℤ, if◌then◌else◌, length, ℤ, pos, negsuc, int64,
}
use sokol_traefik_plugin.Prelude.GoMap.{lookup, insert, delete, has}
use sokol_traefik_plugin.Text.{Bytes, codes}
use sokol_traefik_plugin.Wire.{EvaluationRequest, EvaluationResponse}
use sokol_traefik_plugin.CacheKey.{evaluation_cache_key, cache_composite_key}

pub record DecisionCacheEntry : Type 0 where
  pub response : EvaluationResponse
  pub request_fingerprint : Bytes
  pub composite_key : Bytes
  pub expires_at : ℕ
  pub created_at : ℕ

pub record DecisionCache : Type 0 where
  pub entries : List (Bytes × DecisionCacheEntry)
  pub request_index : List (Bytes × Bytes)
  pub maximum_entries : ℕ
  pub maximum_ttl : ℕ
  pub latest_revision : ℕ

unfoldable pub new_decision_cache : ℕ → ℕ → DecisionCache
new_decision_cache maximum_entries maximum_ttl = record {
  entries = [];
  request_index = [];
  maximum_entries = maximum_entries;
  maximum_ttl = maximum_ttl;
  latest_revision = 0;
}

-- `c.requestIndex[fingerprint] == key`, where a missing entry reads as the empty string.
unfoldable pub indexes : DecisionCache → Bytes → Bytes → Bool
indexes c fingerprint key = elim (lookup fingerprint c.request_index) [
  | none ↦ [] == key
  | some k ↦ k == key
]

unfoldable pub delete_entry : DecisionCache → Bytes → DecisionCacheEntry → DecisionCache
unfolding indexes
delete_entry c key entry = record c {
  entries = delete key c.entries;
  request_index =
      if indexes c entry.request_fingerprint key
      then delete entry.request_fingerprint c.request_index
      else c.request_index;
}

-- The loop over the entries in `put` that drops what has expired.
unfoldable pub purge : ℕ → List (Bytes × DecisionCacheEntry) → DecisionCache → DecisionCache
purge now [] c = c
purge now ((key, entry) ∷ rest) c =
    purge now rest (if not (ltb now entry.expires_at) then delete_entry c key entry else c)

-- `if entry, ok := c.entries[key]; ok { c.deleteEntry(key, entry) }`, which `put` does twice.
unfoldable pub evict : Bytes → DecisionCache → DecisionCache
evict key c = elim (lookup key c.entries) [ none ↦ c | some entry ↦ delete_entry c key entry ]

-- The entry that another response to the same request left behind.
unfoldable pub forget_previous : Bytes → Bytes → DecisionCache → DecisionCache
forget_previous fingerprint composite c = elim (lookup fingerprint c.request_index) [
  | none ↦ c
  | some previous ↦ if previous != composite then evict previous c else c
]

-- The loop that looks for the oldest entry.
unfoldable pub oldest_from : Bytes → ℕ → List (Bytes × DecisionCacheEntry) → Bytes
oldest_from oldest_key oldest [] = oldest_key
oldest_from oldest_key oldest ((key, entry) ∷ rest) =
    let older = oldest_key == [] || ltb entry.created_at oldest in
    oldest_from (if older then key else oldest_key) (if older then entry.created_at else oldest)
      rest

unfoldable pub make_room : Bytes → DecisionCache → DecisionCache
make_room composite c =
    if not (has composite c.entries) && leb c.maximum_entries (length c.entries)
    then evict (oldest_from [] 0 c.entries) c
    else c

-- A positive number of milliseconds as a `time.Duration`, in 64 bits; the cap by `maximumTTL`; and
-- 0 for what `put` refuses.
unfoldable pub time_to_live : ℕ → ℤ → ℕ
unfolding int64
time_to_live maximum_ttl (negsuc n) = 0
time_to_live maximum_ttl (pos ms) = elim (int64 (ms * 1000000)) [
  | negsuc n ↦ 0
  | pos ttl ↦ if ltb maximum_ttl ttl then maximum_ttl else ttl
]

-- The first test of `put`.
unfoldable pub refuses : DecisionCache → EvaluationResponse → Bool
refuses c response =
    c.maximum_entries == 0
    || c.maximum_ttl == 0
    || leb_ℤ response.cache_ttl_ms (pos 0)
    || not response.cacheable
    || response.cache_key_scope != codes "request"
    || response.cache_key == []
    || response.policy_revision == 0
    || response.decision_scope == []
    || (response.decision != codes "block" && response.decision != codes "rate_limit")
    || response.challenge_token != []

-- A higher revision empties the cache.
unfoldable pub advance : ℕ → DecisionCache → DecisionCache
advance revision c =
    if ltb c.latest_revision revision
    then record c { entries = []; request_index = []; latest_revision = revision }
    else c

-- The end of `put`, from the purge of expired entries on.
unfoldable pub store : DecisionCache → DecisionCacheEntry → ℕ → DecisionCache
store c entry now =
    let fingerprint = entry.request_fingerprint in
    let composite = entry.composite_key in
    let room =
      make_room composite (forget_previous fingerprint composite (purge now c.entries c)) in
    record room {
      entries = insert composite entry room.entries;
      request_index = insert fingerprint composite room.request_index;
    }

-- What `get` does with the entry that the index leads to.
unfoldable pub use_entry :
    DecisionCache
    → Bytes
    → Bytes
    → DecisionCacheEntry
    → Bytes
    → ℕ
    → DecisionCache × Option EvaluationResponse
use_entry c fingerprint composite entry request_id now =
    if not (ltb now entry.expires_at)
    then (delete_entry c composite entry, none)
    else if entry.request_fingerprint != fingerprint
        || entry.response.policy_revision != c.latest_revision
    then (delete_entry c composite entry, none)
    else (c, some (record (entry.response) { request_id = request_id }))

module _ (digest : Bytes → Bytes) where
  unfoldable pub get :
      DecisionCache → EvaluationRequest → Bytes → ℕ → DecisionCache × Option EvaluationResponse
  get c request request_id now =
      let fingerprint = evaluation_cache_key digest request in
      if c.maximum_entries == 0 || c.maximum_ttl == 0
      then (c, none)
      else elim (lookup fingerprint c.request_index) [
        | none ↦ (c, none)
        | some composite ↦ elim (lookup composite c.entries) [
          | none ↦ (record c { request_index = delete fingerprint c.request_index }, none)
          | some entry ↦ use_entry c fingerprint composite entry request_id now
        ]
      ]

  -- The entry that `put` stores.
  unfoldable pub entry_of : EvaluationRequest → EvaluationResponse → ℕ → ℕ → DecisionCacheEntry
  entry_of request response now ttl = record {
    response = response;
    request_fingerprint = evaluation_cache_key digest request;
    composite_key = cache_composite_key digest request response;
    expires_at = now + ttl;
    created_at = now;
  }

  unfoldable pub put : DecisionCache → EvaluationRequest → EvaluationResponse → ℕ → DecisionCache
  put c request response now =
      let ttl = time_to_live c.maximum_ttl response.cache_ttl_ms in
      let stored =
        store (advance response.policy_revision c) (entry_of request response now ttl) now in
      if refuses c response
      then c
      else if ttl == 0
      then c
      else if ltb response.policy_revision c.latest_revision
      then c
      else stored
