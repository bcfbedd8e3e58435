-- ===== src/Cache/History.antt =====
-- The cache against the history of its calls: where a hit comes from.
use sokol_traefik_plugin.Prelude.{
  ℕ, ◌≤◌, ◌≡◌, ◌≢◌, ◌⊎◌, inl, inr, refl, ◌∙◌, subst, false, List, [], ◌∷◌, some, ltb, bytes_eq,
  nat_eq, Any, Bool-cases, arith,
}
use sokol_traefik_plugin.Prelude.GoMap.{lookup}
use sokol_traefik_plugin.Text.{Bytes}
use sokol_traefik_plugin.Wire.{EvaluationRequest, EvaluationResponse}
use sokol_traefik_plugin.Cache.{
  DecisionCacheEntry, DecisionCache, new_decision_cache, get, put, refuses, advance, entry_of,
  time_to_live,
}
use sokol_traefik_plugin.Cache.Invariant.{IsValid, new_decision_cache-IsValid}
use sokol_traefik_plugin.Cache.Storing.{room_for-Forgets, lookup-store, store_settings}
use sokol_traefik_plugin.Cache.Getting.{get-Forgets}
use sokol_traefik_plugin.Cache.Preserved.{get-IsValid, put-IsValid}

pub data Call : Type 0 where
  get_call : EvaluationRequest → Bytes → ℕ → Call
  put_call : EvaluationRequest → EvaluationResponse → ℕ → Call

-- What an accepted `put` does to the revision, and what an entry after it is.
lookup-advance :
    (revision : ℕ) (c : DecisionCache) (key : Bytes) (e : DecisionCacheEntry)
    → lookup key (advance revision c).entries ≡ some e
    → lookup key c.entries ≡ some e
unfolding advance lookup
lookup-advance revision c key e h = elim (Bool-cases (ltb c.latest_revision revision)) [
  | inl newer ↦ ground arith
  | inr old ↦ rw old at h
]

module _ (digest : Bytes → Bytes) where
  -- The cache after the calls, the latest first.
  unfoldable pub after : ℕ → ℕ → List Call → DecisionCache
  after n ttl [] = new_decision_cache n ttl
  after n ttl (get_call request request_id now ∷ past) =
      (get digest (after n ttl past) request request_id now).0
  after n ttl (put_call request response now ∷ past) =
      put digest (after n ttl past) request response now

  -- After any calls of `get` and `put`, from the construction on, the cache has at most as many
  -- entries as it may, under distinct keys; and each entry is listed for its request, is of the
  -- latest policy revision, expires within the maximum lifetime from its creation, denies its
  -- request and holds no challenge token.
  pub after-IsValid : (n ttl : ℕ) (calls : List Call) → IsValid (after n ttl calls)
  unfolding after
  after-IsValid n ttl [] = new_decision_cache-IsValid n ttl
  after-IsValid n ttl (get_call request request_id now ∷ past) =
      get-IsValid digest (after n ttl past) request request_id now (after-IsValid n ttl past)
  after-IsValid n ttl (put_call request response now ∷ past) =
      put-IsValid digest (after n ttl past) request response now (after-IsValid n ttl past)

  -- The entry is the one that the call stores.
  abbrev pub StoredBy : ℕ → DecisionCacheEntry → Call → Type 0
  StoredBy ttl e (get_call _ _ _) = ⊥
  StoredBy ttl e (put_call request response now) =
      e ≡ entry_of digest request response now (time_to_live ttl response.cache_ttl_ms)

  put-lookup :
      (c : DecisionCache) (request : EvaluationRequest) (response : EvaluationResponse) (now : ℕ)
      (key : Bytes) (e : DecisionCacheEntry)
      → lookup key (put digest c request response now).entries ≡ some e
      → StoredBy c.maximum_ttl e (put_call request response now) ⊎ (lookup key c.entries ≡ some e)
  unfolding put
  put-lookup c request response now key e h =
      let entry =
        entry_of digest request response now (time_to_live c.maximum_ttl response.cache_ttl_ms) in
      let d = advance response.policy_revision c in
      ground (
        arith,
        lookup-store d entry now key,
        (room_for-Forgets d entry now).kept key e,
        lookup-advance response.policy_revision c key e,
      )

  pub get_settings :
      (c : DecisionCache) (request : EvaluationRequest) (request_id : Bytes) (now : ℕ)
      → ((get digest c request request_id now).0.maximum_ttl ≡ c.maximum_ttl)
        × ((get digest c request request_id now).0.latest_revision ≡ c.latest_revision)
  get_settings c request request_id now =
      let f = get-Forgets digest c request request_id now in (f.same_ttl, f.same_revision)

  put_keeps :
      (c : DecisionCache) (request : EvaluationRequest) (response : EvaluationResponse) (now : ℕ)
      → ((put digest c request response now).maximum_entries ≡ c.maximum_entries)
        × ((put digest c request response now).maximum_ttl ≡ c.maximum_ttl)
  unfolding put advance
  put_keeps c request response now =
      let entry =
        entry_of digest request response now (time_to_live c.maximum_ttl response.cache_ttl_ms) in
      ground (arith, store_settings (advance response.policy_revision c) entry now)

  pub put_settings :
      (c : DecisionCache) (request : EvaluationRequest) (response : EvaluationResponse) (now : ℕ)
      → ((put digest c request response now).maximum_ttl ≡ c.maximum_ttl)
        × (c.latest_revision ≤ (put digest c request response now).latest_revision)
        × (refuses c response ≡ false
            → time_to_live c.maximum_ttl response.cache_ttl_ms ≢ 0
            → response.policy_revision ≤ (put digest c request response now).latest_revision)
  unfolding put advance
  put_settings c request response now =
      let entry =
        entry_of digest request response now (time_to_live c.maximum_ttl response.cache_ttl_ms) in
      ground (arith, store_settings (advance response.policy_revision c) entry now)

  pub after_settings :
      (n ttl : ℕ) (calls : List Call)
      → ((after n ttl calls).maximum_entries ≡ n) × ((after n ttl calls).maximum_ttl ≡ ttl)
  unfolding after new_decision_cache
  after_settings n ttl [] = (refl, refl)
  after_settings n ttl (get_call request request_id now ∷ past) =
      let f = get-Forgets digest (after n ttl past) request request_id now in
      let (same_n, same_ttl) = after_settings n ttl past in
      (f.same_entries ∙ same_n, f.same_ttl ∙ same_ttl)
  after_settings n ttl (put_call request response now ∷ past) =
      let (kept_n, kept_ttl) = put_keeps (after n ttl past) request response now in
      let (same_n, same_ttl) = after_settings n ttl past in (kept_n ∙ same_n, kept_ttl ∙ same_ttl)

  -- Every entry was stored by one of the calls.
  pub after-StoredBy :
      (n ttl : ℕ) (calls : List Call) (key : Bytes) (e : DecisionCacheEntry)
      → lookup key (after n ttl calls).entries ≡ some e
      → Any (StoredBy ttl e) calls
  unfolding after new_decision_cache lookup
  after-StoredBy n ttl [] key e h = cc
  after-StoredBy n ttl (get_call request request_id now ∷ past) key e h = inr (
      after-StoredBy n ttl past key e
        ((get-Forgets digest (after n ttl past) request request_id now).kept key e h))
  after-StoredBy n ttl (put_call request response now ∷ past) key e h =
      elim (put-lookup (after n ttl past) request response now key e h) [
        | inl new ↦ inl (
            subst (λ t. StoredBy t e (put_call request response now)) (after_settings n ttl past).1
              new)
        | inr old ↦ inr (after-StoredBy n ttl past key e old)
      ]
