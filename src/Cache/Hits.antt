-- ===== src/Cache/Hits.antt =====
-- A hit against the history of the calls.
use sokol_traefik_plugin.Prelude.{
  ℕ, ◌+◌, ◌≤◌, ◌<◌, ◌≡◌, ◌≢◌, inl, inr, refl, sym, ◌∙◌, ap, subst, false, ◌||◌, List, [], ◌∷◌, some,
  ◌==◌, bytes_eq, nat_eq, bytes_beq_iff, All, Any, Any-map, Bool-cases, Option-cases, arith,
}
use sokol_traefik_plugin.Prelude.GoMap.{lookup}
use sokol_traefik_plugin.Text.{Bytes}
use sokol_traefik_plugin.Wire.{EvaluationRequest, EvaluationResponse}
use sokol_traefik_plugin.CacheKey.{evaluation_cache_key}
use sokol_traefik_plugin.Cache.{
  DecisionCacheEntry, DecisionCache, new_decision_cache, get, put, use_entry, refuses, entry_of,
  time_to_live,
}
use sokol_traefik_plugin.Cache.History.{
  Call, get_call, put_call, after, after-IsValid, after_settings, get_settings, put_settings,
  StoredBy, after-StoredBy,
}

module _ (digest : Bytes → Bytes) where
  -- The call explains that the request was answered from the cache.
  abbrev pub Explains : ℕ → EvaluationRequest → Bytes → ℕ → EvaluationResponse → Call → Type 0
  Explains ttl request request_id now hit (get_call _ _ _) = ⊥
  Explains ttl request request_id now hit (put_call request' response' start) =
      (evaluation_cache_key digest request' ≡ evaluation_cache_key digest request)
      × (hit ≡ record response' { request_id = request_id })
      × (now < start + time_to_live ttl response'.cache_ttl_ms)

  use_entry_hit :
      (c : DecisionCache) (fingerprint composite : Bytes) (e : DecisionCacheEntry)
      (request_id : Bytes) (now : ℕ) (hit : EvaluationResponse)
      → (use_entry c fingerprint composite e request_id now).1 ≡ some hit
      → (e.request_fingerprint ≡ fingerprint)
        × (now < e.expires_at)
        × (hit ≡ record (e.response) { request_id = request_id })
  unfolding use_entry
  use_entry_hit c fingerprint composite e request_id now hit h =
      ground (arith, bytes_beq_iff e.request_fingerprint fingerprint)

  -- What a hit says of the cache.
  pub record IsHit (c : DecisionCache) (request : EvaluationRequest) (request_id : Bytes) (now : ℕ)
      (hit : EvaluationResponse) (e : DecisionCacheEntry) : Type 0 where
    pub key : Bytes
    pub found : lookup key c.entries ≡ some e
    pub same_request : e.request_fingerprint ≡ evaluation_cache_key digest request
    pub fresh : now < e.expires_at
    pub answer : hit ≡ record (e.response) { request_id = request_id }

  pub get-IsHit :
      (c : DecisionCache) (request : EvaluationRequest) (request_id : Bytes) (now : ℕ)
      (hit : EvaluationResponse)
      → (get digest c request request_id now).1 ≡ some hit
      → (e : DecisionCacheEntry) × IsHit c request request_id now hit e
  unfolding get
  get-IsHit c request request_id now hit h =
      let fingerprint = evaluation_cache_key digest request in
      elim (Bool-cases (c.maximum_entries == 0 || c.maximum_ttl == 0)) [
        | inl off ↦ absurd (ground arith)
        | inr on ↦ elim (Option-cases (lookup fingerprint c.request_index)) [
          | inl unknown ↦ absurd (ground arith)
          | inr (composite, listed) ↦ elim (Option-cases (lookup composite c.entries)) [
            | inl absent ↦ absurd (ground arith)
            | inr (e, found) ↦
                let (same, fresh, answer) =
                  use_entry_hit c fingerprint composite e request_id now hit (ground arith) in
                (
                  e,
                  record {
                    key = composite;
                    found = found;
                    same_request = same;
                    fresh = fresh;
                    answer = answer;
                  },
                )
          ]
        ]
      ]

  -- A cache that has seen the calls, the latest first, from its construction on, answers a request
  -- only with the response of one of the `put`s among them: one for a request with the same cache
  -- key, not yet expired, and changed in nothing but the request ID.
  pub get-after-Explains :
      (n ttl : ℕ) (calls : List Call) (request : EvaluationRequest) (request_id : Bytes) (now : ℕ)
      (hit : EvaluationResponse)
      → (get digest (after digest n ttl calls) request request_id now).1 ≡ some hit
      → Any (Explains ttl request request_id now hit) calls
  unfolding entry_of
  get-after-Explains n ttl calls request request_id now hit h =
      let (e, is_hit) = get-IsHit (after digest n ttl calls) request request_id now hit h in
      Any-map (StoredBy digest ttl e) (Explains ttl request request_id now hit) calls
        (explained e is_hit) (after-StoredBy digest n ttl calls is_hit.key e is_hit.found)
    where
      explained :
          (e : DecisionCacheEntry)
          → IsHit (after digest n ttl calls) request request_id now hit e
          → (call : Call) → StoredBy digest ttl e call
          → Explains ttl request request_id now hit call
      explained e is_hit (get_call _ _ _) h = h
      explained e is_hit (put_call request' response' start) h = (
        sym (ap (λ (x : DecisionCacheEntry). x.request_fingerprint) h) ∙ is_hit.same_request,
        is_hit.answer
            ∙ ap (λ (x : DecisionCacheEntry). record (x.response) { request_id = request_id }) h,
        omega (arith, ap (λ (x : DecisionCacheEntry). x.expires_at) h, is_hit.fresh),
      )

-- The `put`s among the calls that the cache takes on are of no higher revision.
abbrev pub IsBelow : ℕ → ℕ → ℕ → Call → Type 0
IsBelow n ttl revision (get_call _ _ _) = Unit
IsBelow n ttl revision (put_call request response now) =
    refuses (new_decision_cache n ttl) response ≡ false
    → time_to_live ttl response.cache_ttl_ms ≢ 0
    → response.policy_revision ≤ revision

All-IsBelow_mono :
    (n ttl a b : ℕ) (calls : List Call)
    → a ≤ b
    → All (IsBelow n ttl a) calls
    → All (IsBelow n ttl b) calls
All-IsBelow_mono n ttl a b [] h k = tt
All-IsBelow_mono n ttl a b (get_call request request_id now ∷ calls) h k =
    (tt, All-IsBelow_mono n ttl a b calls h k.1)
All-IsBelow_mono n ttl a b (put_call request response now ∷ calls) h k =
    (λ p q. omega (arith, k.0 p q), All-IsBelow_mono n ttl a b calls h k.1)

refuses_settings :
    (c : DecisionCache) (response : EvaluationResponse)
    → refuses c response ≡ refuses (new_decision_cache c.maximum_entries c.maximum_ttl) response
unfolding refuses new_decision_cache
refuses_settings c response = refl

module _ (digest : Bytes → Bytes) where
  after-IsBelow :
      (n ttl : ℕ) (calls : List Call)
      → All (IsBelow n ttl (after digest n ttl calls).latest_revision) calls
  unfolding after
  after-IsBelow n ttl [] = tt
  after-IsBelow n ttl (get_call request request_id now ∷ past) = (
    tt,
    subst (λ b. All (IsBelow n ttl b) past)
        (sym (get_settings digest (after digest n ttl past) request request_id now).1)
        (after-IsBelow n ttl past),
  )
  after-IsBelow n ttl (put_call request response now ∷ past) =
      let c = after digest n ttl past in
      let (same, grows, taken) = put_settings digest c request response now in
      let (same_n, same_ttl) = after_settings digest n ttl past in
      (
        λ p q. taken (refuses_settings c response ∙ (rw (same_n, same_ttl) p)) (rw same_ttl q),
        All-IsBelow_mono n ttl c.latest_revision (put digest c request response now).latest_revision
            past grows (after-IsBelow n ttl past),
      )

  -- A hit is of the highest policy revision that the cache ever took on.
  pub get-after_newest :
      (n ttl : ℕ) (calls : List Call) (request : EvaluationRequest) (request_id : Bytes) (now : ℕ)
      (hit : EvaluationResponse)
      → (get digest (after digest n ttl calls) request request_id now).1 ≡ some hit
      → All (IsBelow n ttl hit.policy_revision) calls
  get-after_newest n ttl calls request request_id now hit h =
      let c = after digest n ttl calls in
      let (e, is_hit) = get-IsHit digest c request request_id now hit h in
      let current = ((after-IsValid digest n ttl calls).stored is_hit.key e is_hit.found).current in
      let same : hit.policy_revision ≡ c.latest_revision =
        ap (λ (x : EvaluationResponse). x.policy_revision) is_hit.answer ∙ current in
      rw same (after-IsBelow n ttl calls)
