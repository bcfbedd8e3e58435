-- ===== src/Cache/Preserved.antt =====
-- `get` and `put` keep the invariant.
use sokol_traefik_plugin.Prelude.{
  ℕ, ◌≤◌, ◌<◌, ◌≡◌, ◌⊎◌, inl, inr, false, [], ltb, ◌==◌, bytes_eq, nat_eq, bytes_beq_iff,
  Bool-cases, arith, ℤ,
}
use sokol_traefik_plugin.Prelude.GoMap.{lookup}
use sokol_traefik_plugin.Text.{Bytes, codes}
use sokol_traefik_plugin.Wire.{EvaluationRequest, EvaluationResponse}
use sokol_traefik_plugin.Cache.{
  DecisionCache, get, put, store, refuses, advance, entry_of, time_to_live,
}
use sokol_traefik_plugin.Cache.Invariant.{IsValid}
use sokol_traefik_plugin.Cache.Getting.{get-Forgets}
use sokol_traefik_plugin.Cache.Storing.{IsFit, store-IsValid}

pub advance-IsValid : (revision : ℕ) (c : DecisionCache) → IsValid c → IsValid (advance revision c)
unfolding advance lookup
advance-IsValid revision c v = elim (Bool-cases (ltb c.latest_revision revision)) [
  | inl newer ↦
      rw (newer, advance)
        (record { is_map = tt; stored = λ key entry h. cc; bounded = omega arith })
  | inr old ↦ rw (old, advance) v
]

-- What the tests at the head of `put` leave.
refuses_lem :
    (c : DecisionCache) (response : EvaluationResponse)
    → refuses c response ≡ false
    → (0 < c.maximum_entries)
      × ((response.decision ≡ codes "block") ⊎ (response.decision ≡ codes "rate_limit"))
      × (response.challenge_token ≡ [])
unfolding refuses
refuses_lem c response h = ground (
  arith,
  bytes_beq_iff response.decision (codes "block"),
  bytes_beq_iff response.decision (codes "rate_limit"),
  bytes_beq_iff response.challenge_token [],
)

time_to_live-le : (maximum : ℕ) (ms : ℤ) → time_to_live maximum ms ≤ maximum
unfolding time_to_live
time_to_live-le maximum ms = ground arith

advance_settings :
    (revision : ℕ) (c : DecisionCache)
    → ((advance revision c).maximum_entries ≡ c.maximum_entries)
      × ((advance revision c).maximum_ttl ≡ c.maximum_ttl)
      × (ltb revision c.latest_revision ≡ false → revision ≡ (advance revision c).latest_revision)
unfolding advance
advance_settings revision c = ground arith

module _ (digest : Bytes → Bytes) where
  pub entry_of-IsFit :
      (c : DecisionCache) (request : EvaluationRequest) (response : EvaluationResponse) (now : ℕ)
      → refuses c response ≡ false
      → ltb response.policy_revision c.latest_revision ≡ false
      → IsFit
          (advance response.policy_revision c)
          (entry_of digest request response now (time_to_live c.maximum_ttl response.cache_ttl_ms))
  unfolding entry_of
  entry_of-IsFit c request response now taken recent =
      let (n, denies, tokenless) = refuses_lem c response taken in
      let (same_n, same_ttl, same_rev) = advance_settings response.policy_revision c in
      record {
        current = same_rev recent;
        brief = omega (arith, time_to_live-le c.maximum_ttl response.cache_ttl_ms);
        denies = denies;
        tokenless = tokenless;
      }

  put_stored :
      (c : DecisionCache) (request : EvaluationRequest) (response : EvaluationResponse) (now : ℕ)
      → IsValid c
      → refuses c response ≡ false
      → ltb response.policy_revision c.latest_revision ≡ false
      → IsValid (
          store
            (advance response.policy_revision c)
            (entry_of digest request response now
              (time_to_live c.maximum_ttl response.cache_ttl_ms))
            now)
  put_stored c request response now v taken recent =
      let (same_n, same_ttl, same_rev) = advance_settings response.policy_revision c in
      store-IsValid (advance response.policy_revision c) _ now
        (advance-IsValid response.policy_revision c v)
        (entry_of-IsFit c request response now taken recent)
        (omega (arith, same_n, (refuses_lem c response taken).0))

  -- `put` keeps the invariant, whatever the response.
  pub put-IsValid :
      (c : DecisionCache) (request : EvaluationRequest) (response : EvaluationResponse) (now : ℕ)
      → IsValid c
      → IsValid (put digest c request response now)
  unfolding put
  put-IsValid c request response now v = elim (Bool-cases (refuses c response)) [
    | inl refused ↦ rw refused v
    | inr taken ↦ elim (Bool-cases (time_to_live c.maximum_ttl response.cache_ttl_ms == 0)) [
      | inl dead ↦ rw (taken, dead) v
      | inr alive ↦ elim (Bool-cases (ltb response.policy_revision c.latest_revision)) [
        | inl older ↦ rw (taken, alive, older) v
        | inr recent ↦ rw (taken, alive, recent) (put_stored c request response now v taken recent)
      ]
    ]
  ]

  -- `get` keeps the invariant, also where it drops an entry.
  pub get-IsValid :
      (c : DecisionCache) (request : EvaluationRequest) (request_id : Bytes) (now : ℕ)
      → IsValid c
      → IsValid (get digest c request request_id now).0
  get-IsValid c request request_id now v = (get-Forgets digest c request request_id now).valid v
