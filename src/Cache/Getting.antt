-- ===== src/Cache/Getting.antt =====
-- What `get` leaves of the cache.
use sokol_traefik_plugin.Prelude.{
  ℕ, ◌≡◌, inl, inr, refl, ◌||◌, none, some, ltb, ◌==◌, ◌!=◌, bytes_eq, nat_eq, bytes_beq_iff,
  Bool-cases, Option-cases, arith,
}
use sokol_traefik_plugin.Prelude.GoMap.{lookup, delete, lookup-delete}
use sokol_traefik_plugin.Text.{Bytes}
use sokol_traefik_plugin.Wire.{EvaluationRequest}
use sokol_traefik_plugin.CacheKey.{evaluation_cache_key}
use sokol_traefik_plugin.Cache.{DecisionCacheEntry, DecisionCache, use_entry, get}
use sokol_traefik_plugin.Cache.Invariant.{IsStored, Forgets, Forgets-refl, delete_entry-Forgets}

use_entry-Forgets :
    (c : DecisionCache) (fingerprint composite : Bytes) (entry : DecisionCacheEntry)
    (request_id : Bytes) (now : ℕ)
    → Forgets c (use_entry c fingerprint composite entry request_id now).0
unfolding use_entry
use_entry-Forgets c fingerprint composite entry request_id now =
    elim (Bool-cases (ltb now entry.expires_at)) [
      | inr stale ↦ rw stale (delete_entry-Forgets c composite entry)
      | inl fresh ↦
          elim (Bool-cases (
            entry.request_fingerprint != fingerprint
            || entry.response.policy_revision != c.latest_revision)) [
              | inl other ↦ rw (fresh, other) (delete_entry-Forgets c composite entry)
              | inr fits ↦ rw (fresh, fits) (Forgets-refl c)
            ]
    ]

-- An index entry that leads nowhere can go.
drop_index-Forgets :
    (c : DecisionCache) (fingerprint composite : Bytes)
    → lookup fingerprint c.request_index ≡ some composite
    → lookup composite c.entries ≡ none
    → Forgets c (record c { request_index = delete fingerprint c.request_index })
drop_index-Forgets c fingerprint composite found absent = record {
  kept = λ key entry h. h;
  shorter = omega arith;
  same_entries = refl;
  same_ttl = refl;
  same_revision = refl;
  valid = λ v. record {
    is_map = v.is_map;
    bounded = v.bounded;
    stored = λ key entry h. stored_without key entry (v.stored key entry h) h;
  };
}
  where
    stored_without :
        (key : Bytes) (entry : DecisionCacheEntry)
        → IsStored c key entry
        → lookup key c.entries ≡ some entry
        → IsStored (record c { request_index = delete fingerprint c.request_index }) key entry
    stored_without key entry s h = record {
      named = s.named;
      indexed = ground (
        arith,
        s.indexed,
        found,
        absent,
        lookup-delete fingerprint entry.request_fingerprint c.request_index,
        bytes_beq_iff fingerprint entry.request_fingerprint,
      );
      current = s.current;
      brief = s.brief;
      denies = s.denies;
      tokenless = s.tokenless;
    }

module _ (digest : Bytes → Bytes) where
  -- `get` at most forgets entries.
  pub get-Forgets :
      (c : DecisionCache) (request : EvaluationRequest) (request_id : Bytes) (now : ℕ)
      → Forgets c (get digest c request request_id now).0
  unfolding get
  get-Forgets c request request_id now =
      elim (Bool-cases (c.maximum_entries == 0 || c.maximum_ttl == 0)) [
        | inl off ↦ rw off (Forgets-refl c)
        | inr on ↦
            elim (Option-cases (lookup (evaluation_cache_key digest request) c.request_index)) [
              | inl unknown ↦ rw (on, unknown) (Forgets-refl c)
              | inr (composite, found) ↦ elim (Option-cases (lookup composite c.entries)) [
                | inl absent ↦
                    rw (on, found, absent)
                      (drop_index-Forgets c (evaluation_cache_key digest request) composite found
                        absent)
                | inr (entry, there) ↦
                    rw (on, found, there)
                      (use_entry-Forgets c (evaluation_cache_key digest request) composite entry
                        request_id now)
              ]
            ]
      ]
