-- ===== src/Cache/Room.antt =====
-- What `put` gives up when the cache is full, and the room that this leaves.
use sokol_traefik_plugin.Prelude.{
  ℕ, ◌+◌, ◌≤◌, ◌<◌, ◌≡◌, ◌≢◌, ◌⊎◌, inl, inr, refl, List, [], ◌∷◌, none, some, bytes_eq, nat_eq,
  bytes_beq, bytes_beq_iff, length, Option-cases, arith,
}
use sokol_traefik_plugin.Prelude.GoMap.{
  lookup, insert, has, lookup-delete, length-insert_new, length-insert_old, length-delete-lt,
}
use sokol_traefik_plugin.Text.{Bytes}
use sokol_traefik_plugin.Cache.{
  DecisionCacheEntry, DecisionCache, delete_entry, forget_previous, oldest_from, evict, make_room,
}
use sokol_traefik_plugin.Cache.Invariant.{IsValid, forget_previous-Forgets}

-- The loop ends with the key that it starts from, or with a key of the list.
oldest_from-cases :
    (key : Bytes) (t : ℕ) (rest : List (Bytes × DecisionCacheEntry))
    → (oldest_from key t rest ≡ key) ⊎ (lookup (oldest_from key t rest) rest ≢ none)
unfolding oldest_from lookup
oldest_from-cases key t [] = inl refl
oldest_from-cases key t ((k, e) ∷ rest) = ground (
  arith,
  oldest_from-cases k e.created_at rest,
  oldest_from-cases key t rest,
  bytes_beq_iff k (oldest_from k e.created_at rest),
  bytes_beq_iff k (oldest_from key t rest),
)

-- A list of entries that is not empty has the key that the loop finds.
oldest_from_listed :
    (entries : List (Bytes × DecisionCacheEntry))
    → entries ≢ []
    → lookup (oldest_from [] 0 entries) entries ≢ none
unfolding oldest_from lookup bytes_beq
oldest_from_listed [] h = absurd (h refl)
oldest_from_listed ((k, e) ∷ rest) h = ground (
  arith,
  oldest_from-cases k e.created_at rest,
  bytes_beq_iff k (oldest_from k e.created_at rest),
)

evict-shorter :
    (key : Bytes) (c : DecisionCache)
    → lookup key c.entries ≢ none
    → length (evict key c).entries + 1 ≤ length c.entries
unfolding evict delete_entry
evict-shorter key c h = elim (Option-cases (lookup key c.entries)) [
  | inl absent ↦ absurd (h absent)
  | inr (entry, found) ↦ rw (found, evict) (length-delete-lt key c.entries h)
]

ne_nil_of_length : (entries : List (Bytes × DecisionCacheEntry)) → 0 < length entries → entries ≢ []
ne_nil_of_length [] h = absurd (omega arith)
ne_nil_of_length (x ∷ xs) h = λ e. cc

-- Room for one more entry, or the place of an old one.
pub make_room_lem :
    (composite : Bytes) (c : DecisionCache)
    → length c.entries ≤ c.maximum_entries
    → 0 < c.maximum_entries
    → (lookup composite (make_room composite c).entries ≢ none)
      ⊎ (length (make_room composite c).entries < c.maximum_entries)
unfolding make_room has
make_room_lem composite c h k = ground (
  arith,
  evict-shorter (oldest_from [] 0 c.entries) c,
  oldest_from_listed c.entries,
  ne_nil_of_length c.entries,
)

pub length-insert-le :
    (key : Bytes) (entry : DecisionCacheEntry) (m : List (Bytes × DecisionCacheEntry)) (n : ℕ)
    → length m ≤ n
    → (lookup key m ≢ none) ⊎ (length m < n)
    → length (insert key entry m) ≤ n
length-insert-le key entry m n h room = elim (Option-cases (lookup key m)) [
  | inl absent ↦ ground (arith, length-insert_new key entry m absent)
  | inr (old, found) ↦ ground (arith, length-insert_old key entry m)
]

-- After `forget_previous` the request has no entry but under the new key.
pub forget_previous_lem :
    (fingerprint composite : Bytes) (c : DecisionCache)
    → IsValid c
    → (k : Bytes) (e : DecisionCacheEntry)
    → lookup k (forget_previous fingerprint composite c).entries ≡ some e
    → e.request_fingerprint ≡ fingerprint
    → k ≡ composite
unfolding forget_previous evict delete_entry
forget_previous_lem fingerprint composite c v k e h same =
    let old = (forget_previous-Forgets fingerprint composite c).kept k e h in
    let indexed = (v.stored k e old).indexed in
    ground (arith, lookup-delete k k c.entries, bytes_beq_iff k composite, bytes_beq_iff k k)
