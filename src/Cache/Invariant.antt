-- ===== src/Cache/Invariant.antt =====
-- The invariant of the decision cache, and what the steps of `put` that only forget entries keep.
use sokol_traefik_plugin.Prelude.{
  ℕ, ◌+◌, ◌≤◌, ◌≡◌, ◌≢◌, ◌⊎◌, inl, inr, refl, sym, ◌∙◌, not, List, [], ◌∷◌, none, some, ltb, leb,
  ◌==◌, ◌!=◌, ◌&&◌, bytes_eq, bytes_beq_iff, if◌then◌else◌, length, Bool-cases, Option-cases, arith,
}
use sokol_traefik_plugin.Prelude.GoMap.{
  lookup, has, IsMap, lookup-delete, delete-IsMap, length-delete-le,
}
use sokol_traefik_plugin.Text.{Bytes, codes}
use sokol_traefik_plugin.Cache.{
  DecisionCacheEntry, DecisionCache, new_decision_cache, indexes, delete_entry, purge,
  forget_previous, oldest_from, evict, make_room,
}

-- What holds of the entry under each key.
pub record IsStored (c : DecisionCache) (key : Bytes) (entry : DecisionCacheEntry) : Type 0 where
  pub named : entry.composite_key ≡ key
  pub indexed : lookup entry.request_fingerprint c.request_index ≡ some key
  pub current : entry.response.policy_revision ≡ c.latest_revision
  pub brief : entry.expires_at ≤ entry.created_at + c.maximum_ttl
  pub denies :
      (entry.response.decision ≡ codes "block") ⊎ (entry.response.decision ≡ codes "rate_limit")
  pub tokenless : entry.response.challenge_token ≡ []

pub record IsValid (c : DecisionCache) : Type 0 where
  pub is_map : IsMap c.entries
  pub stored :
      (key : Bytes) (entry : DecisionCacheEntry)
      → lookup key c.entries ≡ some entry
      → IsStored c key entry
  pub bounded : length c.entries ≤ c.maximum_entries

pub new_decision_cache-IsValid : (n ttl : ℕ) → IsValid (new_decision_cache n ttl)
unfolding new_decision_cache lookup
new_decision_cache-IsValid n ttl = record {
  is_map = tt;
  stored = λ key entry h. cc;
  bounded = omega arith;
}

-- A step that only forgets entries, and leaves the settings and the revision alone.
pub record Forgets (c d : DecisionCache) : Type 0 where
  pub kept :
      (key : Bytes) (entry : DecisionCacheEntry)
      → lookup key d.entries ≡ some entry
      → lookup key c.entries ≡ some entry
  pub shorter : length d.entries ≤ length c.entries
  pub same_entries : d.maximum_entries ≡ c.maximum_entries
  pub same_ttl : d.maximum_ttl ≡ c.maximum_ttl
  pub same_revision : d.latest_revision ≡ c.latest_revision
  pub valid : IsValid c → IsValid d

pub Forgets-refl : (c : DecisionCache) → Forgets c c
Forgets-refl c = record {
  kept = λ key entry h. h;
  shorter = omega arith;
  same_entries = refl;
  same_ttl = refl;
  same_revision = refl;
  valid = λ v. v;
}

pub Forgets-trans : {c d e : DecisionCache} → Forgets c d → Forgets d e → Forgets c e
Forgets-trans f g = record {
  kept = λ key entry h. f.kept key entry (g.kept key entry h);
  shorter = omega (arith, f.shorter, g.shorter);
  same_entries = g.same_entries ∙ f.same_entries;
  same_ttl = g.same_ttl ∙ f.same_ttl;
  same_revision = g.same_revision ∙ f.same_revision;
  valid = λ v. g.valid (f.valid v);
}

module _ (c : DecisionCache) (key : Bytes) (entry : DecisionCacheEntry) where
  lookup-delete_entry :
      (k : Bytes)
      → lookup k (delete_entry c key entry).entries
        ≡ (if key == k then none else lookup k c.entries)
  unfolding delete_entry
  lookup-delete_entry k = lookup-delete key k c.entries

  delete_entry_kept :
      (k : Bytes) (e : DecisionCacheEntry)
      → lookup k (delete_entry c key entry).entries ≡ some e
      → (lookup k c.entries ≡ some e) × (key ≢ k)
  delete_entry_kept k e h = ground (arith, lookup-delete_entry k, bytes_beq_iff key k)

  -- The index of an entry under another key stays.
  delete_entry_index :
      (k fingerprint : Bytes)
      → lookup fingerprint c.request_index ≡ some k
      → key ≢ k
      → lookup fingerprint (delete_entry c key entry).request_index ≡ some k
  unfolding delete_entry indexes
  delete_entry_index k fingerprint h ne = ground (
    arith,
    lookup-delete entry.request_fingerprint fingerprint c.request_index,
    bytes_beq_iff entry.request_fingerprint fingerprint,
    bytes_beq_iff k key,
  )

  delete_entry_same :
      ((delete_entry c key entry).latest_revision ≡ c.latest_revision)
      × ((delete_entry c key entry).maximum_ttl ≡ c.maximum_ttl)
  unfolding delete_entry
  delete_entry_same = (refl, refl)

  delete_entry_stored :
      IsValid c
      → (k : Bytes) (e : DecisionCacheEntry) → lookup k (delete_entry c key entry).entries ≡ some e
      → IsStored (delete_entry c key entry) k e
  delete_entry_stored v k e h =
      let (old, ne) = delete_entry_kept k e h in
      let s = v.stored k e old in
      let (same_revision, same_ttl) = delete_entry_same in
      record {
        named = s.named;
        indexed = delete_entry_index k e.request_fingerprint s.indexed ne;
        current = s.current ∙ sym same_revision;
        brief = rw same_ttl s.brief;
        denies = s.denies;
        tokenless = s.tokenless;
      }

  pub delete_entry-Forgets : Forgets c (delete_entry c key entry)
  unfolding delete_entry
  delete_entry-Forgets = record {
    kept = λ k e h. (delete_entry_kept k e h).0;
    shorter = length-delete-le key c.entries;
    same_entries = refl;
    same_ttl = refl;
    same_revision = refl;
    valid = λ v. record {
      is_map = delete-IsMap key c.entries v.is_map;
      stored = delete_entry_stored v;
      bounded = omega (arith, length-delete-le key c.entries, v.bounded);
    };
  }

pub purge-Forgets :
    (now : ℕ) (rest : List (Bytes × DecisionCacheEntry)) (c : DecisionCache)
    → Forgets c (purge now rest c)
unfolding purge
purge-Forgets now [] c = Forgets-refl c
purge-Forgets now ((key, entry) ∷ rest) c = elim (Bool-cases (ltb now entry.expires_at)) [
  | inl fresh ↦ rw (fresh, purge) (purge-Forgets now rest c)
  | inr stale ↦
      rw (stale, purge)
        (Forgets-trans (delete_entry-Forgets c key entry)
          (purge-Forgets now rest (delete_entry c key entry)))
]

pub evict-Forgets : (key : Bytes) (c : DecisionCache) → Forgets c (evict key c)
unfolding evict
evict-Forgets key c = elim (Option-cases (lookup key c.entries)) [
  | inl absent ↦ rw (absent, evict) (Forgets-refl c)
  | inr (entry, found) ↦ rw (found, evict) (delete_entry-Forgets c key entry)
]

pub forget_previous-Forgets :
    (fingerprint composite : Bytes) (c : DecisionCache)
    → Forgets c (forget_previous fingerprint composite c)
unfolding forget_previous
forget_previous-Forgets fingerprint composite c =
    elim (Option-cases (lookup fingerprint c.request_index)) [
      | inl absent ↦ rw (absent, forget_previous) (Forgets-refl c)
      | inr (previous, found) ↦ elim (Bool-cases (previous != composite)) [
        | inl other ↦ rw (found, forget_previous) (rw other (evict-Forgets previous c))
        | inr same ↦ rw (found, forget_previous) (rw same (Forgets-refl c))
      ]
    ]

pub make_room-Forgets : (composite : Bytes) (c : DecisionCache) → Forgets c (make_room composite c)
unfolding make_room
make_room-Forgets composite c =
    elim (Bool-cases (not (has composite c.entries) && leb c.maximum_entries (length c.entries))) [
      | inl full ↦ rw (full, make_room) (evict-Forgets (oldest_from [] 0 c.entries) c)
      | inr roomy ↦ rw (roomy, make_room) (Forgets-refl c)
    ]
