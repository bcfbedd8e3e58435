-- ===== src/Cache/Storing.antt =====
-- What the end of `put` leaves under each key, and that it keeps the invariant.
use sokol_traefik_plugin.Prelude.{
  ℕ, ◌+◌, ◌≤◌, ◌<◌, ◌≡◌, ◌≢◌, ◌⊎◌, inl, inr, refl, sym, ◌∙◌, subst₂, [], none, some, ◌==◌, bytes_eq,
  nat_eq, bytes_beq_iff, if◌then◌else◌, length, Bool-cases, arith,
}
use sokol_traefik_plugin.Prelude.GoMap.{lookup, lookup-insert, insert-IsMap}
use sokol_traefik_plugin.Text.{Bytes, codes}
use sokol_traefik_plugin.Cache.{
  DecisionCacheEntry, DecisionCache, purge, store, forget_previous, make_room,
}
use sokol_traefik_plugin.Cache.Invariant.{
  IsStored, IsValid, Forgets, Forgets-trans, purge-Forgets, forget_previous-Forgets,
  make_room-Forgets,
}
use sokol_traefik_plugin.Cache.Room.{make_room_lem, length-insert-le, forget_previous_lem}

-- The cache that `store` writes the new entry to.
unfoldable pub room_for : DecisionCache → DecisionCacheEntry → ℕ → DecisionCache
room_for c entry now =
    make_room entry.composite_key
      (forget_previous entry.request_fingerprint entry.composite_key (purge now c.entries c))

-- What an entry has to satisfy to be stored.
pub record IsFit (c : DecisionCache) (entry : DecisionCacheEntry) : Type 0 where
  pub current : entry.response.policy_revision ≡ c.latest_revision
  pub brief : entry.expires_at ≤ entry.created_at + c.maximum_ttl
  pub denies :
      (entry.response.decision ≡ codes "block") ⊎ (entry.response.decision ≡ codes "rate_limit")
  pub tokenless : entry.response.challenge_token ≡ []

module _ (c : DecisionCache) (entry : DecisionCacheEntry) (now : ℕ) where
  abbrev previous_gone : DecisionCache
  previous_gone =
      forget_previous entry.request_fingerprint entry.composite_key (purge now c.entries c)

  pub room_for-Forgets : Forgets c (room_for c entry now)
  unfolding room_for
  room_for-Forgets = Forgets-trans (purge-Forgets now c.entries c) (
      Forgets-trans
        (forget_previous-Forgets entry.request_fingerprint entry.composite_key
          (purge now c.entries c))
        (make_room-Forgets entry.composite_key previous_gone))

  pub lookup-store :
      (key : Bytes)
      → lookup key (store c entry now).entries ≡ (
          if entry.composite_key == key
          then some entry
          else lookup key (room_for c entry now).entries)
  unfolding store room_for
  lookup-store key = lookup-insert entry.composite_key key entry (room_for c entry now).entries

  pub store_index :
      (fingerprint : Bytes)
      → lookup fingerprint (store c entry now).request_index ≡ (
          if entry.request_fingerprint == fingerprint
          then some entry.composite_key
          else lookup fingerprint (room_for c entry now).request_index)
  unfolding store room_for
  store_index fingerprint =
      lookup-insert entry.request_fingerprint fingerprint entry.composite_key
        (room_for c entry now).request_index

  pub store_settings :
      ((store c entry now).maximum_entries ≡ c.maximum_entries)
      × ((store c entry now).maximum_ttl ≡ c.maximum_ttl)
      × ((store c entry now).latest_revision ≡ c.latest_revision)
  unfolding store room_for
  store_settings = let f = room_for-Forgets in (f.same_entries, f.same_ttl, f.same_revision)

  room_for_lem :
      IsValid c
      → (k : Bytes) (e : DecisionCacheEntry) → lookup k (room_for c entry now).entries ≡ some e
      → e.request_fingerprint ≡ entry.request_fingerprint
      → k ≡ entry.composite_key
  unfolding room_for
  room_for_lem v k e h same =
      forget_previous_lem entry.request_fingerprint entry.composite_key (purge now c.entries c)
        ((purge-Forgets now c.entries c).valid v) k e
        ((make_room-Forgets entry.composite_key previous_gone).kept k e h) same

  store_self : IsFit c entry → IsStored (store c entry now) entry.composite_key entry
  store_self fit =
      let (same_n, same_ttl, same_rev) = store_settings in
      record {
        named = refl;
        indexed = ground (
          arith,
          store_index entry.request_fingerprint,
          bytes_beq_iff entry.request_fingerprint entry.request_fingerprint,
        );
        current = fit.current ∙ sym same_rev;
        brief = rw same_ttl fit.brief;
        denies = fit.denies;
        tokenless = fit.tokenless;
      }

  store_other :
      IsValid c
      → (key : Bytes) (e : DecisionCacheEntry) → entry.composite_key ≢ key
      → lookup key (room_for c entry now).entries ≡ some e
      → IsStored (store c entry now) key e
  store_other v key e other h =
      let f = room_for-Forgets in
      let old = (f.valid v).stored key e h in
      let (same_n, same_ttl, same_rev) = store_settings in
      record {
        named = old.named;
        indexed = ground (
          arith,
          old.indexed,
          store_index e.request_fingerprint,
          bytes_beq_iff entry.request_fingerprint e.request_fingerprint,
          room_for_lem v key e h,
        );
        current = old.current ∙ f.same_revision ∙ sym same_rev;
        brief = rw same_ttl (rw f.same_ttl at (old.brief));
        denies = old.denies;
        tokenless = old.tokenless;
      }

  store_stored :
      IsValid c
      → IsFit c entry
      → (key : Bytes) (e : DecisionCacheEntry) → lookup key (store c entry now).entries ≡ some e
      → IsStored (store c entry now) key e
  store_stored v fit key e h = elim (Bool-cases (entry.composite_key == key)) [
    | inl here ↦
        let same_key : entry.composite_key ≡ key = (bytes_beq_iff _ _).0 here in
        let same : entry ≡ e = ground (arith, lookup-store key) in
        subst₂ (λ k x. IsStored (store c entry now) k x) same_key same (store_self fit)
    | inr other ↦
        store_other v key e (ground (arith, bytes_beq_iff entry.composite_key key))
          (ground (arith, lookup-store key))
  ]

  room_for_bounded :
      IsValid c
      → 0 < c.maximum_entries
      → (lookup entry.composite_key (room_for c entry now).entries ≢ none)
        ⊎ (length (room_for c entry now).entries < c.maximum_entries)
  unfolding room_for
  room_for_bounded v pos_max =
      let purged = purge-Forgets now c.entries c in
      let forgot =
        forget_previous-Forgets entry.request_fingerprint entry.composite_key
          (purge now c.entries c) in
      let both = Forgets-trans purged forgot in
      let room =
        make_room_lem entry.composite_key previous_gone (both.valid v).bounded
          (omega (arith, both.same_entries)) in
      ground (arith, both.same_entries)

  store_bounded :
      IsValid c → 0 < c.maximum_entries → length (store c entry now).entries ≤ c.maximum_entries
  unfolding store room_for
  store_bounded v pos_max =
      let f = room_for-Forgets in
      length-insert-le entry.composite_key entry (room_for c entry now).entries c.maximum_entries
        (omega (arith, f.shorter, v.bounded)) (room_for_bounded v pos_max)

  pub store-IsValid :
      IsValid c → IsFit c entry → 0 < c.maximum_entries → IsValid (store c entry now)
  unfolding store room_for
  store-IsValid v fit h = record {
    is_map =
        insert-IsMap entry.composite_key entry (room_for c entry now).entries
          ((room_for-Forgets).valid v).is_map;
    stored = store_stored v fit;
    bounded = rw (store_settings.0) (store_bounded v h);
  }
