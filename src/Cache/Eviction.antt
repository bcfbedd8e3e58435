-- ===== src/Cache/Eviction.antt =====
-- The entry that a full cache gives up: the loop of `put` over the entries finds an oldest one.
use sokol_traefik_plugin.Prelude.{
  ◌+◌, ℕ, ◌≤◌, ◌<◌, ◌≡◌, ◌≢◌, ◌⊎◌, inl, inr, refl, sym, ◌∙◌, ap, subst, List, [], ◌∷◌, none, some,
  Option-cases, ◌==◌, ltb, bytes_eq, nat_eq, bytes_beq, bytes_beq_iff, ltb→lt, if◌then◌else◌,
  length, All, Any, Bool-cases, arith,
}
use sokol_traefik_plugin.Prelude.GoMap.{lookup, has, IsMap, lookup-delete, length-delete_old}
use sokol_traefik_plugin.Text.{Bytes}
use sokol_traefik_plugin.Cache.{
  delete_entry, indexes, DecisionCacheEntry, DecisionCache, oldest_from, make_room, evict,
}

-- One round of the loop, once it has a key.
oldest_from_round :
    (key : Bytes) (t : ℕ) (k : Bytes) (e : DecisionCacheEntry)
    (rest : List (Bytes × DecisionCacheEntry))
    → key ≢ []
    → oldest_from key t ((k, e) ∷ rest)
      ≡ (if ltb e.created_at t then oldest_from k e.created_at rest else oldest_from key t rest)
unfolding oldest_from
oldest_from_round key t k e rest ne = ground (arith, bytes_beq_iff key [])

-- The key names an entry of the list that is none younger than the others.
abbrev pub IsOldest : Bytes → ℕ → List (Bytes × DecisionCacheEntry) → Type 0
IsOldest key least entries =
    All (λ x. least ≤ x.1.created_at) entries
    × Any (λ x. (x.0 ≡ key) × (x.1.created_at ≡ least)) entries

-- Started at a key and its time, the loop keeps them or finds an older entry.
Source : Bytes → ℕ → Bytes → ℕ → List (Bytes × DecisionCacheEntry) → Type 0
Source found least key t rest =
    ((found ≡ key) × (least ≡ t)) ⊎ Any (λ x. (x.0 ≡ found) × (x.1.created_at ≡ least)) rest

Keeps : Bytes → ℕ → Bytes → ℕ → List (Bytes × DecisionCacheEntry) → Type 0
Keeps found least key t rest =
    (least ≤ t) × All (λ x. least ≤ x.1.created_at) rest × Source found least key t rest

module _ (found : Bytes) (least : ℕ) (key : Bytes) (t : ℕ) (k : Bytes) (e : DecisionCacheEntry)
    (rest : List (Bytes × DecisionCacheEntry)) where
  Source-older : Source found least k e.created_at rest → Source found least key t ((k, e) ∷ rest)
  unfolding Source
  Source-older (inl (same, time)) = inr (inl (sym same, sym time))
  Source-older (inr later) = inr (inr later)

  Source-younger : Source found least key t rest → Source found least key t ((k, e) ∷ rest)
  unfolding Source
  Source-younger (inl same) = inl same
  Source-younger (inr later) = inr (inr later)

  Keeps-older :
      e.created_at < t
      → Keeps found least k e.created_at rest
      → Keeps found least key t ((k, e) ∷ rest)
  unfolding Keeps
  Keeps-older older (le, all, source) = (omega arith, (le, all), Source-older source)

  Keeps-younger :
      t ≤ e.created_at → Keeps found least key t rest → Keeps found least key t ((k, e) ∷ rest)
  unfolding Keeps
  Keeps-younger younger (le, all, source) = (le, (omega arith, all), Source-younger source)

oldest_from_empty : (key : Bytes) (t : ℕ) → Keeps (oldest_from key t []) t key t []
unfolding Keeps Source oldest_from
oldest_from_empty key t = (omega arith, tt, inl (refl, refl))

oldest_from-Keeps :
    (key : Bytes) (t : ℕ) (rest : List (Bytes × DecisionCacheEntry))
    → key ≢ []
    → All (λ x. x.0 ≢ []) rest
    → (least : ℕ) × Keeps (oldest_from key t rest) least key t rest
oldest_from-Keeps key t [] ne h = (t, oldest_from_empty key t)
oldest_from-Keeps key t ((k, e) ∷ rest) ne h = elim (Bool-cases (ltb e.created_at t)) [
  | inl older ↦
      let (least, kept) = oldest_from-Keeps k e.created_at rest h.0 h.1 in
      let round : oldest_from key t ((k, e) ∷ rest) ≡ oldest_from k e.created_at rest =
        oldest_from_round key t k e rest ne ∙ rw older in
      (
        least,
        subst (λ f. Keeps f least key t ((k, e) ∷ rest)) (sym round)
            (Keeps-older _ least key t k e rest (ltb→lt e.created_at t older) kept),
      )
  | inr younger ↦
      let (least, kept) = oldest_from-Keeps key t rest ne h.1 in
      let round : oldest_from key t ((k, e) ∷ rest) ≡ oldest_from key t rest =
        oldest_from_round key t k e rest ne ∙ rw younger in
      (
        least,
        subst (λ f. Keeps f least key t ((k, e) ∷ rest)) (sym round)
            (Keeps-younger _ least key t k e rest (ground arith) kept),
      )
]

-- Of entries with keys that are not empty, the loop finds one created no later than any other.
oldest_from_least :
    (entry : Bytes × DecisionCacheEntry) (rest : List (Bytes × DecisionCacheEntry))
    → All (λ x. x.0 ≢ []) (entry ∷ rest)
    → (least : ℕ) × IsOldest (oldest_from [] 0 (entry ∷ rest)) least (entry ∷ rest)
unfolding Keeps Source oldest_from bytes_beq
oldest_from_least (k, e) rest h =
    let (least, (le, all, source)) = oldest_from-Keeps k e.created_at rest h.0 h.1 in
    (least, ((le, all), oldest_source (oldest_from k e.created_at rest) least source))
  where
    oldest_source :
        (found : Bytes) (least : ℕ)
        → Source found least k e.created_at rest
        → Any (λ x. (x.0 ≡ found) × (x.1.created_at ≡ least)) ((k, e) ∷ rest)
    oldest_source found least (inl (same, time)) = inl (sym same, sym time)
    oldest_source found least (inr later) = inr later

make_room_full :
    (composite : Bytes) (c : DecisionCache)
    → lookup composite c.entries ≡ none
    → c.maximum_entries ≤ length c.entries
    → make_room composite c ≡ evict (oldest_from [] 0 c.entries) c
unfolding make_room has
make_room_full composite c new full = ground arith

make_room_least :
    (composite : Bytes) (c : DecisionCache) (entries : List (Bytes × DecisionCacheEntry))
    → c.entries ≡ entries
    → All (λ x. x.0 ≢ []) entries
    → lookup composite c.entries ≡ none
    → c.maximum_entries ≤ length c.entries
    → 0 < c.maximum_entries
    → (key : Bytes) × (least : ℕ) × (make_room composite c ≡ evict key c)
      × IsOldest key least entries
make_room_least composite c [] same keys new full h =
    absurd (omega (arith, ap (λ (m : List (Bytes × DecisionCacheEntry)). length m) same))
make_room_least composite c (entry ∷ rest) same keys new full h =
    let (least, oldest) = oldest_from_least entry rest keys in
    (
      oldest_from [] 0 (entry ∷ rest),
      least,
      make_room_full composite c new full ∙ ap (λ m. evict (oldest_from [] 0 m) c) same,
      oldest,
    )

-- Each request leads to the entry that it led to before, unless that is the one under the key.
abbrev pub KeepsOthers : Bytes → List (Bytes × Bytes) → List (Bytes × Bytes) → Type 0
KeepsOthers key before after =
    (fingerprint : Bytes)
    → (lookup fingerprint after ≡ lookup fingerprint before)
      ⊎ ((lookup fingerprint before ≡ some key) × (lookup fingerprint after ≡ none))

-- The second cache is the first without the entry under the key.
pub record IsWithout (key : Bytes) (before after : DecisionCache) : Type 0 where
  pub others :
      (other : Bytes)
      → lookup other after.entries ≡ (if key == other then none else lookup other before.entries)
  pub one_less : length after.entries + 1 ≡ length before.entries
  pub index_kept : KeepsOthers key before.request_index after.request_index
  pub same_maximum : after.maximum_entries ≡ before.maximum_entries
  pub same_ttl : after.maximum_ttl ≡ before.maximum_ttl
  pub same_revision : after.latest_revision ≡ before.latest_revision

delete_entry-KeepsOthers :
    (c : DecisionCache) (key : Bytes) (entry : DecisionCacheEntry)
    → KeepsOthers key c.request_index (delete_entry c key entry).request_index
unfolding delete_entry indexes
delete_entry-KeepsOthers c key entry fingerprint =
    elim (Option-cases (lookup entry.request_fingerprint c.request_index)) [
      | inl nothing ↦ ground (
        arith,
        nothing,
        lookup-delete entry.request_fingerprint fingerprint c.request_index,
        bytes_beq_iff entry.request_fingerprint fingerprint,
      )
      | inr (previous, found) ↦ ground (
        arith,
        found,
        lookup-delete entry.request_fingerprint fingerprint c.request_index,
        bytes_beq_iff entry.request_fingerprint fingerprint,
        bytes_beq_iff previous key,
      )
    ]

evict-IsWithout :
    (key : Bytes) (c : DecisionCache)
    → IsMap c.entries
    → lookup key c.entries ≢ none
    → IsWithout key c (evict key c)
unfolding evict delete_entry
evict-IsWithout key c map' present = elim (Option-cases (lookup key c.entries)) [
  | inl missing ↦ absurd (present missing)
  | inr (entry, found) ↦
      let same : evict key c ≡ delete_entry c key entry = rw (found, evict) refl in
      subst (IsWithout key c) (sym same) (record {
        others = λ other. lookup-delete key other c.entries;
        one_less = length-delete_old key c.entries map' present;
        index_kept = delete_entry-KeepsOthers c key entry;
        same_maximum = refl;
        same_ttl = refl;
        same_revision = refl;
      })
]

IsOldest-present :
    (key : Bytes) (least : ℕ) (entries : List (Bytes × DecisionCacheEntry))
    → Any (λ x. (x.0 ≡ key) × (x.1.created_at ≡ least)) entries
    → lookup key entries ≢ none
unfolding lookup
IsOldest-present key least [] h = absurd h
IsOldest-present key least ((k, e) ∷ rest) (inl (same, time)) = ground (arith, bytes_beq_iff k key)
IsOldest-present key least ((k, e) ∷ rest) (inr later) =
    ground (arith, IsOldest-present key least rest later)

-- A full cache with no entry under the new key, whose keys are distinct and not empty, gives up
-- exactly one entry to make room: one that was created no later than any other. Every other entry
-- stays as it is, there is one fewer, each request leads to the entry that it led to before or, where
-- that was given up, may lead to none, and the limits and the revision stay.
pub make_room-IsOldest :
    (composite : Bytes) (c : DecisionCache)
    → IsMap c.entries
    → All (λ x. x.0 ≢ []) c.entries
    → lookup composite c.entries ≡ none
    → c.maximum_entries ≤ length c.entries
    → 0 < c.maximum_entries
    → (key : Bytes) × (least : ℕ) × IsOldest key least c.entries
      × IsWithout key c (make_room composite c)
make_room-IsOldest composite c map' keys new full positive =
    let (key, least, same, oldest) =
      make_room_least composite c c.entries refl keys new full positive in
    (
      key,
      least,
      oldest,
      subst (IsWithout key c) (sym same)
          (evict-IsWithout key c map' (IsOldest-present key least c.entries oldest.1)),
    )
