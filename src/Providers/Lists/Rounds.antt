-- ===== src/Providers/Lists/Rounds.antt =====
-- Where the ranges in the store come from, after any rounds of the refresh.
use sokol_traefik_plugin.Prelude.{
  All-map, ℕ, ◌+◌, ◌-◌, ◌≤◌, ◌≡◌, ◌≢◌, inl, inr, refl, ◌∙◌, Bool, true, false, not, ◌&&◌, List, [],
  ◌∷◌, Option, none, some, ltb, ◌!=◌, nat_eq, bytes_eq, any, All, Any, Bool-cases, Option-cases,
  arith,
}
use sokol_traefik_plugin.Prelude.GoMap.{All-insert}
use sokol_traefik_plugin.Text.{Bytes}
use sokol_traefik_plugin.Net.{Ip, IpNet, contains}
use sokol_traefik_plugin.Providers.{
  ProviderKind, provider_none, provider_cloudflare, provider_bunny, ProviderSource,
  ProviderSourceFormat, ProviderSourceState, ProviderRangeStore, new_provider_range_store, replace,
  normalize_ip, is_cloudflare, is_bunny, provider_for, refresh,
}
use sokol_traefik_plugin.Providers.Coverage.{covers, provider_for-covers}
use sokol_traefik_plugin.Providers.Lists.{
  ListResult, accepted, rejected, ListEnv, ProviderReply, not_requested, not_answered, answered,
  read_list, parse_values, fetch, fetched, read_answer, default_provider_sources, run,
}
use sokol_traefik_plugin.Providers.Lists.Public.{
  IsRangeList, >>=-eq-accepted, parse_provider_networks-IsCollected,
}

-- The state is that of a source by this name, as one round fetched it.
abbrev pub IsFetched : Bytes × ProviderSourceState → ListEnv × ℕ → Type 0
IsFetched (name, s) (env, now) =
    (s.updated_at ≡ now)
    × Any
        (λ (source : ProviderSource).
          (source.name ≡ name)
          × (source.provider ≡ s.provider)
          × (fetch env source ≡ accepted s.networks))
        default_provider_sources

abbrev pub IsPublished : List (ListEnv × ℕ) → Bytes × ProviderSourceState → Type 0
IsPublished rounds entry = Any (IsFetched entry) rounds

-- What holds of the old entries and of each fetched one holds after the refresh.
All-refresh {κ} :
    (P : Bytes × ProviderSourceState → Type κ) (f : ProviderSource → Option (List IpNet))
    (sources : List ProviderSource) (now : ℕ) (store : ProviderRangeStore)
    → All
        (λ (source : ProviderSource).
          (networks : List IpNet)
          → f source ≡ some networks
          → P (
            source.name,
            record { provider = source.provider; networks = networks; updated_at = now },
          ))
        sources
    → All P store.sources
    → All P (refresh f sources now store).sources
unfolding refresh replace
All-refresh P f [] now store new h = h
All-refresh P f (source ∷ rest) now store new h = elim (Option-cases (f source)) [
  | inl nothing ↦ rw (nothing, refresh) (All-refresh P f rest now store new.1 h)
  | inr (networks, got) ↦
      rw (got, refresh)
        (All-refresh P f rest now (replace store source.name source.provider networks now) new.1
          (All-insert P source.name _ store.sources (new.0 networks got) h))
]

fetched-fetch :
    (env : ListEnv) (source : ProviderSource) (networks : List IpNet)
    → fetched env source ≡ some networks
    → fetch env source ≡ accepted networks
fetched-fetch env source networks h = cases (fetch env source) h
  where
    cases :
        (r : ListResult (List IpNet))
        → (elim r as (λ _. Option (List IpNet)) [ accepted ns ↦ some ns | rejected e ↦ none ])
          ≡ some networks
        → r ≡ accepted networks
    cases (accepted ns) h = cc
    cases (rejected e) h = cc

pub All-run-IsPublished :
    (age : ℕ) (rounds : List (ListEnv × ℕ))
    → All (IsPublished rounds) (run (new_provider_range_store age) rounds).sources
unfolding run new_provider_range_store
All-run-IsPublished age [] = tt
All-run-IsPublished age ((env, now) ∷ past) =
    All-refresh (IsPublished ((env, now) ∷ past)) (fetched env) default_provider_sources now
      (run (new_provider_range_store age) past)
      (
        (λ ns h. inl (refl, inl (refl, refl, fetched-fetch env _ ns h))),
        (
          (λ ns h. inl (refl, inr (inl (refl, refl, fetched-fetch env _ ns h)))),
          (
            (λ ns h. inl (refl, inr (inr (inl (refl, refl, fetched-fetch env _ ns h))))),
            (
              (λ ns h. inl (refl, inr (inr (inr (inl (refl, refl, fetched-fetch env _ ns h)))))),
              tt,
            ),
          ),
        ),
      )
      (All-map (IsPublished past) (IsPublished ((env, now) ∷ past))
        (run (new_provider_range_store age) past).sources (λ entry h. inr h)
        (All-run-IsPublished age past))

read_answer-IsRangeList :
    (env : ListEnv) (format : ProviderSourceFormat) (reply : ProviderReply) (networks : List IpNet)
    → read_answer env format reply ≡ accepted networks
    → IsRangeList networks
unfolding read_answer
read_answer-IsRangeList env format not_requested networks h = cc
read_answer-IsRangeList env format not_answered networks h = cc
read_answer-IsRangeList env format (answered status body) networks h =
    elim (Bool-cases (status != 200)) [
      | inl other ↦ absurd (ground arith)
      | inr fine ↦
          let (text, got, after) = >>=-eq-accepted (read_list body) _ (rw fine at h) in
          let (values, parsed, last) = >>=-eq-accepted (parse_values env format text) _ after in
          (parse_provider_networks-IsCollected env values networks last).0
    ]

IsPublished-IsRangeList :
    (rounds : List (ListEnv × ℕ)) (entry : Bytes × ProviderSourceState)
    → IsPublished rounds entry
    → IsRangeList entry.1.networks
unfolding fetch
IsPublished-IsRangeList [] entry h = elim h [ ]
IsPublished-IsRangeList ((env, now) ∷ past) entry (inr h) = IsPublished-IsRangeList past entry h
IsPublished-IsRangeList ((env, now) ∷ past) entry (inl (at_now, h)) =
    from_source default_provider_sources h
  where
    from_source :
        (sources : List ProviderSource)
        → Any
            (λ (source : ProviderSource).
              (source.name ≡ entry.0)
              × (source.provider ≡ entry.1.provider)
              × (fetch env source ≡ accepted entry.1.networks))
            sources
        → IsRangeList entry.1.networks
    from_source [] h = elim h [ ]
    from_source (source ∷ rest) (inl (named, provided, got)) =
        read_answer-IsRangeList env source.format (env.request source.url) entry.1.networks got
    from_source (source ∷ rest) (inr h) = from_source rest h

-- A fresh entry of the kind with a network around the address.
pub record Contains (kind : ProviderKind → Bool) (age now : ℕ) (ip : Ip)
    (entry : Bytes × ProviderSourceState) : Type 0 where
  pub of_kind : kind entry.1.provider ≡ true
  pub fresh : now ≤ entry.1.updated_at + age
  pub around : any (λ n. contains n ip) entry.1.networks ≡ true

covers-Contains :
    (P : Bytes × ProviderSourceState → Type 0) (kind : ProviderKind → Bool) (age now : ℕ) (ip : Ip)
    (sources : List (Bytes × ProviderSourceState))
    → All P sources
    → covers kind age now ip sources ≡ true
    → (entry : Bytes × ProviderSourceState) × P entry × Contains kind age now ip entry
unfolding covers any
covers-Contains P kind age now ip [] all h = cc
covers-Contains P kind age now ip (entry ∷ rest) (p, ps) h =
    elim (Bool-cases (
      not (ltb age (now - entry.1.updated_at))
      && any (λ n. contains n ip) entry.1.networks
      && kind entry.1.provider)) [
        | inl hit ↦ (
          entry,
          p,
          record { of_kind = ground arith; fresh = ground arith; around = ground arith },
        )
        | inr miss ↦ covers-Contains P kind age now ip rest ps (ground arith)
      ]

-- The entry that an answer for a provider comes from.
abbrev pub IsSource :
    (ProviderKind → Bool) → ℕ → List (ListEnv × ℕ) → Ip → ℕ → Bytes × ProviderSourceState → Type 0
IsSource kind age rounds ip now entry =
    IsPublished rounds entry
    × IsRangeList entry.1.networks
    × Contains kind age now (normalize_ip ip) entry

abbrev pub is_kind : ProviderKind → ProviderKind → Bool
is_kind provider_cloudflare = is_cloudflare
is_kind provider_bunny = is_bunny
is_kind provider_none = λ k. false

answer_covers :
    (store : ProviderRangeStore) (ip : Ip) (now : ℕ) (kind : ProviderKind)
    → kind ≢ provider_none
    → (provider_for (some store) ip now).0 ≡ kind
    → covers (is_kind kind) store.maximum_stale_age now (normalize_ip ip) store.sources ≡ true
answer_covers store ip now provider_none k h = absurd (k refl)
answer_covers store ip now provider_cloudflare k h =
    ground (arith, provider_for-covers store ip now)
answer_covers store ip now provider_bunny k h = ground (arith, provider_for-covers store ip now)

refresh_age :
    (f : ProviderSource → Option (List IpNet)) (sources : List ProviderSource) (now : ℕ)
    (store : ProviderRangeStore)
    → (refresh f sources now store).maximum_stale_age ≡ store.maximum_stale_age
unfolding refresh replace
refresh_age f [] now store = refl
refresh_age f (source ∷ rest) now store = elim (Option-cases (f source)) [
  | inl nothing ↦ rw (nothing, refresh) (refresh_age f rest now store)
  | inr (networks, got) ↦
      rw (got, refresh)
        (refresh_age f rest now (replace store source.name source.provider networks now))
]

run_age :
    (age : ℕ) (rounds : List (ListEnv × ℕ))
    → (run (new_provider_range_store age) rounds).maximum_stale_age ≡ age
unfolding run new_provider_range_store
run_age age [] = refl
run_age age ((env, now) ∷ past) =
    refresh_age (fetched env) default_provider_sources now (run (new_provider_range_store age) past)
    ∙ run_age age past

-- Whatever the servers answered in whatever rounds: an address is taken for one of a provider only
-- where one of that provider's own sources served a list in a round no longer ago than the age
-- allowed, which has a network around the address and holds, all told, 1 to 8192 networks with public
-- base addresses.
pub provider_for-IsSource :
    (age : ℕ) (rounds : List (ListEnv × ℕ)) (ip : Ip) (now : ℕ) (kind : ProviderKind)
    → kind ≢ provider_none
    → (provider_for (some (run (new_provider_range_store age) rounds)) ip now).0 ≡ kind
    → (entry : Bytes × ProviderSourceState) × IsSource (is_kind kind) age rounds ip now entry
provider_for-IsSource age rounds ip now kind k h =
    let store = run (new_provider_range_store age) rounds in
    let (entry, published, around) =
      covers-Contains (IsPublished rounds) (is_kind kind) age now (normalize_ip ip) store.sources
        (All-run-IsPublished age rounds)
        (rw (run_age age rounds) at (answer_covers store ip now kind k h)) in
    (entry, (published, IsPublished-IsRangeList rounds entry published, around))
