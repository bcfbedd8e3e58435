-- ===== src/Providers/Refresh.antt =====
-- Refreshing: the last ranges of a source that fails stay, and ranges that grow too old no longer
-- count.
use sokol_traefik_plugin.Prelude.{
  ℕ, ◌+◌, ◌<◌, ◌≡◌, refl, ◌∙◌, Bool, false, List, [], ◌∷◌, Option, none, some, ◌==◌, bytes_eq,
  if◌then◌else◌, any, All, arith,
}
use sokol_traefik_plugin.Prelude.GoMap.{lookup, lookup-insert}
use sokol_traefik_plugin.Text.{Bytes}
use sokol_traefik_plugin.Net.{Ip, IpNet}
use sokol_traefik_plugin.Providers.{
  ProviderKind, provider_none, ProviderSource, ProviderSourceState, ProviderRangeStore,
  normalize_ip, is_cloudflare, is_bunny, replace, refresh, provider_for,
}
use sokol_traefik_plugin.Providers.Coverage.{covers, provider_for-covers}

-- All sources are older than the store allows.
abbrev pub AllStale : ℕ → ℕ → List (Bytes × ProviderSourceState) → Type 0
AllStale age now = All (λ x. age + x.1.updated_at < now)

covers_stale :
    (kind : ProviderKind → Bool) (age now : ℕ) (ip : Ip)
    (sources : List (Bytes × ProviderSourceState))
    → AllStale age now sources
    → covers kind age now ip sources ≡ false
unfolding covers any
covers_stale kind age now ip [] h = refl
covers_stale kind age now ip ((name, s) ∷ rest) h =
    let later = covers_stale kind age now ip rest h.1 in ground (arith, h.0)

-- Where every source is older than the store allows, no address has a provider.
pub provider_for-AllStale :
    (store : ProviderRangeStore) (ip : Ip) (now : ℕ)
    → AllStale store.maximum_stale_age now store.sources
    → provider_for (some store) ip now ≡ (provider_none, false)
provider_for-AllStale store ip now h =
    provider_for-covers store ip now
    ∙ rw (
      covers_stale is_cloudflare store.maximum_stale_age now (normalize_ip ip) store.sources h,
      covers_stale is_bunny store.maximum_stale_age now (normalize_ip ip) store.sources h,
    )

-- What the last fetched source of the name left, or else what was there.
pub last_fetched :
    (ProviderSource → Option (List IpNet))
    → List ProviderSource
    → ℕ
    → Bytes
    → Option ProviderSourceState
    → Option ProviderSourceState
last_fetched fetch [] now name old = old
last_fetched fetch (source ∷ rest) now name old = last_fetched fetch rest now name (
    if source.name == name
    then elim (fetch source) [
      | none ↦ old
      | some networks ↦
          some (record { provider = source.provider; networks = networks; updated_at = now })
    ]
    else old)

refresh_step :
    (store : ProviderRangeStore) (source : ProviderSource) (fetched : Option (List IpNet)) (now : ℕ)
    (name : Bytes)
    → lookup name
        (elim fetched as (λ _. ProviderRangeStore) [
          | none ↦ store
          | some networks ↦ replace store source.name source.provider networks now
        ]).sources
      ≡ (if source.name == name
          then elim fetched [
            | none ↦ lookup name store.sources
            | some networks ↦
                some (record { provider = source.provider; networks = networks; updated_at = now })
          ]
          else lookup name store.sources)
unfolding replace
refresh_step store source none now name = ground arith
refresh_step store source (some networks) now name =
    lookup-insert source.name name
      (record { provider = source.provider; networks = networks; updated_at = now }) store.sources

-- After a refresh each source has the ranges of its last successful fetch in it, dated `now`, or
-- else those of before: a fetch that fails never drops or redates anything.
pub lookup-refresh :
    (fetch : ProviderSource → Option (List IpNet)) (sources : List ProviderSource) (now : ℕ)
    (store : ProviderRangeStore) (name : Bytes)
    → lookup name (refresh fetch sources now store).sources
      ≡ last_fetched fetch sources now name (lookup name store.sources)
unfolding refresh last_fetched
lookup-refresh fetch [] now store name = refl
lookup-refresh fetch (source ∷ rest) now store name =
    lookup-refresh fetch rest now _ name ∙ rw (refresh_step store source (fetch source) now name)
