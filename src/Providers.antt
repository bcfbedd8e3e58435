-- ===== src/Providers.antt =====
-- The address ranges of the content delivery networks, provider_ranges.go: `providerRangeStore` with
-- `replace` and `providerFor`, and the refresh of all sources, whose fetch is in Providers/Lists.
pub mod Coverage
pub mod Refresh
pub mod Lists
mod Tests
use sokol_traefik_plugin.Prelude.{
  ℕ, ◌-◌, Bool, true, false, not, ◌&&◌, ◌||◌, List, [], ◌∷◌, Option, none, some, ltb, ◌==◌,
  bytes_eq, if◌then◌else◌, any,
}
use sokol_traefik_plugin.Prelude.GoMap.{insert}
use sokol_traefik_plugin.Text.{Bytes}
use sokol_traefik_plugin.Net.{Ip, IpNet, contains, to4, to16}

pub data ProviderKind : Type 0 where
  provider_none provider_cloudflare provider_bunny : ProviderKind

pub data ProviderSourceFormat : Type 0 where
  plain xml : ProviderSourceFormat

pub record ProviderSource : Type 0 where
  pub name : Bytes
  pub provider : ProviderKind
  pub url : Bytes
  pub format : ProviderSourceFormat

pub record ProviderSourceState : Type 0 where
  pub provider : ProviderKind
  pub networks : List IpNet
  pub updated_at : ℕ

pub record ProviderRangeStore : Type 0 where
  pub maximum_stale_age : ℕ
  pub sources : List (Bytes × ProviderSourceState)

unfoldable pub new_provider_range_store : ℕ → ProviderRangeStore
new_provider_range_store age = record { maximum_stale_age = age; sources = [] }

unfoldable pub replace :
    ProviderRangeStore → Bytes → ProviderKind → List IpNet → ℕ → ProviderRangeStore
unfolding insert
replace store name provider networks updated_at = record store {
  sources =
      insert name (record { provider = provider; networks = networks; updated_at = updated_at })
        store.sources;
}

-- normalizeIP of client_ip.go: 4 bytes where there are such.
unfoldable pub normalize_ip : Ip → Ip
unfolding to4 to16
normalize_ip ip = let short = to4 ip in if short == [] then to16 ip else short

abbrev pub is_cloudflare : ProviderKind → Bool
is_cloudflare provider_cloudflare = true
is_cloudflare _ = false

abbrev pub is_bunny : ProviderKind → Bool
is_bunny provider_bunny = true
is_bunny _ = false

-- The loop over the networks of one source, up to the first that contains the address.
unfoldable pub in_networks : List IpNet → Ip → Bool
in_networks [] ip = false
in_networks (network ∷ rest) ip = if contains network ip then true else in_networks rest ip

-- The loop over the sources, with the two flags.
unfoldable pub scan_sources :
    ℕ → ℕ → Ip → Bool → Bool → List (Bytes × ProviderSourceState) → Bool × Bool
scan_sources age now ip cloudflare bunny [] = (cloudflare, bunny)
scan_sources age now ip cloudflare bunny ((name, source) ∷ rest) =
    let hit = not (ltb age (now - source.updated_at)) && in_networks source.networks ip in
    scan_sources age now ip (if hit && is_cloudflare source.provider then true else cloudflare)
      (if hit && is_bunny source.provider then true else bunny) rest

-- The answer: the provider, and whether the lists of both contain the address.
unfoldable pub decide_provider : Bool × Bool → ProviderKind × Bool
decide_provider (true, true) = (provider_none, true)
decide_provider (true, false) = (provider_cloudflare, false)
decide_provider (false, true) = (provider_bunny, false)
decide_provider (false, false) = (provider_none, false)

-- A nil store knows no provider.
unfoldable pub provider_for : Option ProviderRangeStore → Ip → ℕ → ProviderKind × Bool
provider_for none ip now = (provider_none, false)
provider_for (some store) ip now =
    decide_provider
      (scan_sources store.maximum_stale_age now (normalize_ip ip) false false store.sources)

-- `refresh`: a source that cannot be fetched keeps its last ranges.
unfoldable pub refresh :
    (ProviderSource → Option (List IpNet))
    → List ProviderSource
    → ℕ
    → ProviderRangeStore
    → ProviderRangeStore
refresh fetch [] now store = store
refresh fetch (source ∷ rest) now store = refresh fetch rest now (elim (fetch source) [
  | none ↦ store
  | some networks ↦ replace store source.name source.provider networks now
])
