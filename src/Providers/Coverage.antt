-- ===== src/Providers/Coverage.antt =====
-- What `providerFor` answers, without its loops: which provider has a fresh source that covers the
-- address.
use sokol_traefik_plugin.Prelude.{
  ℕ, ◌-◌, ◌≡◌, refl, Bool, true, false, not, ◌&&◌, ◌||◌, List, [], ◌∷◌, some, ltb, if◌then◌else◌,
  any, arith,
}
use sokol_traefik_plugin.Text.{Bytes}
use sokol_traefik_plugin.Net.{Ip, IpNet, contains}
use sokol_traefik_plugin.Providers.{
  ProviderKind, provider_none, provider_cloudflare, provider_bunny, ProviderSourceState,
  ProviderRangeStore, normalize_ip, is_cloudflare, is_bunny, in_networks, scan_sources,
  decide_provider, provider_for,
}

abbrev Sources : Type 0
Sources = List (Bytes × ProviderSourceState)

-- Some source of the kind is fresh and lists a network with the address.
unfoldable pub covers :
    (ProviderKind → Bool) → ℕ → ℕ → Ip → List (Bytes × ProviderSourceState) → Bool
covers kind age now ip sources =
    any
      (λ x.
        not (ltb age (now - x.1.updated_at))
        && any (λ n. contains n ip) x.1.networks
        && kind x.1.provider)
      sources

in_networks-any :
    (networks : List IpNet) (ip : Ip) → in_networks networks ip ≡ any (λ n. contains n ip) networks
unfolding in_networks any
in_networks-any [] ip = refl
in_networks-any (n ∷ networks) ip = ground (arith, in_networks-any networks ip)

scan_sources-covers :
    (age now : ℕ) (ip : Ip) (cloudflare bunny : Bool) (sources : List (Bytes × ProviderSourceState))
    → scan_sources age now ip cloudflare bunny sources ≡ (
      cloudflare || covers is_cloudflare age now ip sources,
      bunny || covers is_bunny age now ip sources,
    )
unfolding scan_sources covers any
scan_sources-covers age now ip cloudflare bunny [] = ground arith
scan_sources-covers age now ip cloudflare bunny ((name, s) ∷ rest) =
    let hit = not (ltb age (now - s.updated_at)) && in_networks s.networks ip in
    ground (
      arith,
      scan_sources-covers age now ip (if hit && is_cloudflare s.provider then true else cloudflare)
          (if hit && is_bunny s.provider then true else bunny) rest,
      in_networks-any s.networks ip,
    )

-- The provider of an address is the one that has a fresh source with a network around it; where
-- both have one the answer is none, and ambiguous.
pub provider_for-covers :
    (store : ProviderRangeStore) (ip : Ip) (now : ℕ)
    → provider_for (some store) ip now ≡ (
        let c = covers is_cloudflare store.maximum_stale_age now (normalize_ip ip) store.sources in
        let b = covers is_bunny store.maximum_stale_age now (normalize_ip ip) store.sources in
        if c && b
        then (provider_none, true)
        else if c
        then (provider_cloudflare, false)
        else if b
        then (provider_bunny, false)
        else (provider_none, false))
unfolding provider_for decide_provider
provider_for-covers store ip now = ground (
  arith,
  scan_sources-covers store.maximum_stale_age now (normalize_ip ip) false false store.sources,
)
