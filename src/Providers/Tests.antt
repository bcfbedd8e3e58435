-- ===== src/Providers/Tests.antt =====
-- The theorems about the provider ranges at concrete inputs.
use sokol_traefik_plugin.Prelude.{any, all, ◌==◌}
use sokol_traefik_plugin.Text.{Bytes, split, trim_space}
use sokol_traefik_plugin.Prelude.{
  ◌≡◌, refl, false, true, ◌&&◌, List, [], ◌∷◌, Option, none, some, take, drop, arith, if◌then◌else◌,
  bytes_beq, bytes_eq,
}
use sokol_traefik_plugin.Prelude.GoMap.{lookup, insert}
use sokol_traefik_plugin.Text.{codes}
use sokol_traefik_plugin.Net.{
  IpNet, contains, ip_equal, mask_ip, bit_ands, to4, to16, masked_eq, network_number, network_mask,
}
use sokol_traefik_plugin.Providers.{
  provider_none, provider_cloudflare, provider_bunny, ProviderSource, ProviderSourceState, plain,
  xml, ProviderRangeStore, is_cloudflare, is_bunny, normalize_ip, new_provider_range_store, replace,
  provider_for, decide_provider, scan_sources, in_networks, refresh,
}
use sokol_traefik_plugin.Providers.Lists.{
  accepted, answered, not_answered, ListEnv, public_provider_ip, scan_values,
  parse_plain_provider_values, read_list, parse_xml_provider_values, parse_network, parse_public,
  collect_networks, parse_provider_networks, parse_values, read_answer, fetch, run,
}
use sokol_traefik_plugin.Providers.Lists.Public.{
  IsRangeList, IsCollected, parse_provider_networks-IsCollected,
}
use sokol_traefik_plugin.Providers.Lists.Rounds.{IsSource, is_kind, provider_for-IsSource}
use sokol_traefik_plugin.Net.Kinds.{
  is_global_unicast, is_private, is_loopback, is_link_local_unicast, is_link_local_multicast,
  is_unspecified, is_multicast,
}
use sokol_traefik_plugin.Providers.Coverage.{covers, provider_for-covers}
use sokol_traefik_plugin.Providers.Refresh.{provider_for-AllStale, last_fetched, lookup-refresh}

abbrev edge : IpNet
edge = record { ip = 173 ∷ 245 ∷ 48 ∷ 0 ∷ []; mask = 255 ∷ 255 ∷ 240 ∷ 0 ∷ [] }

abbrev edge_store : ProviderRangeStore
unfolding replace new_provider_range_store insert
edge_store =
    replace (new_provider_range_store 100) (codes "cloudflare_v4") provider_cloudflare (edge ∷ []) 5

-- An address inside the network, in 4 bytes, and one outside.
provider_for_run :
    (provider_for (some edge_store) (173 ∷ 245 ∷ 63 ∷ 9 ∷ []) 20 ≡ (provider_cloudflare, false))
    × (provider_for (some edge_store) (173 ∷ 245 ∷ 64 ∷ 9 ∷ []) 20 ≡ (provider_none, false))
unfolding provider_for decide_provider scan_sources in_networks normalize_ip to4 to16 contains
    masked_eq network_number network_mask bytes_beq take drop replace new_provider_range_store
    insert
provider_for_run = (refl, refl)

provider_for-covers_example : provider_for (some edge_store) (173 ∷ 245 ∷ 63 ∷ 9 ∷ []) 20 ≡ (
    let ip = normalize_ip (173 ∷ 245 ∷ 63 ∷ 9 ∷ []) in
    let c = covers is_cloudflare edge_store.maximum_stale_age 20 ip edge_store.sources in
    let b = covers is_bunny edge_store.maximum_stale_age 20 ip edge_store.sources in
    if c && b
    then (provider_none, true)
    else if c
    then (provider_cloudflare, false)
    else if b
    then (provider_bunny, false)
    else (provider_none, false))
provider_for-covers_example = provider_for-covers edge_store (173 ∷ 245 ∷ 63 ∷ 9 ∷ []) 20

provider_for-AllStale_example :
    provider_for (some edge_store) (173 ∷ 245 ∷ 63 ∷ 9 ∷ []) 200 ≡ (provider_none, false)
unfolding replace new_provider_range_store insert
provider_for-AllStale_example =
    provider_for-AllStale edge_store (173 ∷ 245 ∷ 63 ∷ 9 ∷ []) 200 (omega arith, tt)

-- The first source is fetched, the second is not.
abbrev stub_fetch : ProviderSource → Option (List IpNet)
stub_fetch source = if is_cloudflare source.provider then some (edge ∷ []) else none

abbrev sources : List ProviderSource
sources =
    record {
      name = codes "cloudflare_v4";
      provider = provider_cloudflare;
      url = [];
      format = plain;
    }
    ∷ record { name = codes "bunny_v4"; provider = provider_bunny; url = []; format = xml }
    ∷ []

lookup-refresh_example :
    lookup (codes "cloudflare_v4") (refresh stub_fetch sources 60 edge_store).sources
    ≡ last_fetched stub_fetch sources 60
        (codes "cloudflare_v4")
        (lookup (codes "cloudflare_v4") edge_store.sources)
lookup-refresh_example = lookup-refresh stub_fetch sources 60 edge_store (codes "cloudflare_v4")

-- One round in which one source answers, with one network.
abbrev served : ListEnv
served = record {
  request = λ url.
      (if url == codes "https://www.cloudflare.com/ips-v4"
        then answered 200 (record { bytes = codes "173.245.48.0/20"; broken = false })
        else not_answered);
  parse_cidr = λ s. some (173 ∷ 245 ∷ 48 ∷ 0 ∷ [], edge);
  parse_ip = λ s. none;
  net_string = λ n. n.ip;
  decode_xml = λ s. none;
}

lists_program : Unit {0}
unfolding provider_for decide_provider scan_sources in_networks normalize_ip to4 to16 contains
    masked_eq network_number network_mask bytes_beq take drop replace new_provider_range_store
    insert refresh any all split trim_space mask_ip bit_ands public_provider_ip scan_values
    parse_plain_provider_values read_list parse_xml_provider_values parse_network parse_public
    collect_networks parse_provider_networks parse_values read_answer fetch run is_global_unicast
    is_private is_loopback is_link_local_unicast is_link_local_multicast is_unspecified is_multicast
    ip_equal
lists_program = tt

parse_provider_networks_run :
    parse_provider_networks served (codes "a" ∷ codes "b" ∷ []) ≡ accepted (edge ∷ [])
unfolding lists_program
parse_provider_networks_run = refl

parse_provider_networks-IsCollected_example :
    IsRangeList (edge ∷ []) × IsCollected served [] (codes "a" ∷ codes "b" ∷ []) (edge ∷ [])
parse_provider_networks-IsCollected_example =
    parse_provider_networks-IsCollected served (codes "a" ∷ codes "b" ∷ []) (edge ∷ [])
      parse_provider_networks_run

provider_for-served :
    (provider_for
      (some (run (new_provider_range_store 100) ((served, 5) ∷ [])))
      (173 ∷ 245 ∷ 63 ∷ 9 ∷ [])
      20).0
    ≡ provider_cloudflare
unfolding lists_program
provider_for-served = refl

provider_for-IsSource_example :
    (entry : Bytes × ProviderSourceState) × IsSource
      (is_kind provider_cloudflare)
      100
      ((served, 5) ∷ [])
      (173 ∷ 245 ∷ 63 ∷ 9 ∷ [])
      20
      entry
provider_for-IsSource_example =
    provider_for-IsSource 100 ((served, 5) ∷ []) (173 ∷ 245 ∷ 63 ∷ 9 ∷ []) 20 provider_cloudflare
      (λ e. cc) provider_for-served
