-- ===== src/ClientIp/Tests.antt =====
-- The theorems about client addresses at concrete inputs.
use sokol_traefik_plugin.Prelude.{
  ◌≡◌, ◌≢◌, refl, true, false, [], ◌∷◌, reverse, none, some, take, drop, bytes_beq, bytes_eq, ◌==◌,
  if◌then◌else◌, arith, pos, all,
}
use sokol_traefik_plugin.Prelude.GoMap.{lookup, insert}
use sokol_traefik_plugin.Text.{Bytes, codes, contains_byte, split, trim, trim_space}
use sokol_traefik_plugin.Net.{
  Ip, IpNet, Request, contains, to4, to16, masked_eq, network_number, network_mask, header_get,
  values, first_of_values, canonical_header_key, canonical_from,
}
use sokol_traefik_plugin.Providers.{
  provider_none, provider_cloudflare, provider_bunny, ProviderRangeStore, normalize_ip,
  new_provider_range_store, replace, provider_for, decide_provider, scan_sources, in_networks,
}
use sokol_traefik_plugin.ClientIp.{
  ClientIpConfig, Resolver, ip_is_trusted, walk_hops, parse_remote_ip, extract_provider_ip,
  parse_hops, walk_parsed, extract_forwarded_ip, confirm_client, from_header,
  extract_recognized_provider_ip, extract_client_ip_with_source,
}
use sokol_traefik_plugin.ClientIp.Chain.{IsBoundary, extract_forwarded_ip-IsBoundary}
use sokol_traefik_plugin.ClientIp.Spoofing.{extract_client_ip_untrusted}

program : Unit {0}
unfolding provider_for decide_provider scan_sources in_networks normalize_ip to4 to16 contains
    masked_eq network_number network_mask bytes_beq take drop replace new_provider_range_store
    insert lookup header_get values first_of_values canonical_header_key canonical_from
    contains_byte all split trim trim_space ip_is_trusted walk_hops parse_remote_ip
    extract_provider_ip parse_hops walk_parsed extract_forwarded_ip confirm_client from_header
    extract_recognized_provider_ip
program = tt

-- The peer, an inner proxy, the visitor, and what the visitor claims.
abbrev peer : Ip
peer = 10 ∷ 0 ∷ 0 ∷ 1 ∷ []

abbrev proxy : Ip
proxy = 10 ∷ 0 ∷ 0 ∷ 2 ∷ []

abbrev visitor : Ip
visitor = 192 ∷ 0 ∷ 2 ∷ 7 ∷ []

abbrev claimed : Ip
claimed = 198 ∷ 51 ∷ 100 ∷ 9 ∷ []

abbrev net : Resolver
net = record {
  parse_ip = λ s.
      (if s == codes "p"
        then some peer
        else if s == codes "q"
        then some proxy
        else if s == codes "v"
        then some visitor
        else if s == codes "c"
        then some claimed
        else none);
  split_host_port = λ s. none;
}

abbrev inner : IpNet
inner = record { ip = 10 ∷ 0 ∷ 0 ∷ 0 ∷ []; mask = 255 ∷ 0 ∷ 0 ∷ 0 ∷ [] }

abbrev request : Bytes → Request
request remote = record {
  method = codes "GET";
  host = codes "h";
  path = codes "/";
  raw_query = [];
  remote_addr = remote;
  proto = codes "HTTP/1.1";
  is_tls = false;
  header =
      (codes "X-Forwarded-For", codes "c, v, q" ∷ [])
      ∷ (codes "Cf-Connecting-Ip", codes "c" ∷ [])
      ∷ [];
  cookies = [];
  content_length = pos 0;
  transfer_encoding = [];
  body = none;
}

abbrev forwarding : ClientIpConfig
forwarding = record {
  strategy = codes "forwarded";
  cloudflare_header = codes "CF-Connecting-IP";
  bunny_header = codes "X-Real-IP";
}

-- The client is the visitor: what stands to the left of it is not looked at.
extract_forwarded_ip_run :
    extract_forwarded_ip net (request (codes "p")) peer (inner ∷ []) ≡ (visitor, none)
unfolding program
extract_forwarded_ip_run = refl

extract_forwarded_ip-IsBoundary_example :
    ((extract_forwarded_ip net (request (codes "p")) peer (inner ∷ [])).1 ≡ none)
    × IsBoundary
        (inner ∷ [])
        (peer ∷ reverse (claimed ∷ visitor ∷ proxy ∷ []))
        (extract_forwarded_ip net (request (codes "p")) peer (inner ∷ [])).0
unfolding program
extract_forwarded_ip-IsBoundary_example =
    extract_forwarded_ip-IsBoundary net (request (codes "p")) peer (inner ∷ [])
      (claimed ∷ visitor ∷ proxy ∷ []) given refl (omega arith) refl
  where
    given : codes "c, v, q" ≢ []
    given e = cc

extract_client_ip_untrusted_example :
    extract_client_ip_with_source net (request (codes "v")) forwarding (inner ∷ []) none 5
    ≡ record { client = some visitor; source = codes "direct"; problem = none }
unfolding program
extract_client_ip_untrusted_example =
    extract_client_ip_untrusted net (request (codes "v")) forwarding (inner ∷ []) none 5 visitor
      refl refl refl

-- The peer is of Cloudflare, and its header is believed.
abbrev edge_store : ProviderRangeStore
unfolding replace new_provider_range_store insert
edge_store =
    replace (new_provider_range_store 100) (codes "cloudflare_v4") provider_cloudflare (inner ∷ [])
      5

abbrev both : IpNet
both = record { ip = claimed; mask = 255 ∷ 255 ∷ 255 ∷ 255 ∷ [] }

-- The address in the header is in the ranges of both providers, and still becomes the client.
abbrev shared_store : ProviderRangeStore
unfolding replace new_provider_range_store insert
shared_store =
    replace (replace edge_store (codes "cloudflare_v6") provider_cloudflare (both ∷ []) 5)
      (codes "bunny_v4") provider_bunny (both ∷ []) 5

extract_recognized_provider_ip_run :
    (provider_for (some shared_store) claimed 20 ≡ (provider_none, true))
    × (extract_recognized_provider_ip net
          (request (codes "p"))
          peer
          forwarding
          (some shared_store)
          20
        ≡ some (claimed, none))
unfolding program
extract_recognized_provider_ip_run = (refl, refl)
