-- ===== src/ClientIp.antt =====
-- The client address of a request, client_ip.go: `extractClientIPWithSource` and what it calls.
-- `net.ParseIP` and `net.SplitHostPort` (its host part) are parameters; an error is a value of
-- `ClientIpError`, and `nil` is `none`.
pub mod Chain
pub mod Spoofing
mod Tests
use sokol_traefik_plugin.Prelude.{
  ℕ, Bool, true, false, not, ◌&&◌, ◌||◌, List, [], ◌∷◌, ◌++◌, reverse, Option, none, some, ltb,
  ◌==◌, bytes_eq, if◌then◌else◌, length,
}
use sokol_traefik_plugin.Text.{Bytes, codes, trim, trim_space, split, contains_byte}
use sokol_traefik_plugin.Net.{Ip, IpNet, Request, contains, header_get, ip_equal}
use sokol_traefik_plugin.Providers.{
  ProviderKind, provider_none, provider_cloudflare, provider_bunny, ProviderRangeStore,
  normalize_ip, in_networks, provider_for,
}

pub data ClientIpError : Type 0 where
  peer_invalid : ClientIpError
  ambiguous_provider : ClientIpError
  provider_client_unresolved : ClientIpError
  provider_header_many : ClientIpError
  provider_header_malformed : ClientIpError
  chain_too_long : ClientIpError
  chain_empty_address : ClientIpError
  chain_invalid_address : ClientIpError

pub record ClientIpConfig : Type 0 where
  pub strategy : Bytes
  pub cloudflare_header : Bytes
  pub bunny_header : Bytes

pub record Resolver : Type 0 where
  pub parse_ip : Bytes → Option Ip
  pub split_host_port : Bytes → Option Bytes

-- The client address, the source of it and the error: the three results of the Go function.
pub record Extracted : Type 0 where
  pub client : Option Ip
  pub source : Bytes
  pub problem : Option ClientIpError

abbrev pub maximum_forwarded_hops : ℕ
maximum_forwarded_hops = 32

unfoldable pub ip_is_trusted : Ip → List IpNet → Bool
unfolding in_networks
ip_is_trusted ip trusted = in_networks trusted (normalize_ip ip)

abbrev pub brackets : Bytes
brackets = codes "[]"

-- The loop over the hops from the right, and the address that it has come to.
unfoldable pub walk_hops : List IpNet → Ip → List Ip → Ip
walk_hops trusted current [] = current
walk_hops trusted current (hop ∷ hops) =
    let further = walk_hops trusted hop hops in
    if not (ip_is_trusted current trusted) then current else further

-- The error that stands for a peer, for the log and for the source.
abbrev pub is_unresolved : ClientIpError → Bool
is_unresolved provider_client_unresolved = true
is_unresolved _ = false

unfoldable pub recognized_provider_source :
    Ip → Option ProviderRangeStore → ℕ → Option ClientIpError → Bytes
recognized_provider_source peer providers now (some problem) =
    if is_unresolved problem then codes "cdn_unresolved" else codes "fallback_error"
recognized_provider_source peer providers now none =
    let answer = provider_for providers peer now in
    if answer.1 then codes "fallback_error" else elim answer.0 [
      | provider_cloudflare ↦ codes "cloudflare"
      | provider_bunny ↦ codes "bunny"
      | provider_none ↦ codes "fallback_error"
    ]

unfoldable pub walk_parsed :
    List IpNet → Ip → List Ip × Option ClientIpError → Ip × Option ClientIpError
walk_parsed trusted direct (hops, some problem) = (direct, some problem)
walk_parsed trusted direct (hops, none) = (walk_hops trusted direct (reverse hops), none)

-- The check of the client's own address, at the end of `extractRecognizedProviderIP`.
unfoldable pub confirm_client :
    Option ProviderRangeStore → ℕ → Ip → Ip × Option ClientIpError → Ip × Option ClientIpError
confirm_client providers now peer (client, some problem) = (client, some problem)
confirm_client providers now peer (client, none) = elim (provider_for providers client now).0 [
  | provider_none ↦ (client, none)
  | _ ↦ (peer, some provider_client_unresolved)
]

abbrev pub found : Ip → Bytes → Option ClientIpError → Extracted
found client source problem = record { client = some client; source = source; problem = problem }

abbrev pub recognized : Ip → Option ProviderRangeStore → ℕ → Ip × Option ClientIpError → Extracted
recognized peer providers now (client, problem) =
    found client (recognized_provider_source peer providers now problem) problem

module _ (net : Resolver) where
  unfoldable pub parse_remote_ip : Bytes → Option Ip
  unfolding trim trim_space
  parse_remote_ip value =
      let host : Bytes = elim (net.split_host_port value) [ none ↦ value | some h ↦ h ] in
      elim (net.parse_ip (trim (trim_space host) brackets)) [
        | none ↦ none
        | some ip ↦ some (normalize_ip ip)
      ]

  -- The value of the header is the address of the client, alone.
  unfoldable pub extract_provider_ip : Request → Ip → Bytes → Ip × Option ClientIpError
  extract_provider_ip request direct header =
      let value = trim_space (header_get request.header header) in
      if value == []
      then (direct, none)
      else if contains_byte value b','
      then (direct, some provider_header_many)
      else elim (net.parse_ip (trim value brackets)) [
        | none ↦ (direct, some provider_header_malformed)
        | some ip ↦ (normalize_ip ip, none)
      ]

  -- The loop that parses the hops of the chain.
  unfoldable pub parse_hops : List Bytes → List Ip × Option ClientIpError
  parse_hops [] = ([], none)
  parse_hops (item ∷ rest) =
      let later = parse_hops rest in
      let text = trim_space item in
      if text == []
      then ([], some chain_empty_address)
      else elim (net.parse_ip (trim text brackets)) [
        | none ↦ ([], some chain_invalid_address)
        | some ip ↦ (normalize_ip ip ∷ later.0, later.1)
      ]

  unfoldable pub extract_forwarded_ip : Request → Ip → List IpNet → Ip × Option ClientIpError
  extract_forwarded_ip request direct trusted =
      let value = header_get request.header (codes "X-Forwarded-For") in
      let raw = split value b',' in
      if value == [] || not (ip_is_trusted direct trusted)
      then (direct, none)
      else if ltb maximum_forwarded_hops (length raw)
      then (direct, some chain_too_long)
      else walk_parsed trusted direct (parse_hops raw)

  unfoldable pub from_header :
      Request → Ip → Option ProviderRangeStore → ℕ → Bytes → Ip × Option ClientIpError
  from_header request peer providers now header =
      if trim_space (header_get request.header header) == []
      then (peer, some provider_client_unresolved)
      else confirm_client providers now peer (extract_provider_ip request peer header)

  -- `none` where the peer is of no provider.
  unfoldable pub extract_recognized_provider_ip :
      Request
      → Ip
      → ClientIpConfig
      → Option ProviderRangeStore
      → ℕ
      → Option (Ip × Option ClientIpError)
  extract_recognized_provider_ip request peer strategy providers now =
      let answer = provider_for providers peer now in
      if answer.1 then some (peer, some ambiguous_provider) else elim answer.0 [
        | provider_cloudflare ↦
            some (from_header request peer providers now strategy.cloudflare_header)
        | provider_bunny ↦ some (from_header request peer providers now strategy.bunny_header)
        | provider_none ↦ none
      ]

  -- The case "forwarded" after the chain.
  unfoldable pub after_chain :
      Request
      → Ip
      → ClientIpConfig
      → Option ProviderRangeStore
      → ℕ
      → Ip × Option ClientIpError
      → Extracted
  after_chain request direct strategy providers now (forwarded, some problem) =
      found forwarded (codes "fallback_error") (some problem)
  after_chain request direct strategy providers now (forwarded, none) =
      elim (extract_recognized_provider_ip request forwarded strategy providers now) [
        | some result ↦ recognized forwarded providers now result
        | none ↦
            if ip_equal forwarded direct
            then found forwarded (codes "direct") none
            else found forwarded (codes "forwarded") none
      ]

  -- The switch on the strategy: every other strategy is "direct".
  unfoldable pub by_strategy :
      Request → Ip → ClientIpConfig → List IpNet → Option ProviderRangeStore → ℕ → Extracted
  by_strategy request direct strategy trusted providers now =
      if strategy.strategy == codes "forwarded"
      then after_chain request direct strategy providers now
          (extract_forwarded_ip request direct trusted)
      else found direct (codes "direct") none

  unfoldable pub extract_client_ip_with_source :
      Request → ClientIpConfig → List IpNet → Option ProviderRangeStore → ℕ → Extracted
  extract_client_ip_with_source request strategy trusted providers now =
      elim (parse_remote_ip request.remote_addr) [
        | none ↦ record {
          client = none;
          source = codes "fallback_error";
          problem = some peer_invalid;
        }
        | some direct ↦
            elim (extract_recognized_provider_ip request direct strategy providers now) [
              | some result ↦ recognized direct providers now result
              | none ↦ by_strategy request direct strategy trusted providers now
            ]
      ]
