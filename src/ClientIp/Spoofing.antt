-- ===== src/ClientIp/Spoofing.antt =====
-- What a client cannot choose: which headers count, and from whom.
use sokol_traefik_plugin.Prelude.{
  ℕ, ◌≡◌, ◌≢◌, ◌⊎◌, true, false, List, [], Option, none, some, bytes_eq, bytes_beq_iff, arith,
}
use sokol_traefik_plugin.Text.{Bytes, codes, contains_byte, trim, trim_space}
use sokol_traefik_plugin.Net.{Ip, IpNet, Request, header_get, ip_equal}
use sokol_traefik_plugin.Providers.{
  normalize_ip, ProviderKind, provider_cloudflare, provider_bunny, provider_none,
  ProviderRangeStore, provider_for,
}
use sokol_traefik_plugin.ClientIp.{
  brackets, ClientIpError, ClientIpConfig, Resolver, ip_is_trusted, parse_remote_ip,
  extract_forwarded_ip, extract_recognized_provider_ip, after_chain, by_strategy,
  extract_client_ip_with_source,
}

not_recognized :
    (net : Resolver) (request : Request) (peer : Ip) (strategy : ClientIpConfig)
    (providers : Option ProviderRangeStore) (now : ℕ)
    → provider_for providers peer now ≡ (provider_none, false)
    → extract_recognized_provider_ip net request peer strategy providers now ≡ none
unfolding extract_recognized_provider_ip
not_recognized net request peer strategy providers now h = rw h

-- An equal address is of the same kind.
ip_equal_refl : (ip : Ip) → ip_equal ip ip ≡ true
unfolding ip_equal
ip_equal_refl ip = ground (arith, bytes_beq_iff ip ip)

-- A peer that is neither trusted nor of a provider is itself the client, whatever the headers of
-- the request say and whatever the strategy is.
pub extract_client_ip_untrusted :
    (net : Resolver) (request : Request) (strategy : ClientIpConfig) (trusted : List IpNet)
    (providers : Option ProviderRangeStore) (now : ℕ) (direct : Ip)
    → parse_remote_ip net request.remote_addr ≡ some direct
    → provider_for providers direct now ≡ (provider_none, false)
    → ip_is_trusted direct trusted ≡ false
    → extract_client_ip_with_source net request strategy trusted providers now
      ≡ record { client = some direct; source = codes "direct"; problem = none }
unfolding extract_client_ip_with_source by_strategy after_chain extract_forwarded_ip
extract_client_ip_untrusted net request strategy trusted providers now direct parsed unknown
      distrusted =
    ground (
      arith,
      not_recognized net request direct strategy providers now unknown,
      ip_equal_refl direct,
    )

-- The headers in which the two providers name the client.
abbrev pub IsHeaderOf : ProviderKind → ClientIpConfig → Bytes → Type 0
IsHeaderOf kind strategy header =
    ((kind ≡ provider_cloudflare) × (header ≡ strategy.cloudflare_header))
    ⊎ ((kind ≡ provider_bunny) × (header ≡ strategy.bunny_header))

module _ (net : Resolver) (request : Request) (peer : Ip) (providers : Option ProviderRangeStore)
    (now : ℕ) where
  -- The header gives one address, which is the client once it is normalized, and for which no one
  -- provider is found.
  abbrev pub IsNamed : Bytes → Ip → Type 0
  IsNamed header client =
      (ip : Ip) × (trim_space (header_get request.header header) ≢ [])
      × (contains_byte (trim_space (header_get request.header header)) b',' ≡ false)
      × (net.parse_ip (trim (trim_space (header_get request.header header)) brackets) ≡ some ip)
      × (client ≡ normalize_ip ip)
      × ((provider_for providers client now).0 ≡ provider_none)

  -- An answer for the header: the named client, or the peer and a problem where there is none.
  abbrev IsAnswer : Bytes → Ip × Option ClientIpError → Type 0
  IsAnswer header (client, problem) =
      ((problem ≡ none) × IsNamed header client)
      ⊎ ((problem ≢ none) × (client ≡ peer) × ((other : Ip) → ¬ IsNamed header other))

  -- The header of the peer's provider names the client, or it is missing, malformed or names an
  -- address for which one provider is found.
  abbrev pub IsResolved : ClientIpConfig → Ip → Type 0
  IsResolved strategy client =
      ((provider_for providers peer now).1 ≡ false)
      × ((header : Bytes) × IsHeaderOf (provider_for providers peer now).0 strategy header
          × IsNamed header client)

  abbrev pub IsUnresolved : ClientIpConfig → Type 0
  IsUnresolved strategy =
      ((provider_for providers peer now).1 ≡ true)
      ⊎ ((header : Bytes) × IsHeaderOf (provider_for providers peer now).0 strategy header
          × ((other : Ip) → ¬ IsNamed header other))
