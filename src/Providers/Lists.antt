-- ===== src/Providers/Lists.antt =====
-- The published lists of the networks, provider_ranges.go: `fetch` on what the server answers, the
-- two parsers, `parseProviderNetworks`, `publicProviderIP` and the sources. The exchange, the XML
-- decoder, `net.ParseCIDR`, `net.ParseIP` and `IPNet.String` are parameters.
pub mod Public
pub mod Rounds
use sokol_traefik_plugin.Prelude.{
  ℕ, ◌+◌, Bool, true, false, not, ◌&&◌, ◌||◌, List, [], ◌∷◌, ◌++◌, map, Option, none, some, ltb,
  leb, ◌==◌, ◌!=◌, nat_eq, bytes_eq, if◌then◌else◌, length, take, any,
}
use sokol_traefik_plugin.Text.{Bytes, codes, trim_space, split}
use sokol_traefik_plugin.Net.{BodyStream, Ip, IpNet, to4, mask_ip}
use sokol_traefik_plugin.Net.Kinds.{
  is_global_unicast, is_private, is_loopback, is_link_local_unicast, is_link_local_multicast,
}
use sokol_traefik_plugin.Providers.{
  ProviderKind, provider_cloudflare, provider_bunny, ProviderSourceFormat, plain, xml,
  ProviderSource, ProviderRangeStore, normalize_ip, refresh,
}

pub data ListError : Type 0 where
  no_request : ListError
  no_answer : ListError
  unexpected_status : ListError
  unreadable : ListError
  response_too_large : ListError
  line_too_long : ListError
  xml_malformed : ListError
  xml_unexpected_root : ListError
  list_empty : ListError
  list_too_long : ListError
  invalid_address : ListError
  address_not_public : ListError
  no_unique_addresses : ListError

pub data ListResult (T : Type 0) : Type 0 where
  rejected : ListError → ListResult T
  accepted : T → ListResult T

-- The next step, where this one is accepted.
infixl 5 ◌>>=◌
abbrev pub ◌>>=◌ : {T U : Type 0} → ListResult T → (T → ListResult U) → ListResult U
rejected problem >>= next = rejected problem
accepted value >>= next = next value

abbrev pub provider_maximum_bytes : ℕ
provider_maximum_bytes = 2_097_152

abbrev pub provider_maximum_ranges : ℕ
provider_maximum_ranges = 8192

-- The buffer of the scanner: a line without its end must be shorter.
abbrev pub maximum_line : ℕ
maximum_line = 65_536

unfoldable pub public_provider_ip : Ip → Bool
public_provider_ip ip =
    ip != []
    && is_global_unicast ip
    && not (is_private ip)
    && not (is_loopback ip)
    && not (is_link_local_unicast ip)
    && not (is_link_local_multicast ip)

-- The loop over the scanner's lines; `none` where a line does not fit the buffer.
unfoldable pub scan_values : List Bytes → ListResult (List Bytes)
scan_values [] = accepted []
scan_values (line ∷ rest) =
    let later = scan_values rest in
    let value = trim_space line in
    if leb maximum_line (length line)
    then rejected line_too_long
    else (do values ← later; accepted (if value == [] then values else value ∷ values))

unfoldable pub parse_plain_provider_values : Bytes → ListResult (List Bytes)
unfolding scan_values split
parse_plain_provider_values text = scan_values (split text b'\n')

-- What `fetch` gets for the URL of a source.
pub data ProviderReply : Type 0 where
  not_requested : ProviderReply
  not_answered : ProviderReply
  answered : ℕ → BodyStream → ProviderReply

pub record ListEnv : Type 0 where
  pub request : Bytes → ProviderReply
  pub parse_cidr : Bytes → Option (Ip × IpNet)
  pub parse_ip : Bytes → Option Ip
  pub net_string : IpNet → Bytes
  pub decode_xml : Bytes → Option (Bytes × List Bytes)

-- `io.ReadAll` on the limited body, and the check of its length.
unfoldable pub read_list : BodyStream → ListResult Bytes
unfolding take
read_list stream =
    if stream.broken && leb (length stream.bytes) provider_maximum_bytes
    then rejected unreadable
    else if ltb provider_maximum_bytes (length (take (provider_maximum_bytes + 1) stream.bytes))
    then rejected response_too_large
    else accepted (take (provider_maximum_bytes + 1) stream.bytes)

-- net.CIDRMask(bits, bits) for an address of that many bits.
abbrev pub full_mask : Ip → Bytes
full_mask ip = map (λ b. 255) (if to4 ip == [] then ip else to4 ip)

module _ (env : ListEnv) where
  unfoldable pub parse_xml_provider_values : Bytes → ListResult (List Bytes)
  parse_xml_provider_values text = elim (env.decode_xml text) [
    | none ↦ rejected xml_malformed
    | some (root, values) ↦
        if root != codes "ArrayOfstring"
        then rejected xml_unexpected_root
        else accepted (map trim_space values)
  ]

  -- The network of one value: a CIDR, or an address alone.
  unfoldable pub parse_network : Bytes → ListResult IpNet
  unfolding mask_ip normalize_ip
  parse_network value = elim (env.parse_cidr value) [
    | some (ip, network) ↦ accepted (record network { ip = normalize_ip (mask_ip ip network.mask) })
    | none ↦ elim (env.parse_ip value) [
      | none ↦ rejected invalid_address
      | some ip ↦ accepted (record { ip = normalize_ip ip; mask = full_mask (normalize_ip ip) })
    ]
  ]

  unfoldable pub parse_public : Bytes → ListResult IpNet
  parse_public value = do
    network ← parse_network value
    if public_provider_ip network.ip then accepted network else rejected address_not_public

  -- The loop over the values, with the keys seen so far.
  unfoldable pub collect_networks : List Bytes → List Bytes → ListResult (List IpNet)
  unfolding any
  collect_networks seen [] = accepted []
  collect_networks seen (value ∷ rest) = do
    network ← parse_public value
    let key = env.net_string network
    let old = any (λ k. k == key) seen
    networks ← collect_networks (if old then seen else key ∷ seen) rest
    accepted (if old then networks else network ∷ networks)

  unfoldable pub parse_provider_networks : List Bytes → ListResult (List IpNet)
  parse_provider_networks values =
      if length values == 0
      then rejected list_empty
      else if ltb provider_maximum_ranges (length values)
      then rejected list_too_long
      else (do
        networks ← collect_networks [] values
        if length networks == 0 then rejected no_unique_addresses else accepted networks)

  unfoldable pub parse_values : ProviderSourceFormat → Bytes → ListResult (List Bytes)
  parse_values plain text = parse_plain_provider_values text
  parse_values xml text = parse_xml_provider_values text

  unfoldable pub read_answer : ProviderSourceFormat → ProviderReply → ListResult (List IpNet)
  read_answer format not_requested = rejected no_request
  read_answer format not_answered = rejected no_answer
  read_answer format (answered status body) =
      if status != 200 then rejected unexpected_status else (do
        text ← read_list body
        values ← parse_values format text
        parse_provider_networks values)

  unfoldable pub fetch : ProviderSource → ListResult (List IpNet)
  fetch source = read_answer source.format (env.request source.url)

  abbrev pub fetched : ProviderSource → Option (List IpNet)
  fetched source = elim (fetch source) [ accepted networks ↦ some networks | rejected e ↦ none ]

abbrev pub default_provider_sources : List ProviderSource
default_provider_sources =
    record {
      name = codes "cloudflare-ipv4";
      provider = provider_cloudflare;
      url = codes "https://www.cloudflare.com/ips-v4";
      format = plain;
    }
    ∷ record {
      name = codes "cloudflare-ipv6";
      provider = provider_cloudflare;
      url = codes "https://www.cloudflare.com/ips-v6";
      format = plain;
    }
    ∷ record {
      name = codes "bunny-edges";
      provider = provider_bunny;
      url = codes "https://bunnycdn.com/api/system/edgeserverlist";
      format = xml;
    }
    ∷ record {
      name = codes "bunny-nodes";
      provider = provider_bunny;
      url = codes "https://api.bunny.net/mc/nodes/plain";
      format = plain;
    }
    ∷ []

-- `run`: a refresh at the start and at each tick, each with what the servers answer then. The last
-- round is the first of the list.
unfoldable pub run : ProviderRangeStore → List (ListEnv × ℕ) → ProviderRangeStore
run store [] = store
run store ((env, now) ∷ past) = refresh (fetched env) default_provider_sources now (run store past)
