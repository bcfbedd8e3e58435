-- ===== src/Transport.antt =====
-- The way to the Agent: `newAgentClient` and `dialLocalAgent` of agent.go, `validateAgentEndpoint`
-- and `localAgentIP` of plugin.go. Package net's parsers, its resolver and the dialer are
-- parameters.
pub mod Dialling
pub mod Timely
pub mod Endpoint
mod Tests
use sokol_traefik_plugin.Prelude.{
  ℕ, Bool, true, false, not, ◌&&◌, ◌||◌, List, [], ◌∷◌, ◌++◌, Option, none, some, ltb, ◌==◌, ◌!=◌,
  bytes_eq, if◌then◌else◌, length, take,
}
use sokol_traefik_plugin.Text.{Bytes, codes, contains_byte, trim, trim_last}
use sokol_traefik_plugin.Paths.{Paths}
use sokol_traefik_plugin.Net.{Ip, Url}
use sokol_traefik_plugin.Net.Kinds.{is_loopback, is_private, is_link_local_unicast}

unfoldable pub local_agent_ip : Ip → Bool
local_agent_ip ip = ip != [] && (is_loopback ip || is_private ip || is_link_local_unicast ip)

-- The messages of `validateAgentEndpoint`, in order.
pub data EndpointError : Type 0 where
  endpoint_invalid : EndpointError
  socket_not_absolute : EndpointError
  scheme_unknown : EndpointError
  not_an_origin : EndpointError
  ip_not_local : EndpointError
  name_not_local : EndpointError

-- What is used of Go's packages: url.Parse, URL.Hostname, path/filepath, net.ParseIP,
-- net.SplitHostPort with its port, the resolver's LookupIPAddr, and the dialer with an address and a
-- port. The last two are under the context of the request and the connect timeout: each gets the time
-- at which it is called, and gives what comes of it and the time at which it returns.
pub record Network : Type 0 where
  pub parse_url : Bytes → Option Url
  pub hostname : Url → Bytes
  pub paths : Paths
  pub parse_ip : Bytes → Option Ip
  pub split_address : Bytes → Option (Bytes × Bytes)
  pub lookup_ip : ℕ → Bytes → Option (List Ip) × ℕ
  pub dial : ℕ → Ip → Bytes → Bool × ℕ

abbrev pub endpoint_error : Bool → EndpointError → Option EndpointError
endpoint_error wrong e = if wrong then some e else none

-- The URLs and timeouts of the client, and the socket that it dials in place of the network.
pub record AgentClient : Type 0 where
  pub socket : Option Bytes
  pub evaluate_url : Bytes
  pub challenge_create_url : Bytes
  pub challenge_verify_url : Bytes
  pub token : Bytes
  pub connect_timeout : ℕ
  pub timeout : ℕ
  pub challenge_timeout : ℕ

pub data DialError : Type 0 where
  address_invalid : DialError
  address_public : DialError
  unresolved : DialError
  refused : DialError
  no_local_address : DialError

pub data Dialled : Type 0 where
  connected : Ip → Dialled
  failed : DialError → Dialled

abbrev pub maximum_candidates : ℕ
maximum_candidates = 16

module _ (net : Network) where
  -- The host of an endpoint: an address or a name.
  unfoldable pub check_host : Bytes → Option EndpointError
  unfolding contains_byte
  check_host host = elim (net.parse_ip host) [
    | some ip ↦ endpoint_error (not (local_agent_ip ip)) ip_not_local
    | none ↦ endpoint_error (host != codes "localhost" && contains_byte host b'.') name_not_local
  ]

  unfoldable pub check_url : Url → Option EndpointError
  check_url parsed =
      if parsed.scheme == codes "unix"
      then endpoint_error
          (parsed.host != []
            || not (net.paths.is_abs parsed.path)
            || parsed.raw_query != []
            || parsed.fragment != [])
          socket_not_absolute
      else if parsed.scheme != codes "http" && parsed.scheme != codes "https"
      then some scheme_unknown
      else if parsed.has_user
          || parsed.host == []
          || (parsed.path != [] && parsed.path != codes "/")
          || parsed.raw_query != []
          || parsed.fragment != []
      then some not_an_origin
      else check_host (net.hostname parsed)

  unfoldable pub validate_agent_endpoint : Bytes → Option EndpointError
  validate_agent_endpoint value = elim (net.parse_url value) [
    | none ↦ some endpoint_invalid
    | some parsed ↦ check_url parsed
  ]

  abbrev client_at : Bytes → Option Bytes → Bytes → ℕ → ℕ → ℕ → AgentClient
  client_at origin socket token connect_timeout request_timeout challenge_timeout = record {
    socket = socket;
    evaluate_url = origin ++ codes "/v1/evaluate";
    challenge_create_url = origin ++ codes "/v1/challenge/create";
    challenge_verify_url = origin ++ codes "/v1/challenge/verify";
    token = token;
    connect_timeout = connect_timeout;
    timeout = request_timeout;
    challenge_timeout = challenge_timeout;
  }

  unfoldable pub new_agent_client : Bytes → Bytes → ℕ → ℕ → ℕ → Option AgentClient
  unfolding trim_last
  new_agent_client endpoint token connect_timeout request_timeout challenge_timeout =
      elim (net.parse_url endpoint) [
        | none ↦ none
        | some parsed ↦ some (
            if parsed.scheme == codes "unix"
            then client_at (codes "http://sokol-edge-agent") (some (net.paths.clean parsed.path))
                token connect_timeout request_timeout challenge_timeout
            else client_at (trim_last b'/' endpoint) none token connect_timeout request_timeout
                challenge_timeout)
      ]

  -- The loop over the candidates from a time on, and the addresses that it dials. The flag is
  -- `lastError != nil`.
  unfoldable pub dial_candidates : ℕ → Bytes → List Ip → Bool → Dialled × List Ip
  dial_candidates now port [] tried = (failed (if tried then refused else no_local_address), [])
  dial_candidates now port (candidate ∷ rest) tried =
      let skipped = dial_candidates now port rest tried in
      let attempt = net.dial now candidate port in
      let next = dial_candidates attempt.1 port rest true in
      if not (local_agent_ip candidate)
      then skipped
      else if attempt.0
      then (connected candidate, candidate ∷ [])
      else (next.0, candidate ∷ next.1)

  unfoldable pub dial_address : ℕ → Ip → Bytes → Dialled × List Ip
  dial_address now ip port =
      if not (local_agent_ip ip)
      then (failed address_public, [])
      else (if (net.dial now ip port).0 then connected ip else failed refused, ip ∷ [])

  unfoldable pub dial_name : ℕ → Bytes → Bytes → Dialled × List Ip
  dial_name now host port =
      let looked = net.lookup_ip now host in
      elim (looked.0) [
        | none ↦ (failed unresolved, [])
        | some addresses ↦
            dial_candidates looked.1 port
              (if ltb maximum_candidates (length addresses)
                then take maximum_candidates addresses
                else addresses)
              false
      ]

  unfoldable pub dial_local_agent : ℕ → Bytes → Dialled × List Ip
  unfolding trim
  dial_local_agent now address = elim (net.split_address address) [
    | none ↦ (failed address_invalid, [])
    | some (host, port) ↦ elim (net.parse_ip (trim host (codes "[]"))) [
      | some ip ↦ dial_address now ip port
      | none ↦ dial_name now host port
    ]
  ]
