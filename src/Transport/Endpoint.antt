-- ===== src/Transport/Endpoint.antt =====
-- Which endpoints `validateAgentEndpoint` accepts.
use sokol_traefik_plugin.Prelude.{
  ◌≡◌, ◌≢◌, ◌↔◌, ◌⊎◌, inl, inr, true, false, [], none, some, ◌==◌, bytes_eq, bytes_beq_iff,
  Bool-cases, Option-cases, arith,
}
use sokol_traefik_plugin.Text.{Bytes, codes, contains_byte}
use sokol_traefik_plugin.Net.{Ip, Url}
use sokol_traefik_plugin.Transport.{
  Network, local_agent_ip, check_host, check_url, validate_agent_endpoint,
}

module _ (net : Network) where
  -- A local address, `localhost`, or a name of one label.
  abbrev pub IsLocalHost : Bytes → Type 0
  IsLocalHost host =
      ((ip : Ip) × (net.parse_ip host ≡ some ip) × (local_agent_ip ip ≡ true))
      ⊎ ((net.parse_ip host ≡ none)
          × ((host ≡ codes "localhost") ⊎ (contains_byte host b'.' ≡ false)))

  abbrev pub IsSocket : Url → Type 0
  IsSocket u =
      (u.scheme ≡ codes "unix")
      × (u.host ≡ [])
      × (net.paths.is_abs u.path ≡ true)
      × (u.raw_query ≡ [])
      × (u.fragment ≡ [])

  -- Nothing but a scheme and a local host, with its port.
  abbrev pub IsOrigin : Url → Type 0
  IsOrigin u =
      ((u.scheme ≡ codes "http") ⊎ (u.scheme ≡ codes "https"))
      × (u.has_user ≡ false)
      × (u.host ≢ [])
      × ((u.path ≡ []) ⊎ (u.path ≡ codes "/"))
      × (u.raw_query ≡ [])
      × (u.fragment ≡ [])
      × IsLocalHost (net.hostname u)

  check_host_iff : (host : Bytes) → (check_host net host ≡ none) ↔ IsLocalHost host
  unfolding check_host
  check_host_iff host = elim (Option-cases (net.parse_ip host)) [
    | inl name ↦ (
      λ h. inr (name, ground (arith, bytes_beq_iff host (codes "localhost"))),
      λ h. elim h [
        | inl (ip, parsed, here) ↦ absurd (ground arith)
        | inr (e, here) ↦ ground (arith, bytes_beq_iff host (codes "localhost"))
      ],
    )
    | inr (ip, parsed) ↦ (
      λ h. inl (ip, parsed, ground arith),
      λ h. elim h [
        | inl (ip', parsed', here) ↦ ground arith
        | inr (e, here) ↦ absurd (ground arith)
      ],
    )
  ]

  check-IsSocket : (u : Url) → u.scheme ≡ codes "unix" → (check_url net u ≡ none) ↔ (IsSocket u)
  unfolding check_url
  check-IsSocket u unix = ground (
    arith,
    bytes_beq_iff u.scheme (codes "unix"),
    bytes_beq_iff u.host [],
    bytes_beq_iff u.raw_query [],
    bytes_beq_iff u.fragment [],
  )

  -- The same without the host.
  origin_lem :
      (u : Url)
      → u.scheme ≢ codes "unix"
      → check_url net u ≡ none
      → ((u.scheme ≡ codes "http") ⊎ (u.scheme ≡ codes "https"))
        × (u.has_user ≡ false)
        × (u.host ≢ [])
        × ((u.path ≡ []) ⊎ (u.path ≡ codes "/"))
        × (u.raw_query ≡ [])
        × (u.fragment ≡ [])
        × (check_host net (net.hostname u) ≡ none)
  unfolding check_url
  origin_lem u other h = ground (
    arith,
    bytes_beq_iff u.scheme (codes "unix"),
    bytes_beq_iff u.scheme (codes "http"),
    bytes_beq_iff u.scheme (codes "https"),
    bytes_beq_iff u.host [],
    bytes_beq_iff u.path [],
    bytes_beq_iff u.path (codes "/"),
    bytes_beq_iff u.raw_query [],
    bytes_beq_iff u.fragment [],
  )

  origin_back : (u : Url) → u.scheme ≢ codes "unix" → IsOrigin u → check_url net u ≡ none
  unfolding check_url
  origin_back u other (scheme, user, host, path, query, fragment, here) =
      let checked = (check_host_iff (net.hostname u)).1 here in
      ground (
        arith,
        checked,
        bytes_beq_iff u.scheme (codes "unix"),
        bytes_beq_iff u.scheme (codes "http"),
        bytes_beq_iff u.scheme (codes "https"),
        bytes_beq_iff u.host [],
        bytes_beq_iff u.path [],
        bytes_beq_iff u.path (codes "/"),
        bytes_beq_iff u.raw_query [],
        bytes_beq_iff u.fragment [],
      )

  IsOrigin-ne-unix : (u : Url) → IsOrigin u → u.scheme ≢ codes "unix"
  IsOrigin-ne-unix u o e = elim o.0 [ inl http ↦ ground arith | inr https ↦ ground arith ]

  check_url_iff : (u : Url) → (check_url net u ≡ none) ↔ (IsSocket u ⊎ IsOrigin u)
  check_url_iff u = elim (Bool-cases (u.scheme == codes "unix")) [
    | inl same ↦
        let unix = (bytes_beq_iff u.scheme (codes "unix")).0 same in
        (
          λ h. inl ((check-IsSocket u unix).0 h),
          λ h. elim h [
            | inl s ↦ (check-IsSocket u unix).1 s
            | inr o ↦ absurd (IsOrigin-ne-unix u o unix)
          ],
        )
    | inr differs ↦
        let other : u.scheme ≢ codes "unix" =
          λ e. ground (arith, differs, (bytes_beq_iff u.scheme (codes "unix")).1 e) in
        (
          λ h.
              let (scheme, user, host, path, query, fragment, checked) = origin_lem u other h in
              inr (
                scheme,
                user,
                host,
                path,
                query,
                fragment,
                (check_host_iff (net.hostname u)).0 checked,
              ),
          λ h. elim h [ inl s ↦ absurd (other s.0) | inr o ↦ origin_back u other o ],
        )
  ]

  -- An endpoint passes exactly when it parses as the URL of a Unix socket with an absolute path, or as
  -- an HTTP origin with nothing else in it whose host is an address of a local range, `localhost` or
  -- a name without a dot.
  pub validate_agent_endpoint_iff :
      (value : Bytes)
      → (validate_agent_endpoint net value ≡ none)
        ↔ ((u : Url) × (net.parse_url value ≡ some u) × (IsSocket u ⊎ IsOrigin u))
  unfolding validate_agent_endpoint
  validate_agent_endpoint_iff value = elim (Option-cases (net.parse_url value)) [
    | inl bad ↦ (λ h. absurd (ground arith), λ (u, parsed, good). absurd (ground arith))
    | inr (u, parsed) ↦ (
      λ h. (u, parsed, (check_url_iff u).0 (ground arith)),
      λ (u', parsed', good). let checked = (check_url_iff u').1 good in ground (arith, checked),
    )
  ]
