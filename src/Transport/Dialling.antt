-- ===== src/Transport/Dialling.antt =====
-- Which addresses `dialLocalAgent` dials, and which of them it connects to.
use sokol_traefik_plugin.Prelude.{
  ℕ, ◌≤◌, ◌≡◌, ◌≢◌, ◌⊎◌, inl, inr, Bool, true, false, List, [], ◌∷◌, ltb, ◌==◌, nat_eq, bytes_eq,
  bytes_beq_iff, if◌then◌else◌, length, take, length-take-le, All, Bool-cases, Option-cases, arith,
}
use sokol_traefik_plugin.Text.{Bytes, codes, trim}
use sokol_traefik_plugin.Net.{Ip, to4, ip_equal}
use sokol_traefik_plugin.Net.Kinds.{
  byte0, byte1, is_loopback, is_private, is_link_local_unicast, ipv6_loopback,
}
use sokol_traefik_plugin.Transport.{
  Network, local_agent_ip, maximum_candidates, dial_candidates, dial_address, dial_name,
  dial_local_agent,
}

-- The ranges of local addresses: loopback, private and link-local, of both families.
abbrev pub IsLocal4 : Ip → Type 0
IsLocal4 short =
    (byte0 short ≡ 127)
    ⊎ ((byte0 short ≡ 10)
        ⊎ (((byte0 short ≡ 172) × (16 ≤ byte1 short) × (byte1 short ≤ 31))
            ⊎ (((byte0 short ≡ 192) × (byte1 short ≡ 168))
                ⊎ ((byte0 short ≡ 169) × (byte1 short ≡ 254)))))

abbrev pub IsLocal6 : Ip → Type 0
IsLocal6 ip =
    (ip_equal ip ipv6_loopback ≡ true)
    ⊎ (((length ip ≡ 16) × (252 ≤ byte0 ip) × (byte0 ip ≤ 253))
        ⊎ ((length ip ≡ 16) × (byte0 ip ≡ 254) × (128 ≤ byte1 ip) × (byte1 ip ≤ 191)))

abbrev pub IsLocalAddress : Ip → Type 0
IsLocalAddress ip = ((to4 ip ≢ []) × IsLocal4 (to4 ip)) ⊎ ((to4 ip ≡ []) × IsLocal6 ip)

pub local_agent_ip-IsLocalAddress : (ip : Ip) → local_agent_ip ip ≡ true → IsLocalAddress ip
unfolding local_agent_ip is_loopback is_private is_link_local_unicast
local_agent_ip-IsLocalAddress ip h = elim (Bool-cases (to4 ip == [])) [
  | inl long ↦ inr ((bytes_beq_iff (to4 ip) []).0 long, ground arith)
  | inr short ↦ inl (λ e. ground (arith, bytes_beq_iff (to4 ip) []), ground arith)
]

module _ (net : Network) where
  All-dial_candidates :
      (now : ℕ) (port : Bytes) (candidates : List Ip) (tried : Bool)
      → All IsLocalAddress (dial_candidates net now port candidates tried).1
  unfolding dial_candidates
  All-dial_candidates now port [] tried = tt
  All-dial_candidates now port (c ∷ rest) tried = elim (Bool-cases (local_agent_ip c)) [
    | inr outside ↦ rw (outside, dial_candidates) (All-dial_candidates now port rest tried)
    | inl local' ↦ elim (Bool-cases ((net.dial now c port).0)) [
      | inl open' ↦ rw (local', open', dial_candidates) (local_agent_ip-IsLocalAddress c local', tt)
      | inr shut ↦
          rw (local', shut, dial_candidates)
            (
              local_agent_ip-IsLocalAddress c local',
              All-dial_candidates (net.dial now c port).1 port rest true,
            )
    ]
  ]

  length-dial_candidates-le :
      (now : ℕ) (port : Bytes) (candidates : List Ip) (tried : Bool)
      → length (dial_candidates net now port candidates tried).1 ≤ length candidates
  unfolding dial_candidates
  length-dial_candidates-le now port [] tried = omega arith
  length-dial_candidates-le now port (c ∷ rest) tried = ground (
    arith,
    length-dial_candidates-le now port rest tried,
    length-dial_candidates-le (net.dial now c port).1 port rest true,
  )

  dial_name-AllLocal :
      (now : ℕ) (host port : Bytes)
      → All IsLocalAddress (dial_name net now host port).1
        × (length (dial_name net now host port).1 ≤ 16)
  unfolding dial_name
  dial_name-AllLocal now host port = elim (Option-cases ((net.lookup_ip now host).0)) [
    | inl unknown ↦ rw (unknown, dial_name) (tt, omega arith)
    | inr (addresses, found) ↦
        let candidates =
          if ltb maximum_candidates (length addresses)
          then take maximum_candidates addresses
          else addresses in
        let start = (net.lookup_ip now host).1 in
        rw (found, dial_name)
          (
            All-dial_candidates start port candidates false,
            ground (
              arith,
              length-dial_candidates-le start port candidates false,
              length-take-le maximum_candidates addresses,
            ),
          )
  ]

  -- Whatever the address to dial and whatever a name resolves to, `dialLocalAgent` dials at most 16
  -- addresses, each of a loopback, private or link-local range.
  pub dial_local_agent-AllLocal :
      (now : ℕ) (address : Bytes)
      → All IsLocalAddress (dial_local_agent net now address).1
        × (length (dial_local_agent net now address).1 ≤ 16)
  unfolding dial_local_agent dial_address
  dial_local_agent-AllLocal now address = elim (Option-cases (net.split_address address)) [
    | inl bad ↦ rw (bad, dial_local_agent) (tt, omega arith)
    | inr ((host, port), split) ↦ elim (Option-cases (net.parse_ip (trim host (codes "[]")))) [
      | inl name ↦ rw (split, name, dial_local_agent) (dial_name-AllLocal now host port)
      | inr (ip, parsed) ↦ elim (Bool-cases (local_agent_ip ip)) [
        | inl local' ↦
            rw (split, parsed, local', dial_local_agent, dial_address)
              ((local_agent_ip-IsLocalAddress ip local', tt), omega arith)
        | inr outside ↦
            rw (split, parsed, outside, dial_local_agent, dial_address) (tt, omega arith)
      ]
    ]
  ]
