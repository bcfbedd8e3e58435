-- ===== src/Transport/Timely.antt =====
-- When `dialLocalAgent` reaches an address that accepts, under the deadline that its lookup and all
-- its dials share.
use sokol_traefik_plugin.Prelude.{
  ℕ, ◌+◌, ◌≤◌, ◌≡◌, inl, inr, refl, sym, ap, subst, ◌∙◌, Bool, true, false, List, [], ◌∷◌, ◌++◌,
  none, some, ltb, if◌then◌else◌, length, take, take_of_length-le, Any, Bool-cases, arith,
}
use sokol_traefik_plugin.Text.{Bytes, codes, trim}
use sokol_traefik_plugin.Net.{Ip}
use sokol_traefik_plugin.Transport.{
  Network, Dialled, connected, local_agent_ip, maximum_candidates, dial_candidates, dial_name,
  dial_local_agent,
}

-- What the dialer does: a dial returns within the connect timeout, and one that has all this time
-- before the deadline of the request connects to an address that accepts.
pub record IsDialer (net : Network) (timeout deadline : ℕ) (accepts : Ip → Bytes → Bool)
    : Type 0 where
  pub bounded : (now : ℕ) (ip : Ip) (port : Bytes) → (net.dial now ip port).1 ≤ now + timeout
  pub connects :
      (now : ℕ) (ip : Ip) (port : Bytes)
      → accepts ip port ≡ true
      → now + timeout ≤ deadline
      → (net.dial now ip port).0 ≡ true

-- The time that the local ones of the addresses may take.
abbrev pub time_of : ℕ → List Ip → ℕ
time_of timeout [] = 0
time_of timeout (ip ∷ rest) =
    let later = time_of timeout rest in if local_agent_ip ip then timeout + later else later

-- The dial connects to one of the addresses.
abbrev pub ConnectsTo : Dialled → List Ip → Type 0
ConnectsTo dialled ips = Any (λ ip. dialled ≡ connected ip) ips

module _ (net : Network) (timeout deadline : ℕ) (accepts : Ip → Bytes → Bool)
    (dialer : IsDialer net timeout deadline accepts) where
  dial_candidates-ConnectsTo :
      (now : ℕ) (port : Bytes) (before after : List Ip) (ip : Ip) (tried : Bool)
      → local_agent_ip ip ≡ true
      → accepts ip port ≡ true
      → now + (time_of timeout before + timeout) ≤ deadline
      → ConnectsTo
          (dial_candidates net now port (before ++ (ip ∷ after)) tried).0
          (before ++ (ip ∷ []))
  unfolding dial_candidates
  dial_candidates-ConnectsTo now port [] after ip tried local' open' soon =
      inl (ground (arith, dialer.connects now ip port))
  dial_candidates-ConnectsTo now port (c ∷ before) after ip tried local' open' soon =
      let rest = before ++ (ip ∷ after) in
      let later = before ++ (ip ∷ []) in
      elim (Bool-cases (local_agent_ip c)) [
        | inr outside ↦
            let same : (dial_candidates net now port (c ∷ rest) tried).0
                ≡ (dial_candidates net now port rest tried).0 =
              rw (outside, dial_candidates) refl in
            inr (
              subst (λ d. ConnectsTo d later) (sym same)
                (dial_candidates-ConnectsTo now port before after ip tried local' open'
                  (ground arith)))
        | inl here ↦ elim (Bool-cases ((net.dial now c port).0)) [
          | inl up ↦ inl (rw (here, up, dial_candidates) refl)
          | inr down ↦
              let next = (net.dial now c port).1 in
              let same : (dial_candidates net now port (c ∷ rest) tried).0
                  ≡ (dial_candidates net next port rest true).0 =
                rw (here, down, dial_candidates) refl in
              inr (
                subst (λ d. ConnectsTo d later) (sym same)
                  (dial_candidates-ConnectsTo next port before after ip true local' open'
                    (ground (arith, dialer.bounded now c port))))
        ]
      ]

  -- Given a dialer that returns within the connect timeout, and connects to an address that accepts
  -- where it has that time before the deadline: of the first 16 addresses of a name, a local one that
  -- accepts is connected to, or one before it, if after the lookup the deadline leaves the connect
  -- timeout for it and for each local address before it.
  pub dial_local_agent-ConnectsTo :
      (now : ℕ) (address host port : Bytes) (addresses before after : List Ip) (ip : Ip)
      → net.split_address address ≡ some (host, port)
      → net.parse_ip (trim host (codes "[]")) ≡ none
      → (net.lookup_ip now host).0 ≡ some addresses
      → take 16 addresses ≡ before ++ (ip ∷ after)
      → local_agent_ip ip ≡ true
      → accepts ip port ≡ true
      → (net.lookup_ip now host).1 + (time_of timeout before + timeout) ≤ deadline
      → ConnectsTo (dial_local_agent net now address).0 (before ++ (ip ∷ []))
  unfolding dial_local_agent dial_name
  dial_local_agent-ConnectsTo now address host port addresses before after ip split name found first
        local' open' soon =
      let start = (net.lookup_ip now host).1 in
      let chosen =
        if ltb maximum_candidates (length addresses) then take 16 addresses else addresses in
      let same : chosen ≡ before ++ (ip ∷ after) =
        ground (arith, take_of_length-le 16 addresses, first) in
      let reached : (dial_local_agent net now address).0
          ≡ (dial_candidates net start port chosen false).0 =
        rw (split, name, found, dial_local_agent, dial_name) refl in
      subst (λ d. ConnectsTo d (before ++ (ip ∷ [])))
        (sym (reached ∙ ap (λ ips. (dial_candidates net start port ips false).0) same))
        (dial_candidates-ConnectsTo start port before after ip false local' open' soon)
