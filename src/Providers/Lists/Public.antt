-- ===== src/Providers/Lists/Public.antt =====
-- What `parseProviderNetworks` accepts.
use sokol_traefik_plugin.Prelude.{
  ◌≤◌, ◌≡◌, ◌⊎◌, inl, inr, refl, ◌∙◌, ap, subst, true, false, List, [], ◌∷◌, ltb, ◌==◌, nat_eq,
  bytes_eq, bytes_beq_iff, if◌then◌else◌, length, any, All, Any, Bool-cases, arith,
}
use sokol_traefik_plugin.Text.{Bytes}
use sokol_traefik_plugin.Net.{IpNet}
use sokol_traefik_plugin.Net.Kinds.{is_global_unicast}
use sokol_traefik_plugin.Transport.{local_agent_ip}
use sokol_traefik_plugin.Providers.Lists.{
  no_unique_addresses, ListResult, accepted, rejected, ◌>>=◌, provider_maximum_ranges,
  public_provider_ip, ListEnv, parse_network, parse_public, collect_networks,
  parse_provider_networks,
}

-- The base address is routed on the Internet: it is global unicast, and of no range for the Agent.
pub record IsPublic (network : IpNet) : Type 0 where
  pub global : is_global_unicast network.ip ≡ true
  pub outside : local_agent_ip network.ip ≡ false

public_provider_ip-IsPublic :
    (network : IpNet) → public_provider_ip network.ip ≡ true → IsPublic network
unfolding public_provider_ip local_agent_ip
public_provider_ip-IsPublic network h = ground arith

-- What a list may hold.
pub record IsRangeList (networks : List IpNet) : Type 0 where
  pub given : 1 ≤ length networks
  pub short : length networks ≤ provider_maximum_ranges
  pub public : All IsPublic networks

-- A bind that succeeds.
pub >>=-eq-accepted :
    {T U : Type 0} (first : ListResult T) (next : T → ListResult U) {value : U}
    → (first >>= next) ≡ accepted value
    → (got : T) × (first ≡ accepted got) × (next got ≡ accepted value)
>>=-eq-accepted (rejected problem) next h = cc
>>=-eq-accepted (accepted got) next h = (got, refl, h)

parse_public-IsPublic :
    (env : ListEnv) (value : Bytes) (network : IpNet)
    → parse_public env value ≡ accepted network
    → (parse_network env value ≡ accepted network) × IsPublic network
unfolding parse_public
parse_public-IsPublic env value network h =
    let (n, parsed, tested) = >>=-eq-accepted (parse_network env value) _ h in
    let (same, public) : (n ≡ network) × (public_provider_ip n.ip ≡ true) = ground arith in
    (parsed ∙ ap accepted same, subst IsPublic same (public_provider_ip-IsPublic n public))

module _ (env : ListEnv) where
  -- No two networks are written alike, nor like one of the seen.
  abbrev pub AllNew : List Bytes → List IpNet → Type 0
  AllNew seen [] = Unit
  AllNew seen (network ∷ rest) =
      (any (λ k. k == env.net_string network) seen ≡ false)
      × AllNew (env.net_string network ∷ seen) rest

  -- The value stands for one of the networks, or for one seen before.
  abbrev pub IsListed : List Bytes → List IpNet → Bytes → Type 0
  IsListed seen networks value =
      (network : IpNet) × (parse_network env value ≡ accepted network)
      × ((any (λ k. k == env.net_string network) seen ≡ true)
          ⊎ Any (λ n. env.net_string n ≡ env.net_string network) networks)

  pub record IsCollected (seen : List Bytes) (values : List Bytes) (networks : List IpNet)
      : Type 0 where
    pub all_public : All IsPublic networks
    pub new : AllNew seen networks
    pub shorter : length networks ≤ length values
    pub all_listed : All (IsListed seen networks) values

  -- A value that stood for one network or a seen one still does, with the first network put before.
  IsListed-later :
      (key : Bytes) (seen : List Bytes) (first : IpNet) (rest : List IpNet) (value : Bytes)
      → env.net_string first ≡ key
      → IsListed (key ∷ seen) rest value
      → IsListed seen (first ∷ rest) value
  unfolding any
  IsListed-later key seen first rest value same (network, parsed, inr later) =
      (network, parsed, inr (inr later))
  IsListed-later key seen first rest value same (network, parsed, inl before) =
      elim (Bool-cases (key == env.net_string network)) [
        | inl here ↦ (
          network,
          parsed,
          inr (inl (same ∙ (bytes_beq_iff key (env.net_string network)).0 here)),
        )
        | inr other ↦ (network, parsed, inl (ground arith))
      ]

  All-IsListed_later :
      (key : Bytes) (seen : List Bytes) (first : IpNet) (rest : List IpNet) (values : List Bytes)
      → env.net_string first ≡ key
      → All (IsListed (key ∷ seen) rest) values
      → All (IsListed seen (first ∷ rest)) values
  All-IsListed_later key seen first rest [] same h = tt
  All-IsListed_later key seen first rest (v ∷ values) same (h, hs) = (
    IsListed-later key seen first rest v same h,
    All-IsListed_later key seen first rest values same hs,
  )

  collect_networks-IsCollected :
      (seen values : List Bytes) (networks : List IpNet)
      → collect_networks env seen values ≡ accepted networks
      → IsCollected seen values networks
  unfolding collect_networks
  collect_networks-IsCollected seen [] networks h =
      let none' : networks ≡ [] = ground arith in
      rw none' (record { all_public = tt; new = tt; shorter = omega arith; all_listed = tt })
  collect_networks-IsCollected seen (value ∷ values) networks h =
      let (network, parsed, after) = >>=-eq-accepted (parse_public env value) _ h in
      let (read, public) = parse_public-IsPublic env value network parsed in
      let key = env.net_string network in
      elim (Bool-cases (any (λ k. k == key) seen)) [
        | inl old ↦
            let (rest, collected, same) =
              >>=-eq-accepted (collect_networks env seen values) (λ ns. accepted ns)
                (rw old at after) in
            let same_networks : rest ≡ networks = cc in
            let ih =
              collect_networks-IsCollected seen values networks
                (collected ∙ ap accepted same_networks) in
            record {
              all_public = ih.all_public;
              new = ih.new;
              shorter = omega (arith, ih.shorter);
              all_listed = ((network, read, inl old), ih.all_listed);
            }
        | inr new ↦
            let (rest, collected, same) =
              >>=-eq-accepted (collect_networks env (key ∷ seen) values)
                (λ ns. accepted (network ∷ ns)) (rw new at after) in
            let same_networks : network ∷ rest ≡ networks = cc in
            let ih = collect_networks-IsCollected (key ∷ seen) values rest collected in
            subst (IsCollected seen (value ∷ values)) same_networks (record {
              all_public = (public, ih.all_public);
              new = (new, ih.new);
              shorter = omega (arith, ih.shorter);
              all_listed = (
                (network, read, inr (inl refl)),
                All-IsListed_later key seen network rest values refl ih.all_listed,
              );
            })
      ]

  -- A list that passes is not empty and has at most 8192 networks, all with public base addresses and
  -- no two of them written alike; and each value of it stands for one of them. So one value that is
  -- no public network refuses the whole list.
  pub parse_provider_networks-IsCollected :
      (values : List Bytes) (networks : List IpNet)
      → parse_provider_networks env values ≡ accepted networks
      → IsRangeList networks × IsCollected [] values networks
  unfolding parse_provider_networks
  parse_provider_networks-IsCollected values networks h = elim (Bool-cases (length values == 0)) [
    | inl nothing ↦ absurd (ground arith)
    | inr some_values ↦ elim (Bool-cases (ltb provider_maximum_ranges (length values))) [
      | inl many ↦ absurd (ground arith)
      | inr few ↦
          let (ns, collected, tested) =
            >>=-eq-accepted (collect_networks env [] values)
              (λ ns. if length ns == 0 then rejected no_unique_addresses else accepted ns)
              {value = networks} (ground arith) in
          let (given, same) : (1 ≤ length ns) × (ns ≡ networks) = ground arith in
          let c = collect_networks-IsCollected [] values ns collected in
          subst (λ ms. IsRangeList ms × IsCollected [] values ms) same
            (record { given = given; short = ground (arith, c.shorter); public = c.all_public }, c)
    ]
  ]
