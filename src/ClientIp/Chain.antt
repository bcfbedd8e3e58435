-- ===== src/ClientIp/Chain.antt =====
-- The chain of X-Forwarded-For: which of its addresses is taken for the client.
use sokol_traefik_plugin.Prelude.{
  ◌≤◌, ◌≡◌, ◌≢◌, ◌⊎◌, inl, inr, refl, true, false, List, [], ◌∷◌, reverse, none, bytes_eq,
  bytes_beq_iff, length, Bool-cases, arith,
}
use sokol_traefik_plugin.Text.{codes, split}
use sokol_traefik_plugin.Net.{Ip, IpNet, Request, header_get}
use sokol_traefik_plugin.ClientIp.{
  Resolver, ip_is_trusted, walk_hops, parse_hops, walk_parsed, extract_forwarded_ip,
}

-- The first address of the chain that is not trusted, or the last one where all before it are.
abbrev pub IsBoundary : List IpNet → List Ip → Ip → Type 0
IsBoundary trusted [] r = ⊥
IsBoundary trusted (x ∷ chain) r =
    ((x ≡ r) × ((ip_is_trusted x trusted ≡ false) ⊎ (chain ≡ [])))
    ⊎ ((ip_is_trusted x trusted ≡ true) × IsBoundary trusted chain r)

walk_hops-IsBoundary :
    (trusted : List IpNet) (current : Ip) (hops : List Ip)
    → IsBoundary trusted (current ∷ hops) (walk_hops trusted current hops)
unfolding walk_hops
walk_hops-IsBoundary trusted current [] = inl (refl, inr refl)
walk_hops-IsBoundary trusted current (hop ∷ hops) =
    elim (Bool-cases (ip_is_trusted current trusted)) [
      | inl yes' ↦ rw (yes', walk_hops) (inr (refl, walk_hops-IsBoundary trusted hop hops))
      | inr no' ↦ rw (no', walk_hops) (inl (refl, inl refl))
    ]

-- From a trusted peer, a chain of at most 32 addresses that all parse is followed from its right
-- end: the client is the first address, the peer itself first, that is not trusted, or the leftmost
-- where all others are, and there is no error.
pub extract_forwarded_ip-IsBoundary :
    (net : Resolver) (request : Request) (direct : Ip) (trusted : List IpNet) (hops : List Ip)
    → header_get request.header (codes "X-Forwarded-For") ≢ []
    → ip_is_trusted direct trusted ≡ true
    → length (split (header_get request.header (codes "X-Forwarded-For")) b',') ≤ 32
    → parse_hops net (split (header_get request.header (codes "X-Forwarded-For")) b',')
      ≡ (hops, none)
    → ((extract_forwarded_ip net request direct trusted).1 ≡ none)
      × IsBoundary trusted
          (direct ∷ reverse hops)
          (extract_forwarded_ip net request direct trusted).0
unfolding extract_forwarded_ip walk_parsed
extract_forwarded_ip-IsBoundary net request direct trusted hops given trust short parsed =
    let walked : extract_forwarded_ip net request direct trusted
        ≡ (walk_hops trusted direct (reverse hops), none) =
      ground (arith, bytes_beq_iff (header_get request.header (codes "X-Forwarded-For")) []) in
    rw walked (refl, walk_hops-IsBoundary trusted direct (reverse hops))
