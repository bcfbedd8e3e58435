-- ===== src/Net/Kinds.antt =====
-- The kinds of addresses that package net tells apart, by the first bytes of an address. Where Go
-- masks bits of a byte, the test here is on the range that they leave.
use sokol_traefik_plugin.Prelude.{
  ℕ, ◌%◌, Bool, not, ◌&&◌, ◌||◌, [], ◌∷◌, leb, ◌==◌, nat_eq, bytes_eq, if◌then◌else◌, length,
}
use sokol_traefik_plugin.Net.{Ip, to4, ip_equal}

abbrev pub between : ℕ → ℕ → ℕ → Bool
between low high b = leb low b && leb b high

-- The first two bytes and the third, 0 past the end.
abbrev pub byte0 : Ip → ℕ
byte0 [] = 0
byte0 (a ∷ ip) = a

abbrev pub byte1 : Ip → ℕ
byte1 (a ∷ b ∷ ip) = b
byte1 _ = 0

abbrev pub byte2 : Ip → ℕ
byte2 (a ∷ b ∷ c ∷ ip) = c
byte2 _ = 0

abbrev pub ipv6_loopback : Ip
ipv6_loopback = 0 ∷ 0 ∷ 0 ∷ 0 ∷ 0 ∷ 0 ∷ 0 ∷ 0 ∷ 0 ∷ 0 ∷ 0 ∷ 0 ∷ 0 ∷ 0 ∷ 0 ∷ 1 ∷ []

abbrev pub ipv6_unspecified : Ip
ipv6_unspecified = 0 ∷ 0 ∷ 0 ∷ 0 ∷ 0 ∷ 0 ∷ 0 ∷ 0 ∷ 0 ∷ 0 ∷ 0 ∷ 0 ∷ 0 ∷ 0 ∷ 0 ∷ 0 ∷ []

-- IP.IsLoopback: 127.0.0.0/8 and ::1
unfoldable pub is_loopback : Ip → Bool
is_loopback ip =
    let short = to4 ip in if short == [] then ip_equal ip ipv6_loopback else byte0 short == 127

-- IP.IsPrivate: 10.0.0.0/8, 172.16.0.0/12, 192.168.0.0/16 and fc00::/7
unfoldable pub is_private : Ip → Bool
is_private ip =
    let short = to4 ip in
    if short == []
    then length ip == 16 && between 252 253 (byte0 ip)
    else byte0 short == 10
      || (byte0 short == 172 && between 16 31 (byte1 short))
      || (byte0 short == 192 && byte1 short == 168)

-- IP.IsLinkLocalUnicast: 169.254.0.0/16 and fe80::/10
unfoldable pub is_link_local_unicast : Ip → Bool
is_link_local_unicast ip =
    let short = to4 ip in
    if short == []
    then length ip == 16 && byte0 ip == 254 && between 128 191 (byte1 ip)
    else byte0 short == 169 && byte1 short == 254

-- IP.IsLinkLocalMulticast: 224.0.0.0/24 and, of ff00::/8, the scope 2
unfoldable pub is_link_local_multicast : Ip → Bool
is_link_local_multicast ip =
    let short = to4 ip in
    if short == []
    then length ip == 16 && byte0 ip == 255 && byte1 ip % 16 == 2
    else byte0 short == 224 && byte1 short == 0 && byte2 short == 0

-- IP.IsMulticast: 224.0.0.0/4 and ff00::/8
unfoldable pub is_multicast : Ip → Bool
is_multicast ip =
    let short = to4 ip in
    if short == [] then length ip == 16 && byte0 ip == 255 else between 224 239 (byte0 short)

unfoldable pub is_unspecified : Ip → Bool
is_unspecified ip = ip_equal ip (0 ∷ 0 ∷ 0 ∷ 0 ∷ []) || ip_equal ip ipv6_unspecified

-- IP.IsGlobalUnicast
unfoldable pub is_global_unicast : Ip → Bool
unfolding is_unspecified is_loopback is_multicast is_link_local_unicast
is_global_unicast ip =
    (length ip == 4 || length ip == 16)
    && not (ip_equal ip (255 ∷ 255 ∷ 255 ∷ 255 ∷ []))
    && not (is_unspecified ip)
    && not (is_loopback ip)
    && not (is_multicast ip)
    && not (is_link_local_unicast ip)
