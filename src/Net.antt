-- ===== src/Net.antt =====
-- What the plugin uses of Go's `net` and `net/http`: addresses and networks as their bytes, and
-- requests with their headers. `net.ParseIP` and `net.SplitHostPort` are parameters where they are
-- used.
pub mod Kinds
use Prim.Native.Nat.{bit_and}
use sokol_traefik_plugin.Prelude.{
  ℕ, Bool, true, false, ◌&&◌, ◌||◌, List, [], ◌∷◌, ◌++◌, Option, none, some, nat_beq, ◌==◌, nat_eq,
  bytes_eq, if◌then◌else◌, length, take, drop, all, ℤ,
}
use sokol_traefik_plugin.Prelude.GoMap.{lookup}
use sokol_traefik_plugin.Text.{Bytes, codes, contains_byte, lower_byte, upper_byte}

-- A `net.IP`: 4 or 16 bytes, or none for nil.
abbrev pub Ip : Type 0
Ip = List ℕ

abbrev v4_in_v6_prefix : Ip
v4_in_v6_prefix = 0 ∷ 0 ∷ 0 ∷ 0 ∷ 0 ∷ 0 ∷ 0 ∷ 0 ∷ 0 ∷ 0 ∷ 255 ∷ 255 ∷ []

-- IP.To4 and IP.To16; the empty list is nil.
unfoldable pub to4 : Ip → Ip
unfolding take drop
to4 ip =
    if length ip == 4
    then ip
    else if length ip == 16 && take 12 ip == v4_in_v6_prefix
    then drop 12 ip
    else []

unfoldable pub to16 : Ip → Ip
to16 ip = if length ip == 4 then v4_in_v6_prefix ++ ip else if length ip == 16 then ip else []

-- IP.Equal
unfoldable pub ip_equal : Ip → Ip → Bool
unfolding take drop
ip_equal ip x =
    if length ip == length x
    then ip == x
    else if length ip == 4 && length x == 16
    then take 12 x == v4_in_v6_prefix && ip == drop 12 x
    else if length ip == 16 && length x == 4
    then take 12 ip == v4_in_v6_prefix && drop 12 ip == x
    else false

pub record IpNet : Type 0 where
  pub ip : Ip
  pub mask : Bytes

unfoldable pub masked_eq : Bytes → Ip → Ip → Bool
masked_eq (m ∷ ms) (a ∷ as') (b ∷ bs) = nat_beq (bit_and a m) (bit_and b m) && masked_eq ms as' bs
masked_eq _ _ _ = true

-- IPNet.Contains with `networkNumberAndMask`: an ill-formed network has neither number nor mask.
unfoldable pub network_number : IpNet → Ip
unfolding to4
network_number n =
    let short = to4 n.ip in
    let number = if short == [] then n.ip else short in
    if length n.mask == 4
    then (if length number == 4 then number else [])
    else if length n.mask == 16 && (length number == 4 || length number == 16)
    then number
    else []

unfoldable pub network_mask : IpNet → Bytes
unfolding network_number drop
network_mask n =
    if length n.mask == 16 && length (network_number n) == 4 then drop 12 n.mask else n.mask

unfoldable pub contains : IpNet → Ip → Bool
unfolding network_number network_mask masked_eq to4
contains n x =
    let short = to4 x in
    let ip = if short == [] then x else short in
    if length ip == length (network_number n)
    then masked_eq (network_mask n) (network_number n) ip
    else false

unfoldable pub bit_ands : Bytes → Bytes → Bytes
bit_ands (a ∷ as') (m ∷ ms) = bit_and a m ∷ bit_ands as' ms
bit_ands _ _ = []

abbrev pub all_ones : Bytes → Bool
all_ones s = all (λ b. nat_beq b 255) s

-- IP.Mask: nothing where the lengths do not fit.
unfoldable pub mask_ip : Ip → Bytes → Ip
unfolding take drop all bit_ands
mask_ip ip mask =
    let m =
      if length mask == 16 && length ip == 4 && all_ones (take 12 mask)
      then drop 12 mask
      else mask in
    let a =
      if length m == 4 && length ip == 16 && take 12 ip == v4_in_v6_prefix
      then drop 12 ip
      else ip in
    if length a == length m then bit_ands a m else []

-- A token byte of HTTP, as in the header names.
abbrev pub token_bytes : Bytes
token_bytes = codes "!#$%&'*+-.^_`|~0123456789abcdefghijklmnopqrstuvwxyzABCDEFGHIJKLMNOPQRSTUVWXYZ"

-- The letters after the start and after a dash in upper case, the others in lower case.
unfoldable pub canonical_from : Bool → Bytes → Bytes
canonical_from start [] = []
canonical_from start (c ∷ s) =
    (if start then upper_byte c else lower_byte c) ∷ canonical_from (nat_beq c b'-') s

-- http.CanonicalHeaderKey: a name that is no token is left alone.
unfoldable pub canonical_header_key : Bytes → Bytes
unfolding all contains_byte canonical_from
canonical_header_key s =
    if all (λ c. contains_byte token_bytes c) s then canonical_from true s else s

abbrev pub Header : Type 0
Header = List (Bytes × List Bytes)

-- Header.Values and Header.Get
unfoldable pub values : Header → Bytes → List Bytes
unfolding lookup canonical_header_key
values header name = elim (lookup (canonical_header_key name) header) [ none ↦ [] | some vs ↦ vs ]

unfoldable pub first_of_values : List Bytes → Bytes
first_of_values [] = []
first_of_values (v ∷ vs) = v

unfoldable pub header_get : Header → Bytes → Bytes
unfolding values first_of_values
header_get header name = first_of_values (values header name)

-- The parts of a parsed URL that are looked at.
pub record Url : Type 0 where
  pub scheme : Bytes
  pub has_user : Bool
  pub host : Bytes
  pub path : Bytes
  pub raw_query : Bytes
  pub fragment : Bytes

-- A body still to be read: its bytes, and whether the read after them fails.
pub record BodyStream : Type 0 where
  pub bytes : Bytes
  pub broken : Bool

-- The parts of an `http.Request` that the plugin reads. `cookies` is what `Request.Cookies`
-- parses out of the headers; `body` is `none` where the request has none.
pub record Request : Type 0 where
  pub method : Bytes
  pub host : Bytes
  pub path : Bytes
  pub raw_query : Bytes
  pub remote_addr : Bytes
  pub proto : Bytes
  pub is_tls : Bool
  pub header : Header
  pub cookies : List (Bytes × Bytes)
  pub content_length : ℤ
  pub transfer_encoding : List Bytes
  pub body : Option BodyStream
