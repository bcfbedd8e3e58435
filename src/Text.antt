-- ===== src/Text.antt =====
-- Go strings as lists of bytes, and the functions of Go's `strings`, `sort` and `strconv` packages
-- that the plugin calls. Case mapping and white space are those of ASCII text: a byte from 128 on
-- is left alone, where Go would consult the Unicode tables.
pub mod Order
use Prim.Native.Char.{code}
use sokol_traefik_plugin.Prelude.{
  ℕ, zero, suc, ◌+◌, ◌-◌, ◌/◌, ◌%◌, String, Bool, true, false, not, ◌&&◌, ◌||◌, Option, none, some,
  List, [], ◌∷◌, ◌++◌, map, reverse, ltb, leb, nat_beq, ◌==◌, bytes_eq, if◌then◌else◌, any,
}

abbrev pub Bytes : Type 0
Bytes = List ℕ

-- The bytes of an ASCII literal.
abbrev pub codes : String → Bytes
codes String.[] = []
codes (String.◌∷◌ c s) = code c ∷ codes s

-- strings.ContainsRune at an ASCII rune, and strings.ContainsAny at an ASCII set.
unfoldable pub contains_byte : Bytes → ℕ → Bool
unfolding any
contains_byte s b = any (λ c. nat_beq c b) s

unfoldable pub contains_any : Bytes → Bytes → Bool
unfolding any contains_byte
contains_any s chars = any (λ c. contains_byte chars c) s

unfoldable pub has_prefix : Bytes → Bytes → Bool
has_prefix s [] = true
has_prefix [] (p ∷ ps) = false
has_prefix (c ∷ s) (p ∷ ps) = nat_beq c p && has_prefix s ps

unfoldable pub has_suffix : Bytes → Bytes → Bool
unfolding has_prefix
has_suffix s suffix = has_prefix (reverse s) (reverse suffix)

-- The last byte of the text, dropped if it is `b`: strings.TrimSuffix at a suffix of one byte.
unfoldable pub trim_last : ℕ → Bytes → Bytes
trim_last b [] = []
trim_last b (c ∷ []) = if nat_beq c b then [] else c ∷ []
trim_last b (c ∷ d ∷ s) = c ∷ trim_last b (d ∷ s)

abbrev pub lower_byte : ℕ → ℕ
lower_byte c = if leb b'A' c && leb c b'Z' then c + 32 else c

abbrev pub upper_byte : ℕ → ℕ
upper_byte c = if leb b'a' c && leb c b'z' then c - 32 else c

unfoldable pub to_lower : Bytes → Bytes
to_lower = map lower_byte

unfoldable pub to_upper : Bytes → Bytes
to_upper = map upper_byte

unfoldable pub equal_fold : Bytes → Bytes → Bool
unfolding to_lower
equal_fold s t = to_lower s == to_lower t

abbrev is_space : ℕ → Bool
is_space c = nat_beq c 32 || (leb 9 c && leb c 13)

unfoldable pub trim_left : (ℕ → Bool) → Bytes → Bytes
trim_left p [] = []
trim_left p (c ∷ s) = if p c then trim_left p s else c ∷ s

-- Both ends.
unfoldable pub trim_by : (ℕ → Bool) → Bytes → Bytes
unfolding trim_left
trim_by p s = reverse (trim_left p (reverse (trim_left p s)))

unfoldable pub trim_space : Bytes → Bytes
unfolding trim_by
trim_space = trim_by is_space

-- strings.Trim
unfoldable pub trim : Bytes → Bytes → Bytes
unfolding trim_by contains_byte
trim s cutset = trim_by (λ c. contains_byte cutset c) s

-- strings.Split at a separator of one byte: at least one piece.
unfoldable pub split_from : ℕ → Bytes → Bytes → List Bytes
split_from sep cur [] = reverse cur ∷ []
split_from sep cur (c ∷ s) =
    let cut = reverse cur ∷ split_from sep [] s in
    let longer = split_from sep (c ∷ cur) s in if nat_beq c sep then cut else longer

unfoldable pub split : Bytes → ℕ → List Bytes
unfolding split_from
split s sep = split_from sep [] s

unfoldable pub join : List Bytes → Bytes → Bytes
join [] sep = []
join (s ∷ []) sep = s
join (s ∷ t ∷ ts) sep = s ++ (sep ++ join (t ∷ ts) sep)

-- strconv.FormatUint in base 10. The fuel is the number of digits: 20 for 64 bits.
unfoldable pub digits_from : ℕ → ℕ → Bytes → Bytes
digits_from zero n out = out
digits_from (suc f) n out =
    let out' = (48 + n % 10) ∷ out in
    let more = digits_from f (n / 10) out' in if ltb n 10 then out' else more

unfoldable pub format_uint : ℕ → Bytes
unfolding digits_from
format_uint n = digits_from 20 n []

-- strings.Cut at a separator of one byte: what is before it and after it.
unfoldable pub cut_from : ℕ → Bytes → Bytes → Option (Bytes × Bytes)
cut_from sep seen [] = none
cut_from sep seen (c ∷ s) =
    let later = cut_from sep (c ∷ seen) s in if nat_beq c sep then some (reverse seen, s) else later

unfoldable pub cut : Bytes → ℕ → Option (Bytes × Bytes)
unfolding cut_from
cut s sep = cut_from sep [] s
