-- ===== src/Pages/Fill.antt =====
-- Text put into a page: strings.ReplaceAll at a text that is not empty, and html.EscapeString.
use sokol_traefik_plugin.Prelude.{
  ℕ, zero, suc, ◌-◌, List, [], ◌∷◌, ◌++◌, nat_beq, nat_eq, if◌then◌else◌, length,
}
use sokol_traefik_plugin.Text.{Bytes, codes, has_prefix}

-- So many bytes are still to be passed over, as the rest of a match.
unfoldable pub replace_from : Bytes → Bytes → ℕ → Bytes → Bytes
unfolding has_prefix
replace_from old new skip [] = []
replace_from old new (suc skip) (c ∷ s) = replace_from old new skip s
replace_from old new zero (c ∷ s) =
    let after = replace_from old new (length old - 1) s in
    let later = replace_from old new zero s in
    if has_prefix (c ∷ s) old then new ++ after else c ∷ later

unfoldable pub replace_all : Bytes → Bytes → Bytes → Bytes
unfolding replace_from
replace_all s old new = replace_from old new zero s

abbrev pub escaped_byte : ℕ → Bytes
escaped_byte c =
    if nat_beq c b'&'
    then codes "&amp;"
    else if nat_beq c 39
    then codes "&#39;"
    else if nat_beq c b'<'
    then codes "&lt;"
    else if nat_beq c b'>'
    then codes "&gt;"
    else if nat_beq c 34
    then codes "&#34;"
    else c ∷ []

unfoldable pub html_escape : Bytes → Bytes
html_escape [] = []
html_escape (c ∷ s) = escaped_byte c ++ html_escape s

-- Each placeholder of the list in its turn.
unfoldable pub fill : List (Bytes × Bytes) → Bytes → Bytes
unfolding replace_all
fill [] template = template
fill ((placeholder, value) ∷ rest) template = fill rest (replace_all template placeholder value)

-- How often the byte stands in the text.
unfoldable pub count : ℕ → Bytes → ℕ
count b [] = 0
count b (c ∷ s) = if nat_beq c b then suc (count b s) else count b s
