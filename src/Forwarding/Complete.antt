-- ===== src/Forwarding/Complete.antt =====
-- What the flag means: where it is not set nothing was left out or cut.
use sokol_traefik_plugin.Prelude.{◌≡◌, ◌⊎◌, true, false, List, [], ◌∷◌, none, bytes_eq, arith}
use sokol_traefik_plugin.Prelude.GoMap.{lookup, insert}
use sokol_traefik_plugin.Text.{Bytes}
use sokol_traefik_plugin.Forwarding.{ForwardingPolicy, Taken, take_within, take_field, member}

-- A field that is taken without the flag is taken whole.
pub take_field_unflagged :
    (name value : Bytes) (t : Taken)
    → (take_field name value t).truncated ≡ false
    → (t.truncated ≡ false) × ((take_field name value t).result ≡ insert name value t.result)
unfolding take_field take_within
take_field_unflagged name value t h = ground arith

-- No name stands twice.
abbrev pub AllNew : List (Bytes × Bytes) → List (Bytes × Bytes) → Type 0
AllNew first [] = Unit
AllNew first ((name, value) ∷ parsed) =
    (lookup name first ≡ none) × AllNew (insert name value first) parsed

-- The policy lists the cookie, or selects all and does not list it.
abbrev pub IsSelected : ForwardingPolicy → Bytes → Type 0
IsSelected p name =
    (member name p.cookies ≡ true) ⊎ ((p.all_cookies ≡ true) × (member name p.cookie_set ≡ false))
