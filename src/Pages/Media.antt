-- ===== src/Pages/Media.antt =====
-- Which format the client prefers, responses.go: `mediaQuality` and `prefersJSON`. Go's float64 is a
-- parameter: its constants, its order and strconv.ParseFloat.
use sokol_traefik_plugin.Prelude.{
  ℕ, suc, ◌-◌, ◌^◌, Bool, true, false, ◌&&◌, ◌||◌, List, [], ◌∷◌, Option, none, some, ltb, ◌==◌,
  ◌!=◌, nat_eq, bytes_eq, if◌then◌else◌,
}
use sokol_traefik_plugin.Text.{Bytes, codes, cut, split, to_lower, trim_space}

pub record Floats (F : Type 0) : Type 0 where
  pub minus_one : F
  pub zero : F
  pub one : F
  pub less : F → F → Bool
  pub parse_float : Bytes → Option F

unfoldable pub matches_parts : List Bytes → List Bytes → Bool
matches_parts (kind ∷ sub ∷ []) (target_kind ∷ rest) = kind == target_kind && sub == codes "*"
matches_parts _ _ = false

abbrev pub has_two : List Bytes → Bool
has_two (kind ∷ sub ∷ []) = true
has_two _ = false

unfoldable pub matches_media : Bytes → Bytes → Bool
unfolding split
matches_media target media_type =
    has_two (split media_type b'/')
    && (media_type == codes "*/*"
        || media_type == target
        || matches_parts (split media_type b'/') (split target b'/'))

module _ {F : Type 0} (floats : Floats F) where
  abbrev pub parsed_quality : Option F → F
  parsed_quality none = floats.zero
  parsed_quality (some q) =
      if floats.less q floats.zero || floats.less floats.one q then floats.zero else q

  unfoldable pub item_quality : F → List Bytes → F
  unfolding cut trim_space
  item_quality quality [] = quality
  item_quality quality (parameter ∷ parameters) = elim (cut (trim_space parameter) b'=') [
    | none ↦ item_quality quality parameters
    | some (name, value) ↦
        item_quality
          (if trim_space name == codes "q"
            then parsed_quality (floats.parse_float (trim_space value))
            else quality)
          parameters
  ]

  -- The quality of an item, if it is for the target.
  unfoldable pub offered : Bytes → List Bytes → Option F
  unfolding trim_space
  offered target [] = none
  offered target (media_type ∷ parameters) =
      if matches_media target (trim_space media_type)
      then some (item_quality floats.one parameters)
      else none

  abbrev pub better : F × ℕ → ℕ → Option F → F × ℕ
  better best order none = best
  better best order (some quality) = if floats.less best.0 quality then (quality, order) else best

  unfoldable pub scan_items : Bytes → F × ℕ → ℕ → List Bytes → F × ℕ
  unfolding split
  scan_items target best order [] = best
  scan_items target best order (item ∷ items) =
      scan_items target (better best order (offered target (split item b';'))) (suc order) items

  unfoldable pub media_quality : Bytes → Bytes → F × ℕ
  unfolding split
  media_quality accept target =
      let best = scan_items target (floats.minus_one, 2 ^ 63 - 1) 0 (split accept b',') in
      (if floats.less best.0 floats.zero then floats.zero else best.0, best.1)

  unfoldable pub prefers_json : Bytes → Bytes → Bool
  unfolding trim_space to_lower
  prefers_json accept default_format =
      let wanted = trim_space (to_lower accept) in
      let json = media_quality wanted (codes "application/json") in
      let html = media_quality wanted (codes "text/html") in
      if wanted == []
      then default_format == codes "json"
      else if floats.less html.0 json.0
      then true
      else if floats.less json.0 html.0
      then false
      else if floats.less floats.zero json.0 && floats.less floats.zero html.0 && json.1 != html.1
      then ltb json.1 html.1
      else default_format == codes "json"
