-- ===== src/Paths.antt =====
-- File paths: `pathWithin` of responses.go and `validateRelativePagePath` of plugin.go. The functions of
-- path/filepath are parameters; the separator is the slash of Unix.
use sokol_traefik_plugin.Prelude.{
  Bool, false, not, ◌&&◌, ◌||◌, [], Option, none, some, ◌==◌, ◌!=◌, bytes_eq, if◌then◌else◌,
}
use sokol_traefik_plugin.Text.{Bytes, codes, has_prefix}

-- filepath.IsAbs, Clean, Abs, Join and Rel; `none` is an error.
pub record Paths : Type 0 where
  pub is_abs : Bytes → Bool
  pub clean : Bytes → Bytes
  pub abs : Bytes → Option Bytes
  pub join : Bytes → Bytes → Bytes
  pub rel : Bytes → Bytes → Option Bytes

-- The relative path does not leave its root.
unfoldable pub stays_inside : Bytes → Bool
unfolding has_prefix
stays_inside relative = relative != codes ".." && not (has_prefix relative (codes "../"))

module _ (paths : Paths) where
  unfoldable pub path_within : Bytes → Bytes → Bool
  path_within root candidate = elim (paths.rel root candidate) [
    | none ↦ false
    | some relative ↦ stays_inside relative
  ]

  -- The path of the page, where it may be one.
  unfoldable pub validate_relative_page_path : Bytes → Bytes → Bool
  validate_relative_page_path root name =
      if root == [] || name == [] || paths.is_abs name
      then false
      else path_within root (paths.clean (paths.join root name))
