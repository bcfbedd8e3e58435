-- ===== src/Pages.antt =====
-- The pages of responses.go: `pageStore` with `page` and `load`. The file system is a parameter, and
-- may be another one at each call.
pub mod Fallback
pub mod Recent
pub mod Safe
pub mod Served
pub mod Media
pub mod Fill
pub mod Write
pub mod Markup
pub mod Headers
pub mod Cors
pub mod Written
mod Tests
use sokol_traefik_plugin.Prelude.{
  ℕ, suc, ◌+◌, Bool, true, false, not, ◌&&◌, ◌||◌, List, [], ◌∷◌, Option, none, some, ltb, leb,
  ◌==◌, ◌!=◌, bytes_eq, if◌then◌else◌, length, ℤ, pos, ltb_ℤ,
}
use sokol_traefik_plugin.Prelude.GoMap.{lookup, insert}
use sokol_traefik_plugin.Text.{Bytes, codes}
use sokol_traefik_plugin.Paths.{Paths, path_within, validate_relative_page_path}
use sokol_traefik_plugin.Config.{ResponsesConfig, non_negative}
use sokol_traefik_plugin.Pages.Fallback.{fallback_page, fallback_challenge_page}

pub record FileInfo : Type 0 where
  pub is_regular : Bool
  pub permissions : ℕ
  pub size : ℕ

-- An open file: File.Stat, and io.ReadAll through an io.LimitedReader of so many bytes.
pub record OpenFile : Type 0 where
  pub stat : Option FileInfo
  pub read_limited : ℕ → Option Bytes

-- path/filepath, filepath.EvalSymlinks, os.Open and utf8.Valid.
pub record Files : Type 0 where
  pub paths : Paths
  pub eval_symlinks : Bytes → Option Bytes
  pub open_file : Bytes → Option OpenFile
  pub valid_utf8 : Bytes → Bool

pub record PageEntry : Type 0 where
  pub content : Bytes
  pub next_check : ℕ

pub record PageStore : Type 0 where
  pub config : ResponsesConfig
  pub root : Bytes
  pub reload_interval : ℕ
  pub cache : List (Bytes × PageEntry)

unfoldable pub new_page_store : ResponsesConfig → Bytes → ℕ → PageStore
new_page_store config root reload_interval = record {
  config = config;
  root = root;
  reload_interval = reload_interval;
  cache = [];
}

unfoldable pub page_file : ResponsesConfig → Bytes → Bytes
page_file config decision =
    if decision == codes "block"
    then config.block_file
    else if decision == codes "challenge"
    then config.challenge_file
    else if decision == codes "rate_limit"
    then config.rate_limit_file
    else config.unavailable_file

unfoldable pub fallback_for : Bytes → Bytes
fallback_for decision =
    if decision == codes "challenge" then fallback_challenge_page else fallback_page

-- Where the page is once its links are followed, if that may be read.
abbrev pub allowed_path : Files → ResponsesConfig → Bytes → Bytes → Bytes → Bytes → Option Bytes
allowed_path files config root candidate resolved_root resolved =
    if not (path_within files.paths resolved_root resolved)
    then none
    else if not config.allow_symlinks
        && (resolved_root != files.paths.clean root || resolved != candidate)
    then none
    else some resolved

unfoldable pub resolve_page : Files → ResponsesConfig → Bytes → Bytes → Option Bytes
resolve_page files config root name =
    if not (validate_relative_page_path files.paths root name)
    then none
    else let candidate = files.paths.clean (files.paths.join root name) in
      elim (files.eval_symlinks root) [
        | none ↦ none
        | some resolved_root ↦ elim (files.eval_symlinks candidate) [
          | none ↦ none
          | some resolved ↦
              allowed_path files config root candidate (files.paths.clean resolved_root)
                (files.paths.clean resolved)
        ]
      ]

-- The text, unless the limit was reached.
abbrev pub page_text : Files → ℕ → Bytes → Option Bytes
page_text files limit content =
    if leb limit (length content)
    then none
    else if files.valid_utf8 content
    then some content
    else none

unfoldable pub read_page : Files → ResponsesConfig → OpenFile → Option Bytes
read_page files config file = elim (file.stat) [
  | none ↦ none
  | some info ↦
      if not info.is_regular || ltb_ℤ config.maximum_file_bytes (pos info.size)
      then none
      else let limit = non_negative config.maximum_file_bytes + 1 in
        elim (file.read_limited limit) [
          | none ↦ none
          | some content ↦ page_text files limit content
        ]
]

unfoldable pub load : Files → ResponsesConfig → Bytes → Bytes → Option Bytes
load files config root name = elim (resolve_page files config root name) [
  | none ↦ none
  | some resolved ↦ elim (files.open_file resolved) [
    | none ↦ none
    | some file ↦ read_page files config file
  ]
]

abbrev pub content_or : Bytes → Option Bytes → Bytes
content_or fallback none = fallback
content_or fallback (some content) = content

-- Reads the file again, and keeps what comes of it.
unfoldable pub reload : Files → PageStore → Bytes → ℕ → PageStore × Bytes
reload files store decision now =
    let name = page_file store.config decision in
    let content = content_or (fallback_for decision) (load files store.config store.root name) in
    let entry : PageEntry = record {
      content = content;
      next_check = now + store.reload_interval;
    } in
    (record store { cache = insert name entry store.cache }, content)

unfoldable pub page : Files → PageStore → Bytes → ℕ → PageStore × Bytes
page files store decision now = elim (lookup (page_file store.config decision) store.cache) [
  | none ↦ reload files store decision now
  | some entry ↦
      if ltb now entry.next_check then (store, entry.content) else reload files store decision now
]
