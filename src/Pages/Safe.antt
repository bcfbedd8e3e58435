-- ===== src/Pages/Safe.antt =====
-- What a page file is when `load` of responses.go reads it.
use sokol_traefik_plugin.Prelude.{
  ◌+◌, ◌≤◌, ◌≡◌, ◌⊎◌, inl, inr, true, some, bytes_eq, bytes_beq_iff, length, Bool-cases,
  Option-cases, arith,
}
use sokol_traefik_plugin.Text.{Bytes}
use sokol_traefik_plugin.Paths.{path_within, validate_relative_page_path}
use sokol_traefik_plugin.Config.{ResponsesConfig, non_negative}
use sokol_traefik_plugin.Pages.{
  FileInfo, OpenFile, Files, allowed_path, resolve_page, read_page, load,
}

-- The file that the name leads to, inside the root, and through no link where links are off.
pub record IsInside (files : Files) (config : ResponsesConfig) (root name at_path : Bytes)
    : Type 0 where
  pub named : validate_relative_page_path files.paths root name ≡ true
  pub resolved_root : Bytes
  pub resolved : Bytes
  pub root_resolved : files.eval_symlinks root ≡ some resolved_root
  pub page_resolved :
      files.eval_symlinks (files.paths.clean (files.paths.join root name)) ≡ some resolved
  pub path_cleaned : at_path ≡ files.paths.clean resolved
  pub inside : path_within files.paths (files.paths.clean resolved_root) at_path ≡ true
  pub direct :
      (config.allow_symlinks ≡ true) ⊎ (at_path ≡ files.paths.clean (files.paths.join root name))

-- A regular file within the size, and its whole text, in UTF-8.
abbrev pub IsText : Files → ResponsesConfig → OpenFile → Bytes → Type 0
IsText files config file content =
    ((info : FileInfo) × (file.stat ≡ some info) × (info.is_regular ≡ true))
    × (file.read_limited (non_negative config.maximum_file_bytes + 1) ≡ some content)
    × (length content ≤ non_negative config.maximum_file_bytes)
    × (files.valid_utf8 content ≡ true)

module _ (files : Files) (config : ResponsesConfig) where
  resolve_page-IsInside :
      (root name at_path : Bytes)
      → resolve_page files config root name ≡ some at_path
      → IsInside files config root name at_path
  unfolding resolve_page
  resolve_page-IsInside root name at_path h =
      elim (Bool-cases (validate_relative_page_path files.paths root name)) [
        | inr bad ↦ absurd (ground arith)
        | inl named ↦
            let candidate = files.paths.clean (files.paths.join root name) in
            elim (Option-cases (files.eval_symlinks root)) [
              | inl bad ↦ absurd (ground arith)
              | inr (resolved_root, root_resolved) ↦
                  elim (Option-cases (files.eval_symlinks candidate)) [
                    | inl bad ↦ absurd (ground arith)
                    | inr (resolved, page_resolved) ↦
                        let chosen : allowed_path files config root candidate
                              (files.paths.clean resolved_root) (files.paths.clean resolved)
                            ≡ some at_path =
                          ground (arith, h, named, root_resolved, page_resolved) in
                        record {
                          named = named;
                          resolved_root = resolved_root;
                          resolved = resolved;
                          root_resolved = root_resolved;
                          page_resolved = page_resolved;
                          path_cleaned = ground (arith, chosen);
                          inside = ground (arith, chosen);
                          direct =
                              ground (
                                arith,
                                chosen,
                                bytes_beq_iff (files.paths.clean resolved) candidate,
                              );
                        }
                  ]
            ]
      ]

  read_page-IsText :
      (file : OpenFile) (content : Bytes)
      → read_page files config file ≡ some content
      → IsText files config file content
  unfolding read_page
  read_page-IsText file content h = elim (Option-cases file.stat) [
    | inl bad ↦ absurd (ground arith)
    | inr (info, stat) ↦
        elim (Option-cases (file.read_limited (non_negative config.maximum_file_bytes + 1))) [
          | inl bad ↦ absurd (ground arith)
          | inr (text, got) ↦ ((info, stat, ground arith), ground arith, ground arith, ground arith)
        ]
  ]

  -- A page that is read comes from a regular file that opens at a path inside the root, once all
  -- links are followed, which is the page's own path unless links are allowed; and it is the file's
  -- whole text, of at most the configured number of bytes, and valid UTF-8.
  pub load-IsText :
      (root name content : Bytes)
      → load files config root name ≡ some content
      → (at_path : Bytes) × (file : OpenFile) × (files.open_file at_path ≡ some file)
        × IsInside files config root name at_path
        × IsText files config file content
  unfolding load
  load-IsText root name content h = elim (Option-cases (resolve_page files config root name)) [
    | inl bad ↦ absurd (ground arith)
    | inr (at_path, found) ↦ elim (Option-cases (files.open_file at_path)) [
      | inl bad ↦ absurd (ground arith)
      | inr (file, opened) ↦ (
        at_path,
        file,
        opened,
        resolve_page-IsInside root name at_path found,
        read_page-IsText file content (ground arith),
      )
    ]
  ]
