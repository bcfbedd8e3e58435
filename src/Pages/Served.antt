-- ===== src/Pages/Served.antt =====
-- What the pages are that `page` of responses.go serves.
use sokol_traefik_plugin.Prelude.{
  ℕ, ◌+◌, ◌<◌, ◌≡◌, ◌⊎◌, inl, inr, List, ◌∷◌, none, some, Any, Any-map, Option-cases, arith,
}
use sokol_traefik_plugin.Text.{Bytes}
use sokol_traefik_plugin.Config.{ResponsesConfig}
use sokol_traefik_plugin.Pages.{
  Files, OpenFile, new_page_store, page_file, fallback_for, load, page,
}
use sokol_traefik_plugin.Pages.Safe.{IsInside, IsText, load-IsText}
use sokol_traefik_plugin.Pages.Recent.{Call, run, read_by, page-run-IsRecent}

module _ (config : ResponsesConfig) (root : Bytes) (interval : ℕ) where
  -- The whole text of a file inside the root.
  abbrev pub IsFile : Files → Bytes → Bytes → Type 0
  IsFile files name content =
      (at_path : Bytes) × (file : OpenFile) × (files.open_file at_path ≡ some file)
      × IsInside files config root name at_path
      × IsText files config file content

  -- The file's text, or the page that stands in where it cannot be read.
  abbrev pub IsReading : Call → Bytes → Type 0
  IsReading call content =
      IsFile call.files (page_file config call.decision) content
      ⊎ ((load call.files config root (page_file config call.decision) ≡ none)
          × (content ≡ fallback_for call.decision))

  abbrev pub IsServed : Call → Bytes → List Call → Type 0
  IsServed call content calls =
      Any
        (λ (earlier : Call).
          (page_file config earlier.decision ≡ page_file config call.decision)
          × IsReading earlier content
          × (call.now < earlier.now + interval))
        calls

  read_by-IsReading :
      (call : Call) (content : Bytes)
      → content ≡ read_by config root interval call
      → IsReading call content
  read_by-IsReading call content h =
      elim (Option-cases (load call.files config root (page_file config call.decision))) [
        | inl failed ↦ inr (failed, ground (arith, h, failed))
        | inr (text, loaded) ↦ inl (
            load-IsText call.files config root (page_file config call.decision) content
              (ground (arith, h, loaded)))
      ]

  -- After any calls, each on a file system of its own, a call gets what was read of the page file for
  -- its decision, by itself or by an earlier call, less than the reload interval before. That is the
  -- whole text, in UTF-8 and of at most the configured number of bytes, of a regular file inside the
  -- root once all links are followed, and at the page's own path unless links are allowed; or, where
  -- that file could not be read then, the page that stood in for it.
  pub page-run-IsServed :
      (past : List Call) (call : Call)
      → 0 < interval
      → IsServed call
          (page call.files
            (run (new_page_store config root interval) past)
            call.decision
            call.now).1
          (call ∷ past)
  page-run-IsServed past call positive =
      Any-map _ _ (call ∷ past)
        (λ earlier (same, content, soon). (same, read_by-IsReading earlier _ content, soon))
        (page-run-IsRecent config root interval past call positive)
