-- ===== src/Pages/Recent.antt =====
-- Where the pages in the store come from, after any calls of `page`.
use sokol_traefik_plugin.Prelude.{
  ℕ, ◌+◌, ◌<◌, ◌≡◌, inl, inr, refl, sym, subst, List, [], ◌∷◌, ltb, bytes_eq, All, All-map, Any,
  Any-map, Bool-cases, Option-cases, arith,
}
use sokol_traefik_plugin.Prelude.GoMap.{lookup, All-insert, All-lookup}
use sokol_traefik_plugin.Text.{Bytes}
use sokol_traefik_plugin.Config.{ResponsesConfig}
use sokol_traefik_plugin.Pages.{
  Files, PageEntry, PageStore, new_page_store, page_file, fallback_for, load, content_or, reload,
  page,
}

-- One call of `page`, with the file system that it meets.
pub record Call : Type 0 where
  pub files : Files
  pub decision : Bytes
  pub now : ℕ

-- The last call first.
unfoldable pub run : PageStore → List Call → PageStore
unfolding page
run store [] = store
run store (call ∷ past) = (page call.files (run store past) call.decision call.now).0

module _ (config : ResponsesConfig) (root : Bytes) (interval : ℕ) where
  -- What a call reads when it reads: the file, or what stands in for it.
  abbrev pub read_by : Call → Bytes
  read_by call =
      content_or (fallback_for call.decision)
        (load call.files config root (page_file config call.decision))

  -- The content under this name is what the call read.
  abbrev IsReadBy : Bytes × PageEntry → Call → Type 0
  IsReadBy (name, entry) call =
      (page_file config call.decision ≡ name)
      × (entry.content ≡ read_by call)
      × (entry.next_check ≡ call.now + interval)

  abbrev IsKept : List Call → Bytes × PageEntry → Type 0
  IsKept calls entry = Any (IsReadBy entry) calls

  record IsStore (store : PageStore) (calls : List Call) : Type 0 where
    same_config : store.config ≡ config
    same_root : store.root ≡ root
    same_interval : store.reload_interval ≡ interval
    kept : All (IsKept calls) store.cache

  -- The content is what one of the calls read for the same file, less than the interval ago.
  abbrev pub IsRecent : Call → Bytes → List Call → Type 0
  IsRecent call content calls =
      Any
        (λ (earlier : Call).
          (page_file config earlier.decision ≡ page_file config call.decision)
          × (content ≡ read_by earlier)
          × (call.now < earlier.now + interval))
        calls

  reload-IsStore :
      (store : PageStore) (calls : List Call) (call : Call)
      → IsStore store calls
      → 0 < interval
      → IsStore (reload call.files store call.decision call.now).0 (call ∷ calls)
        × IsRecent call (reload call.files store call.decision call.now).1 (call ∷ calls)
  unfolding reload
  reload-IsStore store calls call s positive =
      let c = s.same_config in
      let r = s.same_root in
      let i = s.same_interval in
      let content_lem : content_or (fallback_for call.decision)
            (load call.files store.config store.root (page_file store.config call.decision))
          ≡ read_by call =
        cc in
      (
        record {
          same_config = c;
          same_root = r;
          same_interval = i;
          kept =
              All-insert (IsKept (call ∷ calls)) (page_file store.config call.decision) _
                store.cache (inl (cc, content_lem, cc))
                (All-map (IsKept calls) (IsKept (call ∷ calls)) store.cache (λ entry h. inr h)
                  s.kept);
        },
        inl (refl, content_lem, omega arith),
      )

  page-IsStore :
      (store : PageStore) (calls : List Call) (call : Call)
      → IsStore store calls
      → 0 < interval
      → IsStore (page call.files store call.decision call.now).0 (call ∷ calls)
        × IsRecent call (page call.files store call.decision call.now).1 (call ∷ calls)
  unfolding page
  page-IsStore store calls call s positive =
      elim (Option-cases (lookup (page_file store.config call.decision) store.cache)) [
        | inl missing ↦
            after (reload call.files store call.decision call.now) (ground arith)
              (reload-IsStore store calls call s positive)
        | inr (entry, found) ↦ elim (Bool-cases (ltb call.now entry.next_check)) [
          | inr expired ↦
              after (reload call.files store call.decision call.now) (ground arith)
                (reload-IsStore store calls call s positive)
          | inl fresh ↦
              after (store, entry.content) (ground arith)
                (
                  record {
                    same_config = s.same_config;
                    same_root = s.same_root;
                    same_interval = s.same_interval;
                    kept =
                        All-map (IsKept calls) (IsKept (call ∷ calls)) store.cache (λ e h. inr h)
                          s.kept;
                  },
                  inr (
                      Any-map _ _ calls
                        (λ earlier (same, content, next).
                          (cc, content, ground (arith, fresh, next)))
                        (All-lookup (IsKept calls) (page_file store.config call.decision) entry
                          store.cache s.kept found)),
                )
        ]
      ]
    where
      after :
          (r : PageStore × Bytes)
          → page call.files store call.decision call.now ≡ r
          → IsStore r.0 (call ∷ calls) × IsRecent call r.1 (call ∷ calls)
          → IsStore (page call.files store call.decision call.now).0 (call ∷ calls)
            × IsRecent call (page call.files store call.decision call.now).1 (call ∷ calls)
      after r same h =
          subst (λ r. IsStore r.0 (call ∷ calls) × IsRecent call r.1 (call ∷ calls)) (sym same) h

  run-IsStore :
      (calls : List Call)
      → 0 < interval
      → IsStore (run (new_page_store config root interval) calls) calls
  unfolding run new_page_store
  run-IsStore [] positive = record {
    same_config = refl;
    same_root = refl;
    same_interval = refl;
    kept = tt;
  }
  run-IsStore (call ∷ past) positive =
      (page-IsStore (run (new_page_store config root interval) past) past call
        (run-IsStore past positive) positive).0

  -- After any calls, each on a file system of its own: the page that a call gets is what it or an
  -- earlier call, less than the reload interval before, read of the same file, or the page that
  -- stood in for that file then.
  pub page-run-IsRecent :
      (past : List Call) (call : Call)
      → 0 < interval
      → IsRecent call
          (page call.files
            (run (new_page_store config root interval) past)
            call.decision
            call.now).1
          (call ∷ past)
  page-run-IsRecent past call positive =
      (page-IsStore (run (new_page_store config root interval) past) past call
        (run-IsStore past positive) positive).1
