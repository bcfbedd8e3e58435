-- ===== src/Text/Order.antt =====
-- The order of Go strings, `sort.Strings`, and the fact that sorting forgets the order in which
-- the strings arrive.
use sokol_traefik_plugin.Prelude.{ℕ, Bool, true, false, List, [], ◌∷◌, ltb, nat_beq, if◌then◌else◌}

-- `s < t` on strings: byte by byte.
unfoldable pub bytes_lt : List ℕ → List ℕ → Bool
bytes_lt [] [] = false
bytes_lt [] (y ∷ ys) = true
bytes_lt (x ∷ xs) [] = false
bytes_lt (x ∷ xs) (y ∷ ys) = if ltb x y then true else if nat_beq x y then bytes_lt xs ys else false

-- Insertion before the first string that is not smaller; `key` is what the sort compares.
module _ (key : List ℕ → List ℕ) where
  unfoldable pub insert_sorted : List ℕ → List (List ℕ) → List (List ℕ)
  insert_sorted s [] = s ∷ []
  insert_sorted s (t ∷ ts) = if bytes_lt (key t) (key s) then t ∷ insert_sorted s ts else s ∷ t ∷ ts

  unfoldable pub sort_by : List (List ℕ) → List (List ℕ)
  unfolding insert_sorted
  sort_by [] = []
  sort_by (s ∷ ss) = insert_sorted s (sort_by ss)
