-- ===== src/Prelude/GoMap.antt =====
-- Go maps as association lists: the list order stands for the iteration order, which Go leaves
-- open. Written keys are replaced in place or appended.
use Prim.Native.Nat.{◌+◌, ◌≤◌}
use mathlib.Core.Path.{◌≡◌, refl, subst}
use mathlib.Core.Logic.{◌≢◌, inl, inr}
use mathlib.Core.Bool.{Bool, true, false}
use mathlib.Core.Option.{Option, none, some}
use mathlib.Core.List.{List, [], ◌∷◌}
use native.Mathlib.Omega.{arith}
use sokol_traefik_plugin.Prelude.Tests.{Eq, ◌==◌, if◌then◌else◌, Bool-cases}
use sokol_traefik_plugin.Prelude.Lists.{length, All}

module _ {ℓ κ} {K : Type ℓ} {V : Type κ} ⦃e : Eq K⦄ where
  unfoldable pub lookup : K → List (K × V) → Option V
  lookup key [] = none
  lookup key ((other, v) ∷ rest) = if other == key then some v else lookup key rest

  unfoldable pub insert : K → V → List (K × V) → List (K × V)
  insert key v [] = (key, v) ∷ []
  insert key v ((other, w) ∷ rest) =
      if other == key then (key, v) ∷ rest else (other, w) ∷ insert key v rest

  unfoldable pub delete : K → List (K × V) → List (K × V)
  delete k [] = []
  delete k ((j, w) ∷ m) = let rest = delete k m in if j == k then rest else (j, w) ∷ rest

  unfoldable pub has : K → List (K × V) → Bool
  has k m = elim (lookup k m) [ none ↦ false | some v ↦ true ]

  -- No key is bound twice.
  abbrev pub IsMap : List (K × V) → Type κ
  IsMap [] = Unit
  IsMap ((k, v) ∷ m) = (lookup k m ≡ none) × IsMap m

  pub lookup-insert :
      (key other : K) (new : V) (m : List (K × V))
      → lookup other (insert key new m) ≡ (if key == other then some new else lookup other m)
  unfolding lookup insert
  lookup-insert key other new [] = refl
  lookup-insert key other new ((i, w) ∷ m) = ground (
    arith,
    e.beq_iff key other,
    e.beq_iff i key,
    e.beq_iff i other,
    lookup-insert key other new m,
  )

  pub lookup-delete :
      (k j : K) (m : List (K × V)) → lookup j (delete k m) ≡ (if k == j then none else lookup j m)
  unfolding lookup delete
  lookup-delete k j [] = ground arith
  lookup-delete k j ((i, w) ∷ m) =
      ground (arith, e.beq_iff k j, e.beq_iff i k, e.beq_iff i j, lookup-delete k j m)

  pub insert-IsMap : (k : K) (v : V) (m : List (K × V)) → IsMap m → IsMap (insert k v m)
  unfolding insert lookup
  insert-IsMap k v [] h = (refl, tt)
  insert-IsMap k v ((i, w) ∷ m) h =
      ground (arith, e.beq_iff i k, e.beq_iff k i, lookup-insert k i v m, insert-IsMap k v m h.1)

  pub delete-IsMap : (k : K) (m : List (K × V)) → IsMap m → IsMap (delete k m)
  unfolding delete
  delete-IsMap k [] h = tt
  delete-IsMap k ((i, w) ∷ m) h =
      ground (arith, e.beq_iff i k, e.beq_iff k i, lookup-delete k i m, delete-IsMap k m h.1)

  pub length-insert_new :
      (k : K) (v : V) (m : List (K × V)) → lookup k m ≡ none → length (insert k v m) ≡ length m + 1
  unfolding insert lookup
  length-insert_new k v [] h = refl
  length-insert_new k v ((i, w) ∷ m) h = ground (arith, length-insert_new k v m)

  pub length-insert_old :
      (k : K) (v : V) (m : List (K × V)) → lookup k m ≢ none → length (insert k v m) ≡ length m
  unfolding insert lookup
  length-insert_old k v [] h = absurd (h refl)
  length-insert_old k v ((i, w) ∷ m) h = ground (arith, length-insert_old k v m)

  pub length-delete-le : (k : K) (m : List (K × V)) → length (delete k m) ≤ length m
  unfolding delete
  length-delete-le k [] = omega arith
  length-delete-le k ((i, w) ∷ m) = ground (arith, length-delete-le k m)

  pub length-delete-lt :
      (k : K) (m : List (K × V)) → lookup k m ≢ none → length (delete k m) + 1 ≤ length m
  unfolding delete lookup
  length-delete-lt k [] h = absurd (h refl)
  length-delete-lt k ((i, w) ∷ m) h = ground (arith, length-delete-lt k m, length-delete-le k m)

  pub All-insert {μ} :
      (P : K × V → Type μ) (k : K) (v : V) (m : List (K × V))
      → P (k, v)
      → All P m
      → All P (insert k v m)
  unfolding insert
  All-insert P k v [] p h = (p, tt)
  All-insert P k v ((i, w) ∷ m) p h = elim (Bool-cases (i == k)) [
    | inl same ↦ rw (same, insert) (p, h.1)
    | inr apart ↦ rw (apart, insert) (h.0, All-insert P k v m p h.1)
  ]

  pub All-lookup {μ} :
      (P : K × V → Type μ) (k : K) (v : V) (m : List (K × V))
      → All P m
      → lookup k m ≡ some v
      → P (k, v)
  unfolding lookup
  All-lookup P k v [] h found = absurd (ground arith)
  All-lookup P k v ((i, w) ∷ m) h found = elim (Bool-cases (i == k)) [
    | inl same ↦
        let same_key = (e.beq_iff i k).0 same in
        let same_value : w ≡ v = ground arith in
        let same_entry : (i, w) ≡ (k, v) = cc in subst P same_entry h.0
    | inr apart ↦ All-lookup P k v m h.1 (rw (apart, lookup) at found)
  ]

  delete_absent : (k : K) (m : List (K × V)) → lookup k m ≡ none → delete k m ≡ m
  unfolding delete lookup
  delete_absent k [] h = refl
  delete_absent k ((i, w) ∷ m) h = ground (arith, delete_absent k m)

  pub length-delete_old :
      (k : K) (m : List (K × V)) → IsMap m → lookup k m ≢ none → length (delete k m) + 1 ≡ length m
  unfolding delete lookup
  length-delete_old k [] h present = absurd (present refl)
  length-delete_old k ((i, w) ∷ m) h present = elim (Bool-cases (i == k)) [
    | inl same ↦
        let gone = subst (λ j. lookup j m ≡ none) ((e.beq_iff i k).0 same) h.0 in
        ground (arith, same, gone, delete_absent k m)
    | inr apart ↦ ground (arith, apart, length-delete_old k m h.1)
  ]
