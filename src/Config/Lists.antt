-- ===== src/Config/Lists.antt =====
-- When a list of problems is empty.
use sokol_traefik_plugin.Prelude.{
  ℕ, ◌≤◌, ◌≡◌, ◌↔◌, inl, inr, refl, Bool, true, false, not, List, [], ◌∷◌, ◌++◌, Option, none, some,
  All, ℤ, pos, negsuc, Option-cases, arith,
}
use sokol_traefik_plugin.Text.{Bytes, trim_space}
use sokol_traefik_plugin.Net.{IpNet}
use sokol_traefik_plugin.Config.{Problem, problem_if, bounded_duration, outside, each}
use sokol_traefik_plugin.Config.Check.{parse_networks}

pub append-eq-nil {ℓ} : {A : Type ℓ} (xs ys : List A) → (xs ++ ys ≡ []) ↔ ((xs ≡ []) × (ys ≡ []))
append-eq-nil [] ys = (λ h. (refl, h), λ h. h.1)
append-eq-nil (x ∷ xs) ys = (λ h. cc, λ h. absurd (ground (arith, h.0)))

pub problem_if_iff : (b : Bool) (p : Problem) → (problem_if b p ≡ []) ↔ (b ≡ false)
problem_if_iff b p = ground arith

pub each_iff :
    (good : Bytes → Bool) (p : Problem) (items : List Bytes)
    → (each good p items ≡ []) ↔ All (λ item. good item ≡ true) items
unfolding each
each_iff good p [] = (λ h. tt, λ h. refl)
each_iff good p (item ∷ items) = ground (arith, each_iff good p items)

pub outside_iff :
    (low high : ℕ) (z : ℤ)
    → (outside low high z ≡ false) ↔ ((n : ℕ) × (z ≡ pos n) × (low ≤ n) × (n ≤ high))
outside_iff low high (pos n) =
    (λ h. (n, refl, ground arith, ground arith), λ (m, same, l, k). ground arith)
outside_iff low high (negsuc n) =
    (λ h. absurd (ground arith), λ (m, same, l, k). absurd (ground arith))

-- The text reads as that many nanoseconds, within the bounds.
pub bounded_duration_iff :
    (read : Option ℤ) (low high n : ℕ) (p : Problem)
    → (((bounded_duration read low high p).1 ≡ []) × ((bounded_duration read low high p).0 ≡ n))
      ↔ ((read ≡ some (pos n)) × (low ≤ n) × (n ≤ high))
unfolding bounded_duration
bounded_duration_iff none low high n p =
    (λ h. absurd (ground (arith, h.0)), λ h. absurd (ground (arith, h.0)))
bounded_duration_iff (some (pos m)) low high n p = ground arith
bounded_duration_iff (some (negsuc m)) low high n p = ground arith

-- The networks, one for each text.
abbrev pub Parses : (Bytes → Option IpNet) → List Bytes → List IpNet → Type 0
Parses parse_cidr [] [] = Unit
Parses parse_cidr (value ∷ values) (network ∷ networks) =
    (parse_cidr (trim_space value) ≡ some network) × Parses parse_cidr values networks
Parses parse_cidr [] (network ∷ networks) = ⊥
Parses parse_cidr (value ∷ values) [] = ⊥

pub parse_networks-Parses :
    (parse_cidr : Bytes → Option IpNet) (values : List Bytes)
    → (parse_networks parse_cidr values).1 ≡ []
    → Parses parse_cidr values (parse_networks parse_cidr values).0
unfolding parse_networks
parse_networks-Parses parse_cidr [] h = tt
parse_networks-Parses parse_cidr (value ∷ values) h =
    elim (Option-cases (parse_cidr (trim_space value))) [
      | inl bad ↦ absurd (ground arith)
      | inr (network, good) ↦
          rw (good, parse_networks) (good, parse_networks-Parses parse_cidr values (ground arith))
    ]

pub Parses-parse_networks :
    (parse_cidr : Bytes → Option IpNet) (values : List Bytes) (networks : List IpNet)
    → Parses parse_cidr values networks
    → parse_networks parse_cidr values ≡ (networks, [])
unfolding parse_networks
Parses-parse_networks parse_cidr [] [] h = refl
Parses-parse_networks parse_cidr [] (network ∷ networks) h = elim h [ ]
Parses-parse_networks parse_cidr (value ∷ values) [] h = elim h [ ]
Parses-parse_networks parse_cidr (value ∷ values) (network ∷ networks) (h, hs) =
    ground (arith, h, Parses-parse_networks parse_cidr values networks hs)

pub same {ℓ} : {P : Type ℓ} → P ↔ P
same = (λ p. p, λ p. p)

pub append_iff :
    {A P Q : Type 0} {xs ys : List A} → (xs ≡ []) ↔ P → (ys ≡ []) ↔ Q → (xs ++ ys ≡ []) ↔ (P × Q)
append_iff {xs} {ys} left right = (
  λ h. let parts = (append-eq-nil xs ys).0 h in (left.0 parts.0, right.0 parts.1),
  λ (p, q). (append-eq-nil xs ys).1 (left.1 p, right.1 q),
)

pub problem_unless_iff : (b : Bool) (p : Problem) → (problem_if (not b) p ≡ []) ↔ (b ≡ true)
problem_unless_iff b p = ground arith
