-- ===== src/Agent/Validation.antt =====
-- What a valid evaluation response is, apart from the code, and that the checks decide it.
use sokol_traefik_plugin.Prelude.{
  ℕ, ◌≤◌, ◌≡◌, ◌↔◌, ◌⊎◌, true, ◌&&◌, ◌||◌, [], ◌∷◌, none, leb, nat_beq, nat_eq, bytes_eq, int_eq,
  bytes_beq_iff, length, all, All, ℤ, pos, negsuc, arith,
}
use sokol_traefik_plugin.Text.{Bytes, codes}
use sokol_traefik_plugin.Wire.{EvaluationResponse}
use sokol_traefik_plugin.Agent.{is_digit, lower_hex, valid_public_reason, check_status}

abbrev pub Between : ℕ → ℕ → ℤ → Type 0
Between lo hi (pos n) = (lo ≤ n) × (n ≤ hi)
Between lo hi (negsuc n) = ⊥

-- The status that goes with the decision.
abbrev pub StatusFits : EvaluationResponse → Type 0
StatusFits r =
    (((r.decision ≡ codes "allow") ⊎ (r.decision ≡ codes "observe")) × (r.status ≡ pos 200))
    ⊎ ((((r.decision ≡ codes "block") ⊎ (r.decision ≡ codes "challenge")) × (r.status ≡ pos 403))
        ⊎ (((r.decision ≡ codes "rate_limit") × (r.status ≡ pos 429))
            ⊎ ((r.decision ≡ codes "error") × Between 400 599 r.status)))

abbrev pub IsReasonByte : ℕ → Type 0
IsReasonByte c = ((b'a' ≤ c) × (c ≤ b'z')) ⊎ (((b'0' ≤ c) × (c ≤ b'9')) ⊎ (c ≡ b'_'))

abbrev pub IsHexByte : ℕ → Type 0
IsHexByte c = ((b'0' ≤ c) × (c ≤ b'9')) ⊎ ((b'a' ≤ c) × (c ≤ b'f'))

abbrev pub IsReason : Bytes → Type 0
IsReason s = (1 ≤ length s) × (length s ≤ 64) × All IsReasonByte s

pub check_status_iff : (r : EvaluationResponse) → (check_status r ≡ none) ↔ StatusFits r
unfolding check_status
check_status_iff r = ground (
  arith,
  bytes_beq_iff r.decision (codes "allow"),
  bytes_beq_iff r.decision (codes "observe"),
  bytes_beq_iff r.decision (codes "block"),
  bytes_beq_iff r.decision (codes "challenge"),
  bytes_beq_iff r.decision (codes "rate_limit"),
  bytes_beq_iff r.decision (codes "error"),
)

reason_bytes_iff :
    (s : Bytes)
    → (all (λ c. (leb b'a' c && leb c b'z') || is_digit c || nat_beq c b'_') s ≡ true)
      ↔ All IsReasonByte s
unfolding all
reason_bytes_iff [] = ground arith
reason_bytes_iff (c ∷ s) = ground (arith, reason_bytes_iff s)

pub hex_iff : (s : Bytes) → (lower_hex s ≡ true) ↔ All IsHexByte s
unfolding lower_hex
hex_iff [] = ground arith
hex_iff (c ∷ s) = ground (arith, hex_iff s)

pub IsReason-iff : (s : Bytes) → (valid_public_reason s ≡ true) ↔ IsReason s
unfolding valid_public_reason
IsReason-iff s = ground (arith, reason_bytes_iff s)
