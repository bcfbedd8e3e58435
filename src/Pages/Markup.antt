-- ===== src/Pages/Markup.antt =====
-- Text that is filled into a page: its markup is not changed.
use sokol_traefik_plugin.Prelude.{
  ℕ, zero, suc, ◌+◌, ◌≡◌, ◌≢◌, ◌⊎◌, inl, inr, refl, ◌∙◌, Bool, true, not, ◌&&◌, List, [], ◌∷◌, ◌++◌,
  nat_beq, nat_beq_iff, length, take, All, Bool-cases, arith,
}
use sokol_traefik_plugin.Text.{Bytes, has_prefix}
use sokol_traefik_plugin.Pages.Fill.{
  replace_from, replace_all, escaped_byte, html_escape, fill, count,
}

-- The bytes that open and close tags and attributes.
abbrev pub IsMarkup : ℕ → Type 0
IsMarkup b = (b ≡ b'<') ⊎ (b ≡ b'>') ⊎ (b ≡ 34) ⊎ (b ≡ 39)

-- The byte is not in the text.
abbrev pub IsFree : ℕ → Bytes → Type 0
IsFree b s = count b s ≡ 0

pub count-append : (b : ℕ) (s t : Bytes) → count b (s ++ t) ≡ count b s + count b t
unfolding count
count-append b [] t = omega arith
count-append b (c ∷ s) t = ground (arith, count-append b s t)

escaped_byte-IsFree : (b c : ℕ) → IsMarkup b → IsFree b (escaped_byte c)
unfolding count
escaped_byte-IsFree b c (inl h) = ground arith
escaped_byte-IsFree b c (inr (inl h)) = ground arith
escaped_byte-IsFree b c (inr (inr (inl h))) = ground arith
escaped_byte-IsFree b c (inr (inr (inr h))) = ground arith

pub html_escape-IsFree : (b : ℕ) (s : Bytes) → IsMarkup b → IsFree b (html_escape s)
unfolding html_escape count
html_escape-IsFree b [] markup = refl
html_escape-IsFree b (c ∷ s) markup = omega (
  arith,
  count-append b (escaped_byte c) (html_escape s),
  escaped_byte-IsFree b c markup,
  html_escape-IsFree b s markup,
)

has_prefix-take : (s p : Bytes) → has_prefix s p ≡ true → take (length p) s ≡ p
unfolding has_prefix take
has_prefix-take s [] h = ground arith
has_prefix-take [] (c ∷ p) h = ground arith
has_prefix-take (d ∷ s) (c ∷ p) h = ground (arith, nat_beq_iff d c, has_prefix-take s p)

count-replace_from :
    (b : ℕ) (old new : Bytes) (skip : ℕ) (s : Bytes)
    → old ≢ []
    → IsFree b old
    → IsFree b new
    → IsFree b (take skip s)
    → count b (replace_from old new skip s) ≡ count b s
unfolding replace_from count take
count-replace_from b old new skip [] some_old o n passed = ground arith
count-replace_from b old new (suc skip) (c ∷ s) some_old o n passed =
    ground (arith, count-replace_from b old new skip s some_old o n)
count-replace_from b [] new zero (c ∷ s) some_old o n passed = absurd (some_old refl)
count-replace_from b (a ∷ old) new zero (c ∷ s) some_old o n passed =
    elim (Bool-cases (has_prefix (c ∷ s) (a ∷ old))) [
      | inr differs ↦
          ground (arith, differs, count-replace_from b (a ∷ old) new zero s some_old o n)
      | inl starts ↦
          let matched = has_prefix-take (c ∷ s) (a ∷ old) starts in
          let rest =
            count-replace_from b (a ∷ old) new (length old) s some_old o n
              (ground (arith, matched)) in
          ground (
            arith,
            starts,
            matched,
            rest,
            count-append b new (replace_from (a ∷ old) new (length old) s),
          )
    ]

-- The placeholder and its value are free of the byte.
abbrev pub IsPlain : ℕ → Bytes × Bytes → Type 0
IsPlain b (placeholder, value) = (placeholder ≢ []) × IsFree b placeholder × IsFree b value

pub count-fill :
    (b : ℕ) (replacements : List (Bytes × Bytes)) (template : Bytes)
    → All (IsPlain b) replacements
    → count b (fill replacements template) ≡ count b template
unfolding fill replace_all take count
count-fill b [] template plain = refl
count-fill b ((placeholder, value) ∷ rest) template ((some_text, p, v), plain) =
    count-fill b rest (replace_all template placeholder value) plain
    ∙ count-replace_from b placeholder value zero template some_text p v refl

-- No byte of markup.
abbrev pub is_plain : Bytes → Bool
is_plain [] = true
is_plain (c ∷ s) =
    not (nat_beq c b'<')
    && (not (nat_beq c b'>') && (not (nat_beq c 34) && (not (nat_beq c 39) && is_plain s)))

pub is_plain-IsFree : (b : ℕ) (s : Bytes) → IsMarkup b → is_plain s ≡ true → IsFree b s
unfolding count
is_plain-IsFree b [] markup h = refl
is_plain-IsFree b (c ∷ s) (inl e) h = ground (arith, is_plain-IsFree b s (inl e))
is_plain-IsFree b (c ∷ s) (inr (inl e)) h = ground (arith, is_plain-IsFree b s (inr (inl e)))
is_plain-IsFree b (c ∷ s) (inr (inr (inl e))) h =
    ground (arith, is_plain-IsFree b s (inr (inr (inl e))))
is_plain-IsFree b (c ∷ s) (inr (inr (inr e))) h =
    ground (arith, is_plain-IsFree b s (inr (inr (inr e))))

pub escaped-IsPlain :
    (b : ℕ) {c : ℕ} {name : Bytes} (value : Bytes)
    → IsMarkup b
    → is_plain (c ∷ name) ≡ true
    → IsPlain b (c ∷ name, html_escape value)
escaped-IsPlain b {c} {name} value markup h = (
  (λ e. ground (arith, e)),
  is_plain-IsFree b (c ∷ name) markup h,
  html_escape-IsFree b value markup,
)
