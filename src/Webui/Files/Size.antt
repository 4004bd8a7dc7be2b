-- ===== src/Webui/Files/Size.antt =====
-- The size of a file is shown with a unit that exists.
use mathlib.Core.Path.{subst, sym}
use smtp_store.Base.{
  ℕ, zero, suc, ◌+◌, ◌*◌, ◌/◌, ◌≤◌, ◌<◌, ◌^◌, ◌≡◌, refl, Option, some, ◌∷◌, ◌++◌, Text, codes, ltb,
  arith, ap, ◌∙◌, Bool-cases, inl, inr, ltb→lt, ltb→le, ◌⊎◌,
}
use smtp_store.Base.Strings.Decimal.{decimal}
use smtp_store.Webui.Files.{scale, nth, with_unit, scaled_size, human_size}

-- The exponent names a unit, and the size is between one and 1024 of that unit.
abbrev pub IsScaled : ℕ → Option (ℕ × ℕ) → Type 0
IsScaled size o =
    (div exp : ℕ) × (o ≡ some (div, exp))
    × (div ≡ 1024 ^ (exp + 1))
    × (exp ≤ 5)
    × (div ≤ size)
    × (size < div * 1024)

scale_stops : (fuel n div exp : ℕ) → n < 1024 → scale (suc fuel) n div exp ≡ some (div, exp)
unfolding scale
scale_stops fuel n div exp h = ground arith

scale_goes_on :
    (fuel n div exp : ℕ)
    → 1024 ≤ n
    → scale (suc fuel) n div exp ≡ scale fuel (n / 1024) (div * 1024) (exp + 1)
unfolding scale
scale_goes_on fuel n div exp h = ground arith

module _ (size : ℕ) where
  -- One round: the number is small enough for the unit, or the next round has the next unit.
  scale-IsScaled :
      (fuel div exp n : ℕ)
      → (n < 1024 → size < div * 1024)
      → div ≡ 1024 ^ (exp + 1)
      → exp ≤ 5
      → div ≤ size
      → (1024 ≤ n → IsScaled size (scale fuel (n / 1024) (div * 1024) (exp + 1)))
      → IsScaled size (scale (suc fuel) n div exp)
  scale-IsScaled fuel div exp n below power small le more = elim (Bool-cases (ltb n 1024)) [
    | inl e ↦ (
      div,
      exp,
      scale_stops fuel n div exp (ltb→lt n 1024 e),
      power,
      small,
      le,
      below (ltb→lt n 1024 e),
    )
    | inr e ↦
        subst (IsScaled size) (sym (scale_goes_on fuel n div exp (ltb→le n 1024 e)))
          (more (ltb→le n 1024 e))
  ]

  module _ (fits : size < 2 ^ 63) where
    scale6 :
        2 ^ 60 ≤ size
        → IsScaled size (scale 59 (size / 1024 / 1024 / 1024 / 1024 / 1024 / 1024) (2 ^ 60) 5)
    scale6 le =
        scale-IsScaled 58 (2 ^ 60) 5 (size / 1024 / 1024 / 1024 / 1024 / 1024 / 1024)
          (λ h. omega arith) refl (omega arith) le (λ large. absurd (omega arith))

    scale5 :
        2 ^ 50 ≤ size
        → IsScaled size (scale 60 (size / 1024 / 1024 / 1024 / 1024 / 1024) (2 ^ 50) 4)
    scale5 le =
        scale-IsScaled 59 (2 ^ 50) 4 (size / 1024 / 1024 / 1024 / 1024 / 1024) (λ h. omega arith)
          refl (omega arith) le (λ large. scale6 (omega arith))

    scale4 : 2 ^ 40 ≤ size → IsScaled size (scale 61 (size / 1024 / 1024 / 1024 / 1024) (2 ^ 40) 3)
    scale4 le =
        scale-IsScaled 60 (2 ^ 40) 3 (size / 1024 / 1024 / 1024 / 1024) (λ h. omega arith) refl
          (omega arith) le (λ large. scale5 (omega arith))

    scale3 : 2 ^ 30 ≤ size → IsScaled size (scale 62 (size / 1024 / 1024 / 1024) (2 ^ 30) 2)
    scale3 le =
        scale-IsScaled 61 (2 ^ 30) 2 (size / 1024 / 1024 / 1024) (λ h. omega arith) refl
          (omega arith) le (λ large. scale4 (omega arith))

    scale2 : 2 ^ 20 ≤ size → IsScaled size (scale 63 (size / 1024 / 1024) (2 ^ 20) 1)
    scale2 le =
        scale-IsScaled 62 (2 ^ 20) 1 (size / 1024 / 1024) (λ h. omega arith) refl (omega arith) le
          (λ large. scale3 (omega arith))

    scale1 : 2 ^ 10 ≤ size → IsScaled size (scale 64 (size / 1024) (2 ^ 10) 0)
    scale1 le =
        scale-IsScaled 63 (2 ^ 10) 0 (size / 1024) (λ h. omega arith) refl (omega arith) le
          (λ large. scale2 (omega arith))

nth-some : (exp : ℕ) → exp ≤ 5 → (letter : ℕ) × (nth (codes "KMGTPE") exp ≡ some letter)
unfolding nth
nth-some zero h = (75, refl)
nth-some (suc zero) h = (77, refl)
nth-some (suc (suc zero)) h = (71, refl)
nth-some (suc (suc (suc zero))) h = (84, refl)
nth-some (suc (suc (suc (suc zero)))) h = (80, refl)
nth-some (suc (suc (suc (suc (suc zero))))) h = (69, refl)
nth-some (suc (suc (suc (suc (suc (suc exp)))))) h = absurd (omega arith)

-- Every size below 2 ^ 63 is shown, with no index out of range: below 1024 as its number of bytes,
-- and else as its part of the power of 1024 that it is at least, and less than 1024 times of, with
-- the letter at the place of that power: K for 1024, M for its square, and so on up to E.
pub human_size_lem :
    (format_tenth : ℕ → ℕ → Text) (size : ℕ)
    → size < 2 ^ 63
    → ((size < 1024) × (human_size format_tenth size ≡ some (decimal size ++ codes " B")))
      ⊎ ((exp letter : ℕ) × (1024 ^ (exp + 1) ≤ size)
          × (size < 1024 ^ (exp + 1) * 1024)
          × (nth (codes "KMGTPE") exp ≡ some letter)
          × (human_size format_tenth size
              ≡ some
                  (format_tenth size (1024 ^ (exp + 1)) ++ (codes " " ++ (letter ∷ codes "iB")))))
unfolding human_size scaled_size with_unit
human_size_lem format_tenth size fits = elim (Bool-cases (ltb size 1024)) [
  | inl e ↦ inl (ltb→lt size 1024 e, rw e)
  | inr e ↦
      let (div, exp, scaled, power, small, le, lt) = scale1 size fits (ltb→le size 1024 e) in
      let (letter, there) = nth-some exp small in
      inr (
        exp,
        letter,
        subst (λ d. d ≤ size) power le,
        subst (λ d. size < d * 1024) power lt,
        there,
        subst
            (λ d.
              human_size format_tenth size
              ≡ some (format_tenth size d ++ (codes " " ++ (letter ∷ codes "iB"))))
            power
            (rw e (
              ap (scaled_size format_tenth size) scaled
              ∙ ap (with_unit (format_tenth size div)) there)),
      )
]
