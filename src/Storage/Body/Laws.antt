-- ===== src/Storage/Body/Laws.antt =====
-- The names that the loop tries are distinct, so it ends; and it overwrites no file.
use mathlib.Core.List.{append_cancel_left, append_cancel_right}
use smtp_store.Base.{
  ℕ, zero, suc, ◌+◌, ◌≤◌, ◌<◌, ◌≡◌, ◌≢◌, refl, sym, ap, ◌∙◌, none, some, [], ◌∷◌, ◌++◌, inl, inr,
  arith, Text, codes, ltb, length, length-append, Bool-cases, Option-cases, All, All-append,
}
use smtp_store.Base.Strings.Equality.{text_eq_iff}
use smtp_store.Base.Strings.Split.{Lacks}
use smtp_store.Base.Strings.Decimal.{decimal, decimal-injective, decimal-IsDecimal, IsDecimal}
use smtp_store.Base.Strings.FilePath.{slash, last_element}
use smtp_store.Base.Strings.FilePath.Plain.{IsPlain, last_element-join_path}
use smtp_store.Base.Dict.{Dict, lookup, erase, lookup-erase, length-erase_present}
use smtp_store.Base.Os.{Faults}
use smtp_store.Storage.Body.{
  Disk, candidate, body_path, round, open_new, write_body_from, write_body, body_fuel,
}

IsDecimal-Lacks : (s : Text) → All IsDecimal s → Lacks slash s
IsDecimal-Lacks [] h = tt
IsDecimal-Lacks (c ∷ s) (h, k) = (omega arith, IsDecimal-Lacks s k)

candidate-Lacks : (ts : Text) (k : ℕ) → Lacks slash ts → Lacks slash (candidate ts k)
unfolding candidate
candidate-Lacks ts k h = elim (Bool-cases (ltb 1 k)) [
  | inl later ↦ rw later (
      All-append (λ c. c ≢ slash) (ts ++ codes "-") (decimal k)
        (All-append (λ c. c ≢ slash) ts (codes "-") h (omega arith))
        (IsDecimal-Lacks (decimal k) (decimal-IsDecimal k)))
  | inr first ↦ rw first h
]

txt-IsPlain : (s : Text) → Lacks slash s → IsPlain (s ++ codes ".txt")
txt-IsPlain s h = record {
  non_empty = λ e. omega (arith, ap length e, length-append s (codes ".txt"));
  one_element = All-append (λ c. c ≢ slash) s (codes ".txt") h (omega arith);
  not_dot = λ e. omega (arith, ap length e, length-append s (codes ".txt"));
  not_dots = λ e. omega (arith, ap length e, length-append s (codes ".txt"));
}

candidate-injective :
    (ts : Text) (j k : ℕ) → 1 ≤ j → 1 ≤ k → candidate ts j ≡ candidate ts k → j ≡ k
unfolding candidate
candidate-injective ts j k hj hk e = ground (
  arith,
  ap length e,
  length-append (ts ++ codes "-") (decimal j),
  length-append (ts ++ codes "-") (decimal k),
  length-append ts (codes "-"),
  decimal-injective j k,
  cancel,
)
  where
    cancel : (ts ++ codes "-") ++ decimal j ≡ (ts ++ codes "-") ++ decimal k → decimal j ≡ decimal k
    cancel = append_cancel_left (ts ++ codes "-") _ _

-- Two attempts never try the same path.
body_path-injective :
    (dir ts : Text) (j k : ℕ)
    → Lacks slash ts
    → 1 ≤ j
    → 1 ≤ k
    → body_path dir ts j ≡ body_path dir ts k
    → j ≡ k
unfolding body_path
body_path-injective dir ts j k h hj hk e =
    candidate-injective ts j k hj hk (append_cancel_right _ _ (codes ".txt") same)
  where
    name : ℕ → Text
    name i = candidate ts i ++ codes ".txt"

    same : name j ≡ name k
    same =
        sym (last_element-join_path dir (name j) (txt-IsPlain _ (candidate-Lacks ts j h)))
        ∙ (ap last_element e
            ∙ last_element-join_path dir (name k) (txt-IsPlain _ (candidate-Lacks ts k h)))

module _ (dir ts body : Text) (plain : Lacks slash ts) where
  abbrev path : ℕ → Text
  path = body_path dir ts

  -- `left` holds the files whose names the loop can still meet.
  abbrev Left : Dict Text → Dict Text → ℕ → Type 0
  Left left files attempt = (j : ℕ) → attempt ≤ j → lookup (path j) left ≡ lookup (path j) files

  Left-next :
      (left files : Dict Text) (attempt : ℕ)
      → 1 ≤ attempt
      → Left left files attempt
      → Left (erase (path attempt) left) files (attempt + 1)
  Left-next left files attempt one keep j h = ground (
    arith,
    lookup-erase (path attempt) (path j) left,
    keep j,
    text_eq_iff (path attempt) (path j),
    body_path-injective dir ts attempt j plain one,
  )

  Left-taken :
      (left files : Dict Text) (attempt : ℕ) (c : Text)
      → Left left files attempt
      → lookup (path attempt) files ≡ some c
      → lookup (path attempt) left ≢ none
  Left-taken left files attempt c keep there = ground (arith, keep attempt (omega arith))

  write_body_from-ne-none :
      (fuel attempt : ℕ) (files : Dict Text) (faults : Faults) (left : Dict Text)
      → 1 ≤ attempt
      → Left left files attempt
      → length left + length faults < fuel
      → write_body_from fuel attempt dir ts body (record { files = files; faults = faults }) ≢ none
  unfolding write_body_from round open_new
  write_body_from-ne-none zero attempt files faults left one keep h = absurd (omega arith)
  write_body_from-ne-none (suc fuel) attempt files (some f ∷ faults) left one keep h = ground (
    arith,
    write_body_from-ne-none fuel (attempt + 1) files faults left (omega arith)
        (λ j le. keep j (omega arith)) (omega arith),
  )
  write_body_from-ne-none (suc fuel) attempt files (none ∷ faults) left one keep h =
      elim (Option-cases (lookup (path attempt) files)) [
        | inl absent ↦ ground arith
        | inr (c, there) ↦ ground (
          arith,
          write_body_from-ne-none fuel (attempt + 1) files faults (erase (path attempt) left)
              (omega arith) (Left-next left files attempt one keep)
              (omega (
                arith,
                length-erase_present (path attempt) left
                    (Left-taken left files attempt c keep there),
              )),
        )
      ]
  write_body_from-ne-none (suc fuel) attempt files [] left one keep h =
      elim (Option-cases (lookup (path attempt) files)) [
        | inl absent ↦ ground arith
        | inr (c, there) ↦ ground (
          arith,
          write_body_from-ne-none fuel (attempt + 1) files [] (erase (path attempt) left)
              (omega arith) (Left-next left files attempt one keep)
              (omega (
                arith,
                length-erase_present (path attempt) left
                    (Left-taken left files attempt c keep there),
              )),
        )
      ]

-- The loop ends: with a fuel above the number of files and faults it returns a result.
pub write_body-ne-none :
    (dir ts body : Text) (d : Disk) → Lacks slash ts → write_body dir ts body d ≢ none
unfolding write_body
write_body-ne-none dir ts body d plain =
    write_body_from-ne-none dir ts body plain (body_fuel d) 1 d.files d.faults d.files (omega arith)
      (λ j h. refl) (omega arith)
