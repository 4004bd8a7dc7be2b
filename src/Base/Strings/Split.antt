-- ===== src/Base/Strings/Split.antt =====
-- `strings.Split` and `strings.Join` at a separator of one character.
use Prim.Native.Nat.{ℕ}
use mathlib.Core.Path.{◌≡◌, refl}
use mathlib.Core.Logic.{◌≢◌}
use mathlib.Core.List.{List, [], ◌∷◌, ◌++◌}
use native.Mathlib.Omega.{arith}
use smtp_store.Base.Tests.{◌==◌, if◌then◌else◌}
use smtp_store.Base.Lists.{All}
use smtp_store.Base.Strings.{Text}

-- A character in front of the first part.
unfoldable pub put_first : ℕ → List Text → List Text
put_first c [] = (c ∷ []) ∷ []
put_first c (p ∷ ps) = (c ∷ p) ∷ ps

unfoldable pub split : ℕ → Text → List Text
unfolding put_first
split sep [] = [] ∷ []
split sep (c ∷ s) = let rest = split sep s in if c == sep then [] ∷ rest else put_first c rest

-- `strings.Join(parts, sep)`, the separator behind each part but the last.
unfoldable pub join : Text → List Text → Text
join sep [] = []
join sep (p ∷ []) = p
join sep (p ∷ q ∷ ps) = p ++ (sep ++ join sep (q ∷ ps))

-- The character does not occur.
abbrev pub Lacks : ℕ → Text → Type 0
Lacks b = All (λ c. c ≢ b)

module _ (sep : ℕ) where
  put_first-Lacks :
      (c : ℕ) (ps : List Text) → c ≢ sep → All (Lacks sep) ps → All (Lacks sep) (put_first c ps)
  unfolding put_first
  put_first-Lacks c [] h k = ((h, tt), tt)
  put_first-Lacks c (p ∷ ps) h k = ((h, k.0), k.1)

  -- No part holds the separator.
  pub split-Lacks : (s : Text) → All (Lacks sep) (split sep s)
  unfolding split
  split-Lacks [] = (tt, tt)
  split-Lacks (c ∷ s) = ground (arith, split-Lacks s, put_first-Lacks c (split sep s))

  pub split-ne-nil : (s : Text) → split sep s ≢ []
  unfolding split put_first
  split-ne-nil [] = cc
  split-ne-nil (c ∷ s) = ground arith

  join-put_first :
      (c : ℕ) (ps : List Text) → ps ≢ [] → join (sep ∷ []) (put_first c ps) ≡ c ∷ join (sep ∷ []) ps
  unfolding join put_first
  join-put_first c [] h = absurd (h refl)
  join-put_first c (p ∷ []) h = refl
  join-put_first c (p ∷ q ∷ ps) h = refl

  join-nil_first : (ps : List Text) → ps ≢ [] → join (sep ∷ []) ([] ∷ ps) ≡ sep ∷ join (sep ∷ []) ps
  unfolding join
  join-nil_first [] h = absurd (h refl)
  join-nil_first (p ∷ ps) h = refl

  -- Joining the parts gives the text back.
  pub join-split : (s : Text) → join (sep ∷ []) (split sep s) ≡ s
  unfolding split
  join-split [] = unfold join in refl
  join-split (c ∷ s) = ground (
    arith,
    join-split s,
    join-put_first c (split sep s) (split-ne-nil s),
    join-nil_first (split sep s) (split-ne-nil s),
  )
