-- ===== src/Base/Strings/Sort.antt =====
-- `sort.Strings`.
use mathlib.Core.Path.{◌≡◌}
use mathlib.Core.Bool.{true}
use mathlib.Core.List.{List, [], ◌∷◌, Perm}
use mathlib.Core.List.Perm
use smtp_store.Base.Tests.{if◌then◌else◌, Bool-cases}
use mathlib.Core.Logic.{inl, inr}
use smtp_store.Base.Lists.{All}
use smtp_store.Base.Strings.{Text, text_le}
use smtp_store.Base.Strings.Equality.{text_le_total, text_le_trans}

unfoldable pub insert_text : Text → List Text → List Text
insert_text s [] = s ∷ []
insert_text s (t ∷ ts) =
    let later = t ∷ insert_text s ts in if text_le s t then s ∷ t ∷ ts else later

unfoldable pub sort_texts : List Text → List Text
unfolding insert_text
sort_texts [] = []
sort_texts (s ∷ ts) = insert_text s (sort_texts ts)

-- Each text is at most those behind it.
abbrev pub IsSorted : List Text → Type 0
IsSorted [] = Unit
IsSorted (s ∷ ts) = All (λ t. text_le s t ≡ true) ts × IsSorted ts

All-le_trans :
    (s t : Text) (ts : List Text)
    → text_le s t ≡ true
    → All (λ r. text_le t r ≡ true) ts
    → All (λ r. text_le s r ≡ true) ts
All-le_trans s t [] h k = tt
All-le_trans s t (r ∷ ts) h (k, ks) = (text_le_trans s t r h k, All-le_trans s t ts h ks)

insert_text-All :
    (P : Text → Type 0) (s : Text) (ts : List Text) → P s → All P ts → All P (insert_text s ts)
unfolding insert_text
insert_text-All P s [] h k = (h, tt)
insert_text-All P s (t ∷ ts) h (k, ks) = elim (Bool-cases (text_le s t)) [
  | inl le ↦ rw le (h, (k, ks))
  | inr gt ↦ rw gt (k, insert_text-All P s ts h ks)
]

insert_text-IsSorted : (s : Text) (ts : List Text) → IsSorted ts → IsSorted (insert_text s ts)
unfolding insert_text
insert_text-IsSorted s [] h = (tt, tt)
insert_text-IsSorted s (t ∷ ts) (h, k) = elim (Bool-cases (text_le s t)) [
  | inl le ↦ rw le ((le, All-le_trans s t ts le h), (h, k))
  | inr gt ↦ rw gt (
    insert_text-All (λ r. text_le t r ≡ true) s ts (text_le_total s t gt) h,
    insert_text-IsSorted s ts k,
  )
]

pub sort_texts-IsSorted : (ts : List Text) → IsSorted (sort_texts ts)
unfolding sort_texts
sort_texts-IsSorted [] = tt
sort_texts-IsSorted (s ∷ ts) = insert_text-IsSorted s (sort_texts ts) (sort_texts-IsSorted ts)

insert_text-perm : (s : Text) (ts : List Text) → Perm (insert_text s ts) (s ∷ ts)
unfolding insert_text
insert_text-perm s [] = Perm.refl _
insert_text-perm s (t ∷ ts) = elim (Bool-cases (text_le s t)) [
  | inl le ↦ rw le (Perm.refl (s ∷ t ∷ ts))
  | inr gt ↦ rw gt (Perm.trans (Perm.cons t (insert_text-perm s ts)) (Perm.swap s t ts))
]

pub sort_texts-perm : (ts : List Text) → Perm (sort_texts ts) ts
unfolding sort_texts
sort_texts-perm [] = Perm.refl _
sort_texts-perm (s ∷ ts) =
    Perm.trans (insert_text-perm s (sort_texts ts)) (Perm.cons s (sort_texts-perm ts))

pub sort_texts-All : (P : Text → Type 0) (ts : List Text) → All P ts → All P (sort_texts ts)
unfolding sort_texts
sort_texts-All P [] h = tt
sort_texts-All P (s ∷ ts) (h, k) = insert_text-All P s (sort_texts ts) h (sort_texts-All P ts k)
