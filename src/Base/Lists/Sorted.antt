-- ===== src/Base/Lists/Sorted.antt =====
-- Sorting by a test, and taking the first items.
use Prim.Native.Nat.{ℕ, zero, suc, ◌≤◌}
use mathlib.Core.Path.{◌≡◌, refl, ap}
use mathlib.Core.Logic.{◌⊎◌, inl, inr}
use mathlib.Core.Bool.{Bool, true, false}
use mathlib.Core.List.{List, [], ◌∷◌, ◌++◌, Perm}
use mathlib.Core.List.Perm
use native.Mathlib.Omega.{arith}
use smtp_store.Base.Tests.{Bool-cases}
use smtp_store.Base.Lists.{length, take, All, insert_by, sort_by}

module _ {ℓ} {A : Type ℓ} (before : A → A → Bool) where
  -- No item comes before one that stands in front of it.
  abbrev pub IsSorted : List A → Type 0
  IsSorted [] = Unit
  IsSorted (x ∷ xs) = All (λ y. before y x ≡ false) xs × IsSorted xs

  insert_by-All :
      (P : A → Type 0) (x : A) (xs : List A) → P x → All P xs → All P (insert_by before x xs)
  unfolding insert_by
  insert_by-All P x [] h k = (h, tt)
  insert_by-All P x (y ∷ ys) h (k, ks) = elim (Bool-cases (before y x)) [
    | inl e ↦ rw e (k, insert_by-All P x ys h ks)
    | inr e ↦ rw e (h, (k, ks))
  ]

  pub sort_by-All : (P : A → Type 0) (xs : List A) → All P xs → All P (sort_by before xs)
  unfolding sort_by
  sort_by-All P [] h = tt
  sort_by-All P (x ∷ xs) (h, hs) = insert_by-All P x (sort_by before xs) h (sort_by-All P xs hs)

  insert_by-perm : (x : A) (xs : List A) → Perm (insert_by before x xs) (x ∷ xs)
  unfolding insert_by
  insert_by-perm x [] = Perm.refl _
  insert_by-perm x (y ∷ ys) = elim (Bool-cases (before y x)) [
    | inl e ↦ rw e (Perm.trans (Perm.cons y (insert_by-perm x ys)) (Perm.swap _ _ _))
    | inr e ↦ rw e (Perm.refl _)
  ]

  pub sort_by-perm : (xs : List A) → Perm (sort_by before xs) xs
  unfolding sort_by
  sort_by-perm [] = Perm.refl _
  sort_by-perm (x ∷ xs) =
      Perm.trans (insert_by-perm x (sort_by before xs)) (Perm.cons x (sort_by-perm xs))

  module _ (trans : (x y z : A) → before y x ≡ false → before z y ≡ false → before z x ≡ false)
      (asym : (x y : A) → before x y ≡ true → before y x ≡ false) where
    All-behind :
        (x y : A) (ys : List A)
        → before y x ≡ false
        → All (λ z. before z y ≡ false) ys
        → All (λ z. before z x ≡ false) ys
    All-behind x y [] h k = tt
    All-behind x y (z ∷ zs) h (k, ks) = (trans x y z h k, All-behind x y zs h ks)

    insert_by-IsSorted : (x : A) (xs : List A) → IsSorted xs → IsSorted (insert_by before x xs)
    unfolding insert_by
    insert_by-IsSorted x [] h = (tt, tt)
    insert_by-IsSorted x (y ∷ ys) (h, hs) = elim (Bool-cases (before y x)) [
      | inl e ↦
          rw e (
            insert_by-All (λ z. before z y ≡ false) x ys (asym y x e) h,
            insert_by-IsSorted x ys hs,
          )
      | inr e ↦ rw e ((e, All-behind x y ys e h), (h, hs))
    ]

    pub sort_by-IsSorted : (xs : List A) → IsSorted (sort_by before xs)
    unfolding sort_by
    sort_by-IsSorted [] = tt
    sort_by-IsSorted (x ∷ xs) = insert_by-IsSorted x (sort_by before xs) (sort_by-IsSorted xs)

module _ {ℓ} {A : Type ℓ} where
  -- The first `n` items, and the others: there are others only if the first are `n`.
  pub take-split :
      (n : ℕ) (xs : List A)
      → (rest : List A) × (xs ≡ take n xs ++ rest)
        × (length (take n xs) ≤ n)
        × ((rest ≡ []) ⊎ (length (take n xs) ≡ n))
  take-split zero xs = (xs, refl, omega arith, inr refl)
  take-split (suc n) [] = ([], refl, omega arith, inl refl)
  take-split (suc n) (x ∷ xs) =
      let (rest, e, le, full) = take-split n xs in
      (
        rest,
        ap (λ ys. x ∷ ys) e,
        omega (arith, le),
        elim full [ inl h ↦ inl h | inr h ↦ inr (omega (arith, h)) ],
      )
