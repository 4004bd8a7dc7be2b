-- ===== src/Classify/Laws.antt =====
-- What a category that `normalizeCategory` chooses says of the words of a detection.
use smtp_store.Base.{
  ◌≡◌, refl, ◌⊎◌, inl, inr, Bool, true, false, [], ◌∷◌, ◌++◌, Text, text_eq, contains, has_prefix,
  codes, Unicode, to_lower, trim_space, if◌then◌else◌,
}
use smtp_store.Classify.Category.{
  has_keyword, find_category, category_order, person_keywords, animal_keywords, vehicle_keywords,
  normalize_category,
}

-- The category is the first of the three that has a keyword in the text, or it is empty and none of
-- the three has one.
abbrev pub IsChosen : Text → Text → Type 0
IsChosen s category =
    ((category ≡ codes "person") × (has_keyword s person_keywords ≡ true))
    ⊎ (((category ≡ codes "animal")
          × (has_keyword s person_keywords ≡ false)
          × (has_keyword s animal_keywords ≡ true))
        ⊎ (((category ≡ codes "vehicle")
              × (has_keyword s person_keywords ≡ false)
              × (has_keyword s animal_keywords ≡ false)
              × (has_keyword s vehicle_keywords ≡ true))
            ⊎ ((category ≡ [])
                × (has_keyword s person_keywords ≡ false)
                × (has_keyword s animal_keywords ≡ false)
                × (has_keyword s vehicle_keywords ≡ false))))

first_of_three :
    (s : Text) (person animal vehicle : Bool)
    → has_keyword s person_keywords ≡ person
    → has_keyword s animal_keywords ≡ animal
    → has_keyword s vehicle_keywords ≡ vehicle
    → IsChosen s (
        if person
        then codes "person"
        else if animal
        then codes "animal"
        else if vehicle
        then codes "vehicle"
        else [])
first_of_three s true animal vehicle p a v = inl (refl, p)
first_of_three s false true vehicle p a v = inr (inl (refl, p, a))
first_of_three s false false true p a v = inr (inr (inl (refl, p, a, v)))
first_of_three s false false false p a v = inr (inr (inr (refl, p, a, v)))

find_category-IsChosen : (s : Text) → IsChosen s (find_category s category_order)
unfolding find_category
find_category-IsChosen s = first_of_three s _ _ _ refl refl refl

blank-IsChosen :
    (s : Text) (b : Bool)
    → text_eq s [] ≡ b
    → IsChosen s (if b then [] else find_category s category_order)
unfolding has_keyword text_eq contains has_prefix
blank-IsChosen [] true h = inr (inr (inr (refl, refl, refl, refl)))
blank-IsChosen (c ∷ s) true h = cc
blank-IsChosen s false h = find_category-IsChosen s

module _ ⦃u : Unicode⦄ where
  -- A detection is counted as a person where its category and label, in lower case, hold a keyword of
  -- persons, as an animal where they hold one of animals and none of persons, and as a vehicle where
  -- they hold one of vehicles and none of the other two; it has no category where they hold none of
  -- the three.
  pub normalize_category-IsChosen :
      (category label : Text)
      → IsChosen
          (to_lower (trim_space (category ++ codes " " ++ label)))
          (normalize_category category label)
  unfolding normalize_category
  normalize_category-IsChosen category label =
      let s = to_lower (trim_space (category ++ codes " " ++ label)) in
      blank-IsChosen s (text_eq s []) refl
