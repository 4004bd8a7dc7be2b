-- ===== src/Classify/Category.antt =====
-- `normalizeCategory` and `hasCategory` of internal/classify/service.go.
use smtp_store.Base.{
  Bool, false, ◌||◌, List, [], ◌∷◌, ◌++◌, Text, codes, Unicode, contains, to_lower, trim_space,
  text_eq, if◌then◌else◌,
}
use smtp_store.Classify.{Detection}

abbrev pub person_keywords : List Text
person_keywords = codes "person" ∷ codes "human" ∷ codes "people" ∷ []

abbrev pub animal_keywords : List Text
animal_keywords =
    codes "animal"
    ∷ codes "fox"
    ∷ codes "cat"
    ∷ codes "dog"
    ∷ codes "deer"
    ∷ codes "bear"
    ∷ codes "bird"
    ∷ codes "raccoon"
    ∷ []

abbrev pub vehicle_keywords : List Text
vehicle_keywords =
    codes "vehicle"
    ∷ codes "car"
    ∷ codes "truck"
    ∷ codes "van"
    ∷ codes "suv"
    ∷ codes "bus"
    ∷ codes "motorcycle"
    ∷ codes "bicycle"
    ∷ codes "bike"
    ∷ []

unfoldable pub has_keyword : Text → List Text → Bool
has_keyword s [] = false
has_keyword s (k ∷ ks) = contains s k || has_keyword s ks

-- The loop over the three categories in their order.
unfoldable pub find_category : Text → List (Text × List Text) → Text
unfolding has_keyword
find_category combined [] = []
find_category combined ((name, keywords) ∷ rest) =
    let later = find_category combined rest in if has_keyword combined keywords then name else later

abbrev pub category_order : List (Text × List Text)
category_order =
    (codes "person", person_keywords)
    ∷ (codes "animal", animal_keywords)
    ∷ (codes "vehicle", vehicle_keywords)
    ∷ []

unfoldable pub has_category : {F : Type 0} → List (Detection F) → Text → Bool
has_category [] name = false
has_category (d ∷ ds) name = text_eq d.category name || has_category ds name

module _ ⦃u : Unicode⦄ where
  unfoldable pub normalize_category : Text → Text → Text
  unfolding find_category
  normalize_category category label =
      let combined = to_lower (trim_space (category ++ codes " " ++ label)) in
      if text_eq combined [] then [] else find_category combined category_order
