-- ===== src/Classify/Detections/Normal.antt =====
-- What `normalizeDetections` of internal/classify/service.go gives out.
use smtp_store.Base.{
  ◌≡◌, refl, Bool, true, false, List, [], ◌∷◌, ◌++◌, Text, codes, Unicode, All, text_eq, to_lower,
  trim_space, if◌then◌else◌,
}
use smtp_store.Base.Lists.Sorted.{IsSorted, sort_by-IsSorted, sort_by-All}
use smtp_store.Classify.{Detection, is_one_of}
use smtp_store.Classify.Category.{
  has_keyword, find_category, category_order, person_keywords, animal_keywords, vehicle_keywords,
  normalize_category,
}
use smtp_store.Classify.Detections.{
  Confidence, confidence_of, kept_detections, normalize_detections,
}

abbrev pub categories : List Text
categories = codes "person" ∷ codes "animal" ∷ codes "vehicle" ∷ []

-- What IEEE 754 says of `<` on numbers that are not NaN.
pub record IsOrder {F : Type 0} (f : Confidence F) : Type 0 where
  pub not_below_trans :
      (x y z : F) → f.below x y ≡ false → f.below y z ≡ false → f.below x z ≡ false
  pub below_asym : (x y : F) → f.below x y ≡ true → f.below y x ≡ false

abbrev pub greater : {F : Type 0} → Confidence F → Detection F → Detection F → Bool
greater f a b = f.below b.confidence a.confidence

by_keywords :
    (person animal vehicle : Bool)
    → text_eq
        (if person
          then codes "person"
          else if animal
          then codes "animal"
          else if vehicle
          then codes "vehicle"
          else [])
        []
      ≡ false
    → is_one_of
        (if person
          then codes "person"
          else if animal
          then codes "animal"
          else if vehicle
          then codes "vehicle"
          else [])
        categories
      ≡ true
unfolding is_one_of text_eq
by_keywords true animal vehicle h = refl
by_keywords false true vehicle h = refl
by_keywords false false true h = refl
by_keywords false false false h = cc

find_category-listed :
    (s : Text)
    → text_eq (find_category s category_order) [] ≡ false
    → is_one_of (find_category s category_order) categories ≡ true
unfolding find_category
find_category-listed s h =
    by_keywords (has_keyword s person_keywords) (has_keyword s animal_keywords)
      (has_keyword s vehicle_keywords) h

by_blank :
    (blank : Bool) (s : Text)
    → text_eq (if blank then [] else find_category s category_order) [] ≡ false
    → is_one_of (if blank then [] else find_category s category_order) categories ≡ true
by_blank true s h = unfold text_eq in cc
by_blank false s h = find_category-listed s h

module _ ⦃u : Unicode⦄ where
  normalize_category-listed :
      (category label : Text)
      → text_eq (normalize_category category label) [] ≡ false
      → is_one_of (normalize_category category label) categories ≡ true
  unfolding normalize_category
  normalize_category-listed category label h =
      by_blank (text_eq (to_lower (trim_space (category ++ codes " " ++ label))) [])
        (to_lower (trim_space (category ++ codes " " ++ label))) h

  module _ {F : Type 0} (f : Confidence F) (threshold : F) where
    -- One of the three categories, and no confidence below the threshold.
    abbrev pub IsKept : Detection F → Type 0
    IsKept d = (is_one_of d.category categories ≡ true) × (f.below d.confidence threshold ≡ false)

    by_tests :
        (low blank : Bool) (d : Detection F) (ds : List (Detection F))
        → f.below d.confidence threshold ≡ low
        → text_eq d.category [] ≡ blank
        → (text_eq d.category [] ≡ false → is_one_of d.category categories ≡ true)
        → All IsKept ds
        → All IsKept (if low then ds else if blank then ds else d ∷ ds)
    by_tests true blank d ds l b h k = k
    by_tests false true d ds l b h k = k
    by_tests false false d ds l b h k = ((h b, l), k)

    kept_detections-IsKept : (ds : List (Detection F)) → All IsKept (kept_detections f threshold ds)
    unfolding kept_detections
    kept_detections-IsKept [] = tt
    kept_detections-IsKept (d ∷ ds) =
        by_tests (f.below (confidence_of f threshold d.confidence) threshold)
          (text_eq (normalize_category d.category d.label) [])
          (record {
            category = normalize_category d.category d.label;
            label = trim_space (to_lower d.label);
            confidence = confidence_of f threshold d.confidence;
          })
          (kept_detections f threshold ds) refl refl (normalize_category-listed d.category d.label)
          (kept_detections-IsKept ds)

    -- For confidences that are ordered by `<`: of any detections those that are given out have one of
    -- the three categories each and a confidence that is not below the threshold, and no confidence is
    -- greater than one in front of it.
    pub normalize_detections-IsNormal :
        IsOrder f
        → (ds : List (Detection F))
        → All IsKept (normalize_detections f threshold ds)
          × IsSorted (greater f) (normalize_detections f threshold ds)
    unfolding normalize_detections
    normalize_detections-IsNormal order ds = (
      sort_by-All (greater f) IsKept (kept_detections f threshold ds) (kept_detections-IsKept ds),
      sort_by-IsSorted (greater f)
          (λ x y z h k. order.not_below_trans x.confidence y.confidence z.confidence h k)
          (λ x y h. order.below_asym y.confidence x.confidence h) (kept_detections f threshold ds),
    )
