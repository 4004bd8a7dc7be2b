-- ===== src/Classify/Detections.antt =====
-- `normalizeDetections` of internal/classify/service.go. What the code asks of float64 is a parameter.
pub mod Normal
use smtp_store.Base.{
  Bool, ◌&&◌, not, List, [], ◌∷◌, Text, Unicode, text_eq, to_lower, trim_space, if◌then◌else◌,
  sort_by,
}
use smtp_store.Classify.{Detection}
use smtp_store.Classify.Category.{normalize_category}

-- `x < y`, and the tests and the division that turn a percentage into a part of 1.
pub record Confidence (F : Type 0) : Type 0 where
  pub below : F → F → Bool
  pub is_percent : F → Bool
  pub part : F → F

module _ ⦃u : Unicode⦄ {F : Type 0} (f : Confidence F) (threshold : F) where
  unfoldable pub confidence_of : F → F
  confidence_of x = if f.is_percent x then f.part x else x

  -- The loop: a detection that is kept gets its category and its label in lower case.
  unfoldable pub kept_detections : List (Detection F) → List (Detection F)
  unfolding confidence_of
  kept_detections [] = []
  kept_detections (d ∷ ds) =
      let rest = kept_detections ds in
      let category = normalize_category d.category d.label in
      if f.below (confidence_of d.confidence) threshold
      then rest
      else if text_eq category []
      then rest
      else record {
        category = category;
        label = trim_space (to_lower d.label);
        confidence = confidence_of d.confidence;
      }
        ∷ rest

  -- Greater confidences first.
  unfoldable pub normalize_detections : List (Detection F) → List (Detection F)
  unfolding kept_detections
  normalize_detections ds = sort_by (λ a b. f.below b.confidence a.confidence) (kept_detections ds)
