-- ===== src/Classify.antt =====
-- internal/classify: the classification of stored videos. This file is its types (types.go) with the
-- predicates on paths and the status that the web interface shows. `F` is the type of a confidence.
pub mod Category
pub mod Queue
pub mod Detections
pub mod Process
pub mod Laws
mod Tests
use smtp_store.Base.{
  ℕ, Bool, true, false, ◌||◌, Option, none, some, List, [], ◌∷◌, ◌++◌, Text, codes, Unicode,
  text_eq, to_lower, has_suffix, if◌then◌else◌,
}
use smtp_store.Base.Int.{ℤ}
use smtp_store.Base.Strings.FilePath.{ext}

pub record Detection (F : Type 0) : Type 0 where
  pub category : Text
  pub label : Text
  pub confidence : F

pub record Sidecar (F : Type 0) : Type 0 where
  pub schema_version : ℤ
  pub relative_path : Text
  pub file_size : ℤ
  pub file_mod_time : Text
  pub state : Text
  pub provider : Text
  pub model : Text
  pub attempts : ℤ
  pub updated_at : Text
  pub last_error : Text
  pub detections : List (Detection F)
  pub has_person : Bool
  pub has_animal : Bool
  pub has_vehicle : Bool
  pub thumbnail_path : Text
  pub mqtt_published_at : Text
  pub mqtt_last_error : Text
  pub raw_response : Text

unfoldable pub sidecar_path : Text → Text
sidecar_path video_path = video_path ++ codes ".detections.json"

abbrev pub video_extensions : List Text
video_extensions =
    codes ".mp4"
    ∷ codes ".m4v"
    ∷ codes ".mov"
    ∷ codes ".avi"
    ∷ codes ".mkv"
    ∷ codes ".webm"
    ∷ codes ".mpg"
    ∷ codes ".mpeg"
    ∷ codes ".3gp"
    ∷ codes ".wmv"
    ∷ codes ".ts"
    ∷ []

unfoldable pub is_one_of : Text → List Text → Bool
is_one_of s [] = false
is_one_of s (t ∷ ts) = text_eq s t || is_one_of s ts

-- The status of a sidecar by its state; an unknown state counts as pending.
unfoldable pub status_of_state : Text → Bool → Text
status_of_state state detected =
    if text_eq state (codes "failed")
    then codes "failed"
    else if text_eq state (codes "skipped")
    then codes "skipped"
    else if text_eq state (codes "success")
    then if detected then codes "detected" else codes "none"
    else codes "pending"

unfoldable pub detection_status : {F : Type 0} → Option (Sidecar F) → Text
unfolding status_of_state
detection_status none = codes "pending"
detection_status (some s) =
    status_of_state s.state (s.has_person || (s.has_animal || s.has_vehicle))

module _ ⦃u : Unicode⦄ where
  unfoldable pub is_video_path : Text → Bool
  unfolding is_one_of
  is_video_path path = is_one_of (to_lower (ext path)) video_extensions

  unfoldable pub is_detection_sidecar_path : Text → Bool
  is_detection_sidecar_path path = has_suffix (to_lower path) (codes ".detections.json")
