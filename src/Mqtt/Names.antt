-- ===== src/Mqtt/Names.antt =====
-- The names that internal/mqttnotify/publisher.go makes of settings and paths: `topic`,
-- `sanitizeTopicPart`, `sanitizeObjectID`, `cameraNameFromRelativePath`, `eventType`, `escapePath`.
-- `url.PathEscape` is a parameter.
pub mod Events
use smtp_store.Base.{
  ℕ, Bool, true, false, not, ◌&&◌, ◌||◌, List, [], ◌∷◌, ◌++◌, map, Text, codes, Unicode, text_eq,
  elem, trim, trim_space, to_lower, leb, ◌==◌, if◌then◌else◌,
}
use smtp_store.Base.Strings.Split.{split, join}
use smtp_store.Base.Strings.FilePath.{slash, join_path}
use smtp_store.Classify.{Detection}

abbrev pub is_slash : ℕ → Bool
is_slash c = c == slash

unfoldable pub topic_parts : List Text → List Text
topic_parts [] = []
topic_parts (p ∷ ps) =
    let rest = topic_parts ps in
    let part = trim is_slash p in if text_eq part [] then rest else part ∷ rest

-- `topic`.
unfoldable pub topic : List Text → Text
unfolding topic_parts
topic parts = join_path (topic_parts parts)

unfoldable pub topic_rune : ℕ → ℕ
topic_rune c = if c == b'/' || c == b'+' || c == b'#' || c == b' ' then b'_' else c

unfoldable pub is_object_rune : ℕ → Bool
is_object_rune c = (leb b'a' c && leb c b'z') || (leb b'0' c && leb c b'9') || c == b'_'

-- `objectIDRe.ReplaceAllString(value, "_")`: each run of other characters becomes one underscore; the
-- flag says that the character before was replaced.
unfoldable pub replace_runs : Bool → Text → Text
unfolding is_object_rune
replace_runs inside [] = []
replace_runs inside (c ∷ s) =
    let kept = c ∷ replace_runs false s in
    let again = replace_runs true s in
    let first = b'_' ∷ again in if is_object_rune c then kept else if inside then again else first

abbrev pub or_unknown : Text → Text
or_unknown [] = codes "unknown"
or_unknown (c ∷ s) = c ∷ s

abbrev pub is_underscore : ℕ → Bool
is_underscore c = c == b'_'

unfoldable pub first_part : List Text → Text
first_part [] = []
first_part (p ∷ ps) = p

unfoldable pub escape_path : (Text → Text) → Text → Text
escape_path path_escape rel = join (slash ∷ []) (map path_escape (split slash (trim is_slash rel)))

abbrev pub seen_part : Bool → Text → List Text
seen_part true name = name ∷ []
seen_part false name = []

abbrev pub joined_or_none : List Text → Text
joined_or_none [] = codes "none"
joined_or_none (p ∷ ps) = join (codes "_") (p ∷ ps)

-- The name of an event with these categories.
unfoldable pub event_name : Bool → Bool → Bool → Text
event_name person animal vehicle = joined_or_none (
    seen_part person (codes "person")
    ++ (seen_part animal (codes "animal") ++ seen_part vehicle (codes "vehicle")))

module _ ⦃u : Unicode⦄ where
  unfoldable pub sanitize_topic_part : Text → Text
  unfolding topic_rune
  sanitize_topic_part value = or_unknown (map topic_rune (to_lower (trim_space value)))

  unfoldable pub sanitize_object_id : Text → Text
  unfolding replace_runs
  sanitize_object_id value =
      or_unknown (trim is_underscore (replace_runs false (to_lower (trim_space value))))

  unfoldable pub camera_name_from_relative_path : Text → Text
  unfolding first_part
  camera_name_from_relative_path rel =
      let first = first_part (split slash (trim is_slash (trim_space rel))) in
      if text_eq first [] then codes "unknown" else to_lower first

  module _ {F : Type 0} where
    -- Whether a detection has a category, but for case and outer space.
    unfoldable pub sees : Text → List (Detection F) → Bool
    sees name [] = false
    sees name (d ∷ ds) = text_eq (to_lower (trim_space d.category)) name || sees name ds

    -- `eventType`.
    unfoldable pub event_type : List (Detection F) → Text
    unfolding sees event_name
    event_type ds =
        event_name (sees (codes "person") ds) (sees (codes "animal") ds) (sees (codes "vehicle") ds)
