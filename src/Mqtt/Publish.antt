-- ===== src/Mqtt/Publish.antt =====
-- What internal/mqttnotify/publisher.go publishes, and in which order. The broker answers each call by
-- a script and keeps the messages that it took; after the script every call succeeds. `json.Marshal`
-- and the URL package are parameters.
pub mod Order
pub mod Types
use smtp_store.Base.{
  ℕ, Bool, true, false, not, ◌||◌, Option, none, some, List, [], ◌∷◌, ◌++◌, Text, codes, Unicode,
  text_eq, is_blank, trim, to_lower, trim_space, if◌then◌else◌,
}
use smtp_store.Base.Int.{ℤ}
use smtp_store.Base.Dict.{Dict}
use smtp_store.Base.Os.{Error, Outcome, ok, err, new_error}
use smtp_store.Classify.{Detection, Sidecar, is_one_of}
use smtp_store.Mqtt.Names.{is_slash, topic, escape_path, event_type, camera_name_from_relative_path}
use smtp_store.Mqtt.Cameras.{Camera, Publisher, normal_name, camera_for_name}

pub record Message : Type 0 where
  pub to : Text
  pub qos : ℕ
  pub retained : Bool
  pub payload : Text

pub data Answer : Type 0 where
  published : Answer
  not_connected : Answer
  refused : Error → Answer

pub record Broker : Type 0 where
  pub answers : List Answer
  pub sent : List Message

-- The values of the JSON documents.
pub data Leaf (F : Type 0) : Type 0 where
  string : Text → Leaf F
  strings : List Text → Leaf F
  number : ℕ → Leaf F
  integer : ℤ → Leaf F
  boolean : Bool → Leaf F
  found : List (Detection F) → Leaf F

pub data Value (F : Type 0) : Type 0 where
  leaf : Leaf F → Value F
  object : Dict (Leaf F) → Value F
  objects : List (Dict (Leaf F)) → Value F

pub record Library (F : Type 0) : Type 0 where
  pub marshal : Dict (Value F) → Outcome Text
  pub path_escape : Text → Text
  -- `url.Parse`, and the parameter `token` set in its query; `none` is a URL that does not parse.
  pub with_token : Text → Text → Option Text

unfoldable pub deliver : List Answer → Message → Broker → Option Error × Broker
deliver [] m b = (none, record b { sent = b.sent ++ m ∷ [] })
deliver (published ∷ rest) m b = (none, record b { answers = rest; sent = b.sent ++ m ∷ [] })
deliver (not_connected ∷ rest) m b =
    (some (new_error (codes "mqtt client is not connected")), record b { answers = rest })
deliver (refused e ∷ rest) m b = (some e, record b { answers = rest })

unfoldable pub message : Publisher → Text → Bool → Text → Message
message p to retained payload = record {
  to = to;
  qos = p.qos;
  retained = retained;
  payload = payload;
}

-- `publish`.
unfoldable pub publish : Publisher → Text → Bool → Text → Broker → Option Error × Broker
unfolding deliver message
publish p to retained payload b = deliver b.answers (message p to retained payload) b

-- A step, and the rest of the function if it had no error.
unfoldable pub then_do :
    (Broker → Option Error × Broker) → Option Error × Broker → Option Error × Broker
then_do next (none, b) = next b
then_do next (some e, b) = (some e, b)

unfoldable pub publish_encoded :
    Publisher → Text → Bool → Outcome Text → Broker → Option Error × Broker
unfolding publish
publish_encoded p to retained (ok payload) b = publish p to retained payload b
publish_encoded p to retained (err e) b = (some e, b)

abbrev pub on : Text
on = codes "ON"

abbrev pub off : Text
off = codes "OFF"

unfoldable pub status_topic : Publisher → Text
status_topic p = topic (p.topic_prefix ∷ codes "status" ∷ [])

unfoldable pub event_topic : Publisher → Camera → Text
event_topic p camera = topic (p.topic_prefix ∷ camera.topic_id ∷ codes "event" ∷ [])

unfoldable pub motion_topic : Publisher → Camera → Text
motion_topic p camera =
    topic (p.topic_prefix ∷ camera.topic_id ∷ codes "motion" ∷ codes "state" ∷ [])

-- The types of event that discovery announces.
abbrev pub event_types : List Text
event_types =
    codes "person"
    ∷ codes "animal"
    ∷ codes "vehicle"
    ∷ codes "person_animal"
    ∷ codes "person_vehicle"
    ∷ codes "animal_vehicle"
    ∷ codes "person_animal_vehicle"
    ∷ []

unfoldable pub unique_id : Camera → Text → Text
unique_id camera suffix = codes "smtp_store_" ++ (camera.object_id ++ suffix)

module _ {F : Type 0} (lib : Library F) where
  unfoldable pub device : Camera → Dict (Leaf F)
  unfolding unique_id
  device camera =
      (codes "identifiers", strings (unique_id camera [] ∷ []))
      ∷ (codes "name", string (codes "SMTP Store " ++ camera.name))
      ∷ (codes "manufacturer", string (codes "smtp-store"))
      ∷ (codes "model", string (codes "SMTP camera capture"))
      ∷ []

  -- The fields that both discovery documents share.
  unfoldable pub common : Publisher → Camera → Dict (Value F)
  unfolding device status_topic
  common p camera =
      (codes "device", object (device camera))
      ∷ (codes "availability", objects (((codes "topic", string (status_topic p)) ∷ []) ∷ []))
      ∷ (codes "payload_available", leaf (string (codes "online")))
      ∷ (codes "payload_not_available", leaf (string (codes "offline")))
      ∷ (codes "qos", leaf (number p.qos))
      ∷ []

  unfoldable pub event_config : Publisher → Camera → Dict (Value F)
  unfolding common event_topic
  event_config p camera =
      (codes "name", leaf (string (camera.name ++ codes " event")))
      ∷ (codes "unique_id", leaf (string (unique_id camera (codes "_event"))))
      ∷ (codes "state_topic", leaf (string (event_topic p camera)))
      ∷ (codes "event_types", leaf (strings event_types))
      ∷ common p camera

  unfoldable pub motion_config : Publisher → Camera → Dict (Value F)
  unfolding common motion_topic
  motion_config p camera =
      (codes "name", leaf (string (camera.name ++ codes " motion")))
      ∷ (codes "unique_id", leaf (string (unique_id camera (codes "_motion"))))
      ∷ (codes "state_topic", leaf (string (motion_topic p camera)))
      ∷ (codes "device_class", leaf (string (codes "motion")))
      ∷ (codes "payload_on", leaf (string on))
      ∷ (codes "payload_off", leaf (string off))
      ∷ common p camera

  -- `publishJSON`.
  unfoldable pub publish_json :
      Publisher → Text → Bool → Dict (Value F) → Broker → Option Error × Broker
  unfolding publish_encoded
  publish_json p to retained document b = publish_encoded p to retained (lib.marshal document) b

  -- `publishDiscoveryForCamera`.
  unfoldable pub publish_discovery_for_camera : Publisher → Camera → Broker → Option Error × Broker
  unfolding publish_json then_do
  publish_discovery_for_camera p camera b =
      then_do
        (publish_json p
          (topic (
            p.discovery_prefix
            ∷ codes "binary_sensor"
            ∷ unique_id camera (codes "_motion")
            ∷ codes "config"
            ∷ []))
          true (motion_config p camera))
        (publish_json p
          (topic (p.discovery_prefix ∷ codes "event" ∷ unique_id camera [] ∷ codes "config" ∷ []))
          true (event_config p camera) b)

  -- `PublishDiscovery`.
  unfoldable pub publish_discovery : Publisher → List Camera → Broker → Option Error × Broker
  unfolding publish_discovery_for_camera publish
  publish_discovery p [] b = (none, b)
  publish_discovery p (camera ∷ cameras) b = then_do (publish_discovery p cameras) (
      then_do (publish p (motion_topic p camera) true off)
        (publish_discovery_for_camera p camera b))

  -- `Start`, after the answer to `Connect`.
  unfoldable pub start : Publisher → Option Error × Broker → Option Error × Broker
  unfolding publish_discovery
  start p connected =
      then_do (publish_discovery p p.cameras)
        (then_do (publish p (status_topic p) true (codes "online")) connected)

-- What the goroutine of `Start` publishes when the context is done.
unfoldable pub stop : Publisher → Broker → Option Error × Broker
unfolding publish status_topic
stop p b = publish p (status_topic p) true (codes "offline") b

-- `resetMotion` when its timer fires; when the context is done first, nothing is published.
unfoldable pub reset_motion : Publisher → Camera → Broker → Option Error × Broker
unfolding publish motion_topic
reset_motion p camera b = publish p (motion_topic p camera) true off b

abbrev pub or_empty : Option Text → Text
or_empty none = []
or_empty (some url) = url

unfoldable pub announce : Publisher → Camera → Outcome Text → Broker → Option Error × Broker
unfolding publish_encoded then_do
announce p camera payload b =
    then_do (publish p (motion_topic p camera) true on)
      (publish_encoded p (event_topic p camera) false payload b)

module _ ⦃u : Unicode⦄ {F : Type 0} where
  -- `shouldNotify`.
  unfoldable pub should_notify : List Text → List (Detection F) → Bool
  should_notify categories [] = false
  should_notify categories (d ∷ ds) =
      is_one_of (normal_name d.category) categories || should_notify categories ds

  unfoldable pub file_url : Library F → Publisher → Text → Text → Text
  file_url lib p route rel =
      if text_eq p.public_base_url [] || is_blank rel
      then []
      else p.public_base_url
        ++ (codes "/" ++ (trim is_slash route ++ (codes "/" ++ escape_path lib.path_escape rel)))

  unfoldable pub thumbnail_url : Library F → Publisher → Text → Text
  thumbnail_url lib p rel =
      if text_eq p.public_base_url [] || (is_blank rel || text_eq p.media_token [])
      then []
      else or_empty (
          lib.with_token (p.public_base_url ++ (codes "/media/" ++ escape_path lib.path_escape rel))
            p.media_token)

  -- The fields of an event.
  unfoldable pub event_payload : Library F → Publisher → Camera → Sidecar F → Dict (Value F)
  unfolding file_url thumbnail_url
  event_payload lib p camera s =
      (codes "event_type", leaf (string (event_type s.detections)))
      ∷ (codes "camera", leaf (string camera.name))
      ∷ (codes "relative_path", leaf (string s.relative_path))
      ∷ (codes "video_url", leaf (string (file_url lib p (codes "view") s.relative_path)))
      ∷ (codes "thumbnail_url", leaf (string (thumbnail_url lib p s.thumbnail_path)))
      ∷ (codes "has_person", leaf (boolean s.has_person))
      ∷ (codes "has_animal", leaf (boolean s.has_animal))
      ∷ (codes "has_vehicle", leaf (boolean s.has_vehicle))
      ∷ (codes "detections", leaf (found s.detections))
      ∷ (codes "classified_at", leaf (string s.updated_at))
      ∷ (codes "provider", leaf (string s.provider))
      ∷ (codes "model", leaf (string s.model))
      ∷ (codes "schema_version", leaf (integer s.schema_version))
      ∷ []

  unfoldable pub camera_of : Publisher → Sidecar F → Camera
  unfolding camera_for_name
  camera_of p s = camera_for_name p (camera_name_from_relative_path s.relative_path)

  -- `PublishClassification`; the reset of the motion state starts when it returns without an error.
  unfoldable pub publish_classification :
      Library F → Publisher → Sidecar F → Broker → Option Error × Broker
  unfolding should_notify announce event_payload camera_of
  publish_classification lib p s b =
      if should_notify p.notify_categories s.detections
      then announce p (camera_of p s) (lib.marshal (event_payload lib p (camera_of p s) s)) b
      else (none, b)
