-- ===== src/Mqtt/Tests.antt =====
-- A publisher with one camera, and a broker.
use smtp_store.Base.{
  ℕ, ◌≡◌, ◌≢◌, refl, true, false, none, some, List, [], ◌∷◌, ◌++◌, Text, codes, latin1, All,
  text_eq, to_lower, trim_space, trim,
}
use smtp_store.Base.Os.{ok, new_error}
use smtp_store.Base.Int.{pos}
use smtp_store.Config.{UserCreds}
use smtp_store.Classify.{Detection, Sidecar, is_one_of}
use smtp_store.Mqtt.Names.{sanitize_topic_part, sanitize_object_id, event_type}
use smtp_store.Mqtt.Names.Events.{IsPlainRune, IsIdentifierRune, sanitize_lem}
use smtp_store.Mqtt.Cameras.{Camera, Publisher, cameras_from}
use smtp_store.Mqtt.Cameras.Collide.{object_ids, cameras_from-collide}
use smtp_store.Mqtt.Publish.{
  Broker, Library, published, refused, status_topic, event_types, should_notify, start,
  publish_classification,
}
use smtp_store.Mqtt.Publish.Order.{
  Announces, post, discovery, notification, start-Announces, publish_classification-Announces,
}
use smtp_store.Mqtt.Publish.Types.{event_type-listed}

abbrev user : Text → UserCreds
user name = record { username = name; password = codes "secret" }

abbrev library : Library ℕ
library = record {
  marshal = λ d. ok (codes "{}");
  path_escape = λ s. s;
  with_token = λ s t. some s;
}

abbrev camera : Camera
camera = record { name = codes "cam"; topic_id = codes "cam"; object_id = codes "cam" }

abbrev publisher : Publisher
publisher = record {
  topic_prefix = codes "smtp";
  discovery_prefix = codes "homeassistant";
  public_base_url = [];
  media_token = [];
  qos = 1;
  motion_reset_after = pos 60;
  notify_categories = codes "person" ∷ [];
  cameras = camera ∷ [];
}

-- The broker takes one message and refuses the next.
abbrev broker : Broker
broker = record { answers = published ∷ refused (new_error (codes "gone")) ∷ []; sent = [] }

abbrev detections : List (Detection ℕ)
detections = record { category = codes "Person"; label = codes "man"; confidence = 9 } ∷ []

abbrev sidecar : Sidecar ℕ
sidecar = record {
  schema_version = pos 1;
  relative_path = codes "cam/a.mp4";
  file_size = pos 3;
  file_mod_time = [];
  state = codes "success";
  provider = [];
  model = [];
  attempts = pos 1;
  updated_at = [];
  last_error = [];
  detections = detections;
  has_person = true;
  has_animal = false;
  has_vehicle = false;
  thumbnail_path = [];
  mqtt_published_at = [];
  mqtt_last_error = [];
  raw_response = [];
}

sanitize_lem_example :
    (All IsPlainRune (sanitize_topic_part ⦃u = latin1⦄ (codes "A/b"))
      × (sanitize_topic_part ⦃u = latin1⦄ (codes "A/b") ≢ []))
    × (All IsIdentifierRune (sanitize_object_id ⦃u = latin1⦄ (codes "A/b"))
        × (sanitize_object_id ⦃u = latin1⦄ (codes "A/b") ≢ []))
sanitize_lem_example = sanitize_lem ⦃u = latin1⦄ (codes "A/b")

cameras_from-collide_example :
    object_ids (
      cameras_from ⦃u = latin1⦄ []
        (user (codes "a.b") ∷ user (codes "a-b") ∷ user (codes "a b") ∷ []))
    ≡ codes "a_b" ∷ (codes "a_b" ++ codes "_2") ∷ (codes "a_b" ++ codes "_2") ∷ []
unfolding text_eq to_lower trim_space sanitize_object_id trim
cameras_from-collide_example =
    cameras_from-collide ⦃u = latin1⦄ (user (codes "a.b")) (user (codes "a-b")) (user (codes "a b"))
      (codes "a_b") refl refl refl refl refl refl

start-Announces_example :
    Announces publisher
      (post (status_topic publisher) true (ok (codes "online"))
        ∷ discovery library publisher publisher.cameras)
      broker
      (start library publisher (none, broker))
start-Announces_example = start-Announces library publisher broker

publish_classification-Announces_example :
    Announces publisher
      (notification ⦃u = latin1⦄ library publisher sidecar
        (should_notify ⦃u = latin1⦄ publisher.notify_categories detections))
      broker
      (publish_classification ⦃u = latin1⦄ library publisher sidecar broker)
publish_classification-Announces_example =
    publish_classification-Announces ⦃u = latin1⦄ library publisher sidecar broker

event_type-listed_example : is_one_of (event_type ⦃u = latin1⦄ detections) event_types ≡ true
unfolding is_one_of should_notify text_eq to_lower trim_space
event_type-listed_example =
    event_type-listed ⦃u = latin1⦄ (codes "person" ∷ []) detections (refl, tt) refl
