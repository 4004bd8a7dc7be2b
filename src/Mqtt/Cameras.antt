-- ===== src/Mqtt/Cameras.antt =====
-- The cameras of a publisher: `NewWithClient` and `cameraForName` of internal/mqttnotify/publisher.go.
pub mod Collide
use smtp_store.Base.{
  ℕ, suc, ◌+◌, Bool, true, false, Option, none, some, List, [], ◌∷◌, ◌++◌, map, Text, codes,
  Unicode, text_eq, trim, trim_right, trim_space, to_lower, is_blank, ltb, if◌then◌else◌,
}
use smtp_store.Base.Strings.Decimal.{decimal}
use smtp_store.Base.Dict.{Dict, lookup, insert}
use smtp_store.Base.Int.{ℤ}
use smtp_store.Config.{Config, UserCreds}
use smtp_store.Mqtt.Names.{is_slash, sanitize_topic_part, sanitize_object_id}

pub record Camera : Type 0 where
  pub name : Text
  pub topic_id : Text
  pub object_id : Text

pub record Publisher : Type 0 where
  pub topic_prefix : Text
  pub discovery_prefix : Text
  pub public_base_url : Text
  pub media_token : Text
  pub qos : ℕ
  pub motion_reset_after : ℤ
  pub notify_categories : List Text
  pub cameras : List Camera

-- A map with the value 0 for a missing key.
abbrev pub count_of : Option ℕ → ℕ
count_of none = 0
count_of (some n) = n

unfoldable pub count_seen : Text → Dict ℕ → ℕ
count_seen key seen = count_of (lookup key seen)

-- An identifier that was seen gets a number behind.
unfoldable pub numbered : Text → ℕ → Text
numbered object_id count =
    if ltb 0 count then object_id ++ (codes "_" ++ decimal (count + 1)) else object_id

module _ ⦃u : Unicode⦄ where
  abbrev pub normal_name : Text → Text
  normal_name name = to_lower (trim_space name)

  -- The loop over the users, with the counts so far.
  unfoldable pub cameras_from : Dict ℕ → List UserCreds → List Camera
  unfolding count_seen numbered
  cameras_from seen [] = []
  cameras_from seen (c ∷ cs) =
      let name = normal_name c.username in
      let base = sanitize_object_id name in
      let object_id = numbered base (count_seen base seen) in
      let skip = cameras_from seen cs in
      let add =
        record { name = name; topic_id = sanitize_topic_part name; object_id = object_id }
        ∷ cameras_from (insert object_id (count_seen object_id seen + 1) seen) cs in
      if text_eq name [] then skip else add

  -- `NewWithClient`; the reset time is what the configuration's getter says.
  unfoldable pub new_publisher : {F : Type 0} → Config F → ℤ → Publisher
  unfolding cameras_from
  new_publisher c reset_after = record {
    topic_prefix = trim is_slash (trim_space c.mqtt.topic_prefix);
    discovery_prefix = trim is_slash (trim_space c.mqtt.discovery_prefix);
    public_base_url = trim_right is_slash (trim_space c.mqtt.public_base_url);
    media_token = c.mqtt.media_token;
    qos = c.mqtt.qos;
    motion_reset_after = reset_after;
    notify_categories = map normal_name c.mqtt.notify_categories;
    cameras = cameras_from [] c.users;
  }

  unfoldable pub find_camera : Text → List Camera → Camera
  find_camera name [] = record {
    name = name;
    topic_id = sanitize_topic_part name;
    object_id = sanitize_object_id name;
  }
  find_camera name (c ∷ cs) = if text_eq c.name name then c else find_camera name cs

  -- `cameraForName`.
  unfoldable pub camera_for_name : Publisher → Text → Camera
  unfolding find_camera
  camera_for_name p name = find_camera (normal_name name) p.cameras
