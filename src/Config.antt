-- ===== src/Config.antt =====
-- internal/config/config.go: the configuration, its defaults and its validation. `F` is the type of
-- the confidence threshold, a float64.
pub mod Defaults
pub mod Validate
pub mod Users
pub mod Getters
pub mod Laws
mod Tests
use smtp_store.Base.{ℕ, Bool, Option, List, Text}
use smtp_store.Base.Int.{ℤ}

pub record UserCreds : Type 0 where
  pub username : Text
  pub password : Text

pub record TlsConfig : Type 0 where
  pub enabled : Bool
  pub cert_file : Text
  pub key_file : Text

pub record WebConfig : Type 0 where
  pub listen_addr : Text
  pub session_ttl : Text
  pub session_secret : Text

pub record SpoolConfig : Type 0 where
  pub enabled : Option Bool
  pub path : Text
  pub max_bytes : ℤ
  pub flush_interval : Text

pub record ClassificationConfig (F : Type 0) : Type 0 where
  pub enabled : Option Bool
  pub provider : Text
  pub model : Text
  pub api_key : Text
  pub confidence_threshold : F
  pub worker_concurrency : ℤ
  pub frame_count : ℤ
  pub backfill_window : Text
  pub retry_max : ℤ
  pub store_raw_response : Option Bool

pub record MqttConfig : Type 0 where
  pub enabled : Option Bool
  pub host : Text
  pub port : ℤ
  pub username : Text
  pub password : Text
  pub client_id : Text
  pub topic_prefix : Text
  pub discovery_prefix : Text
  pub qos : ℕ
  pub motion_reset_after : Text
  pub public_base_url : Text
  pub media_token : Text
  pub notify_categories : List Text

-- The fields of the file, and those that defaults and validation work out from them.
pub record Config (F : Type 0) : Type 0 where
  pub listen_addr : Text
  pub storage_root : Text
  pub index_path : Text
  pub hostname : Text
  pub verbose_logs : Bool
  pub tls : TlsConfig
  pub web : WebConfig
  pub spool : SpoolConfig
  pub classification : ClassificationConfig F
  pub mqtt : MqttConfig
  pub users : List UserCreds
  pub ui_users : List UserCreds
  pub web_session_ttl : ℤ
  pub classification_backfill_window : ℤ
  pub mqtt_motion_reset_after : ℤ
  pub spool_flush_interval : ℤ
  pub classification_enabled : Bool
  pub classification_store_raw_responses : Bool
  pub mqtt_enabled : Bool
  pub spool_enabled : Bool

-- What the code asks of float64: the tests against the constants 0 and 1, and the constant 0.60.
pub record Threshold (F : Type 0) : Type 0 where
  pub is_zero : F → Bool
  pub below_zero : F → Bool
  pub above_one : F → Bool
  pub default : F
