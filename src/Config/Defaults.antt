-- ===== src/Config/Defaults.antt =====
-- `applyDefaults` of internal/config/config.go.
use smtp_store.Base.{
  ℕ, Bool, true, false, Option, none, some, List, [], ◌∷◌, Text, codes, Unicode, is_blank, ◌==◌,
  if◌then◌else◌,
}
use smtp_store.Base.Int.{ℤ, pos, is_zero}
use smtp_store.Base.Os.{Outcome, ok, err}
use smtp_store.Config.{Config, Threshold, WebConfig, SpoolConfig, ClassificationConfig, MqttConfig}

abbrev pub bool_or : Bool → Option Bool → Bool
bool_or b none = b
bool_or b (some c) = c

unfoldable pub int_or : ℕ → ℤ → ℤ
int_or d z = if is_zero z then pos d else z

unfoldable pub nat_or : ℕ → ℕ → ℕ
nat_or d n = if n == 0 then d else n

abbrev pub all_categories : List Text
all_categories = codes "person" ∷ codes "animal" ∷ codes "vehicle" ∷ []

abbrev pub list_or : List Text → List Text → List Text
list_or d [] = d
list_or d (x ∷ xs) = x ∷ xs

module _ ⦃u : Unicode⦄ where
  unfoldable pub text_or : Text → Text → Text
  text_or d s = if is_blank s then d else s

  -- `os.Hostname`, or `localhost` where it fails or is blank.
  unfoldable pub host_or_local : Outcome Text → Text
  unfolding text_or
  host_or_local (err e) = codes "localhost"
  host_or_local (ok name) = text_or (codes "localhost") name

  unfoldable pub web_defaults : WebConfig → WebConfig
  web_defaults w = record w {
    listen_addr = text_or (codes "0.0.0.0:8080") w.listen_addr;
    session_ttl = text_or (codes "168h") w.session_ttl;
  }

  unfoldable pub spool_defaults : SpoolConfig → SpoolConfig
  spool_defaults s = record s {
    path = text_or (codes "/var/lib/smtp-store/spool") s.path;
    max_bytes = int_or 10737418240 s.max_bytes;
    flush_interval = text_or (codes "30s") s.flush_interval;
  }

  unfoldable pub mqtt_defaults : MqttConfig → MqttConfig
  mqtt_defaults m = record m {
    port = int_or 1883 m.port;
    client_id = text_or (codes "smtp-store") m.client_id;
    topic_prefix = text_or (codes "smtp-store") m.topic_prefix;
    discovery_prefix = text_or (codes "homeassistant") m.discovery_prefix;
    qos = nat_or 1 m.qos;
    motion_reset_after = text_or (codes "60s") m.motion_reset_after;
    notify_categories = list_or all_categories m.notify_categories;
  }

  module _ {F : Type 0} (th : Threshold F) where
    unfoldable pub threshold_or : F → F
    threshold_or x = if th.is_zero x then th.default else x

    unfoldable pub classification_defaults : ClassificationConfig F → ClassificationConfig F
    classification_defaults c = record c {
      provider = text_or (codes "gemini") c.provider;
      confidence_threshold = threshold_or c.confidence_threshold;
      worker_concurrency = int_or 1 c.worker_concurrency;
      frame_count = int_or 6 c.frame_count;
      backfill_window = text_or (codes "168h") c.backfill_window;
      retry_max = int_or 3 c.retry_max;
    }

    -- `applyDefaults`, on what `os.Hostname` answers.
    unfoldable pub apply_defaults : Outcome Text → Config F → Config F
    unfolding web_defaults spool_defaults mqtt_defaults classification_defaults host_or_local
    apply_defaults os_hostname c = record c {
      classification_enabled = bool_or true c.classification.enabled;
      classification_store_raw_responses = bool_or true c.classification.store_raw_response;
      mqtt_enabled = bool_or false c.mqtt.enabled;
      spool_enabled = bool_or false c.spool.enabled;
      listen_addr = text_or (codes "127.0.0.1:2525") c.listen_addr;
      web = web_defaults c.web;
      spool = spool_defaults c.spool;
      classification = classification_defaults c.classification;
      hostname = text_or (host_or_local os_hostname) c.hostname;
      mqtt = mqtt_defaults c.mqtt;
    }
