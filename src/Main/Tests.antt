-- ===== src/Main/Tests.antt =====
-- The program as it is by default, without a spool.
use smtp_store.Base.{
  ℕ, ◌≡◌, ◌≢◌, ◌↔◌, refl, Bool, true, false, none, some, List, [], ◌∷◌, Text, codes, latin1,
  is_blank,
}
use smtp_store.Base.Os.{ok}
use smtp_store.Base.Int.{pos}
use smtp_store.Config.{Config}
use smtp_store.Config.Getters.{spool_enabled, classification_enabled, index_enabled, mqtt_enabled}
use smtp_store.Smtp.Session.{Session, stored, has_rcpts, data_command}
use smtp_store.Main.{running, finished, Parts, main_backend, Answers, Started, startup}
use smtp_store.Main.Wiring.{data_command-panics}
use smtp_store.Main.Startup.{IsReady, startup-IsReady}

abbrev config : Bool → Config ℕ
config classify = record {
  listen_addr = [];
  storage_root = codes "/srv";
  index_path = [];
  hostname = [];
  verbose_logs = false;
  tls = record { enabled = false; cert_file = []; key_file = [] };
  web = record { listen_addr = []; session_ttl = []; session_secret = codes "s" };
  spool = record { enabled = none; path = []; max_bytes = pos 0; flush_interval = [] };
  classification = record {
    enabled = some classify;
    provider = [];
    model = [];
    api_key = [];
    confidence_threshold = 0;
    worker_concurrency = pos 0;
    frame_count = pos 0;
    backfill_window = [];
    retry_max = pos 0;
    store_raw_response = none;
  };
  mqtt = record {
    enabled = none;
    host = [];
    port = pos 0;
    username = [];
    password = [];
    client_id = [];
    topic_prefix = [];
    discovery_prefix = [];
    qos = 0;
    motion_reset_after = [];
    public_base_url = [];
    media_token = [];
    notify_categories = [];
  };
  users = [];
  ui_users = [];
  web_session_ttl = pos 0;
  classification_backfill_window = pos 0;
  mqtt_motion_reset_after = pos 0;
  spool_flush_interval = pos 0;
  classification_enabled = classify;
  classification_store_raw_responses = false;
  mqtt_enabled = false;
  spool_enabled = false;
}

-- The state is the log of the calls.
abbrev parts : Parts (List Text)
parts = record {
  process_and_store = λ raw at w. (
    stored
        (record { recipient = []; directory = []; body_path = codes "b"; attachment_paths = [] }),
    raw ∷ w,
  );
  enqueue_message = λ raw at w. (ok (codes "1"), raw ∷ w);
  enqueue_video = λ p w. p ∷ w;
  upsert_path = λ p w. p ∷ w;
  abs = λ p. ok p;
  fault = λ e w. w;
}

abbrev session : Session
session = record {
  conn_id = 1;
  authenticated = true;
  username = codes "cam";
  from = [];
  rcpts = codes "a@b" ∷ [];
}

data_command-panics_example :
    (finished (
        data_command ⦃u = latin1⦄
          (main_backend parts ⦃u = latin1⦄ (config false))
          session
          (some (codes "mail"))
          0
          (running []))
      ≡ none)
    ↔ ((true ≡ true)
        × (has_rcpts session.rcpts ≡ true)
        × (spool_enabled (config false) ≡ false)
        × (some (codes "mail") ≢ none))
data_command-panics_example =
    data_command-panics ⦃u = latin1⦄ parts (config false) session (some (codes "mail")) 0 []

default_panics :
    finished (
      data_command ⦃u = latin1⦄
        (main_backend parts ⦃u = latin1⦄ (config false))
        session
        (some (codes "mail"))
        0
        (running []))
    ≡ none
unfolding has_rcpts spool_enabled
default_panics =
    (data_command-panics ⦃u = latin1⦄ parts (config false) session (some (codes "mail")) 0 []).1
      (refl, refl, refl, cc)

abbrev answers : Answers
answers = record {
  check_writable = none;
  open_index = none;
  start_notifier = none;
  new_service = none;
  new_spool = none;
  new_smtp_server = none;
  new_web_server = none;
}

abbrev started : Started
started = record {
  index = false;
  notifier = false;
  classifier = false;
  spool = false;
  watchdog = true;
}

default-startup : startup ⦃u = latin1⦄ (ok (config false)) answers ≡ ok started
unfolding startup spool_enabled classification_enabled index_enabled is_blank mqtt_enabled
default-startup = refl

startup-IsReady_example :
    (c : Config ℕ) × (ok (config false) ≡ ok c) × IsReady ⦃u = latin1⦄ c answers started
startup-IsReady_example =
    startup-IsReady ⦃u = latin1⦄ (ok (config false)) answers started default-startup
