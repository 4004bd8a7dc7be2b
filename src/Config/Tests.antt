-- ===== src/Config/Tests.antt =====
-- A configuration with one user.
use smtp_store.Base.{
  ℕ, ◌≡◌, refl, false, ◌&&◌, Option, none, some, [], ◌∷◌, ◌++◌, Text, codes, latin1, ltb, ◌==◌,
  is_blank, to_lower,
}
use smtp_store.Base.Dict.{lookup}
use smtp_store.Base.Os.{Error, Outcome, ok}
use smtp_store.Base.Int.{ℤ, pos, is_negative}
use smtp_store.Config.{Config, Threshold, UserCreds}
use smtp_store.Config.Defaults.{apply_defaults, int_or, threshold_or, nat_or}
use smtp_store.Config.Validate.{validate, key_of, is_empty}
use smtp_store.Config.Users.{user_map}
use smtp_store.Config.Laws.Checks.{
  IsPositive, IsMqtt, IsClassification, validate-IsValid, validate-lookup,
}
use smtp_store.Config.Laws.Filled.{HaveNumbers, HaveTexts, apply_defaults-ne-unset}

-- A threshold in hundredths.
abbrev hundredths : Threshold ℕ
hundredths = record {
  is_zero = λ n. n == 0;
  below_zero = λ n. false;
  above_one = λ n. ltb 100 n;
  default = 60;
}

abbrev cam : UserCreds
cam = record { username = codes " Cam"; password = codes "secret" }

abbrev config : Config ℕ
config = record {
  listen_addr = [];
  storage_root = codes "/srv";
  index_path = [];
  hostname = [];
  verbose_logs = false;
  tls = record { enabled = false; cert_file = []; key_file = [] };
  web = record { listen_addr = []; session_ttl = []; session_secret = codes "s" };
  spool = record { enabled = none; path = []; max_bytes = pos 0; flush_interval = [] };
  classification = record {
    enabled = some false;
    provider = [];
    model = [];
    api_key = [];
    confidence_threshold = 0;
    worker_concurrency = pos 0;
    frame_count = pos 0;
    backfill_window = [];
    retry_max = pos 0;
    store_raw_response = none;
  };
  mqtt = record {
    enabled = none;
    host = [];
    port = pos 0;
    username = [];
    password = [];
    client_id = [];
    topic_prefix = [];
    discovery_prefix = [];
    qos = 0;
    motion_reset_after = [];
    public_base_url = [];
    media_token = [];
    notify_categories = [];
  };
  users = cam ∷ [];
  ui_users = cam ∷ [];
  web_session_ttl = pos 0;
  classification_backfill_window = pos 0;
  mqtt_motion_reset_after = pos 0;
  spool_flush_interval = pos 0;
  classification_enabled = false;
  classification_store_raw_responses = false;
  mqtt_enabled = false;
  spool_enabled = false;
}

abbrev filled : Config ℕ
filled = apply_defaults ⦃u = latin1⦄ hundredths (ok (codes "host")) config

-- Every duration is a second, and every file is there.
abbrev second : Text → Outcome ℤ
second s = ok (pos 1000000000)

abbrev found : Text → Option Error
found path = none

abbrev checked : Config ℕ
checked = record filled {
  web_session_ttl = pos 1000000000;
  spool_flush_interval = pos 1000000000;
  classification_backfill_window = pos 1000000000;
  mqtt_motion_reset_after = pos 1000000000;
}

filled_passes : validate ⦃u = latin1⦄ second found hundredths filled ≡ ok checked
unfolding validate apply_defaults is_blank int_or threshold_or nat_or key_of to_lower
filled_passes = refl

users_of_filled : filled.users ≡ [] ++ cam ∷ []
unfolding apply_defaults
users_of_filled = refl

validate-lookup_example :
    lookup (key_of ⦃u = latin1⦄ cam.username) (user_map ⦃u = latin1⦄ checked)
    ≡ some (codes "secret")
validate-lookup_example =
    validate-lookup ⦃u = latin1⦄ second found hundredths filled checked [] [] cam filled_passes
      users_of_filled

validate-IsValid_example :
    (is_empty checked.users ≡ false)
    × (is_empty checked.ui_users ≡ false)
    × (is_blank ⦃u = latin1⦄ checked.storage_root ≡ false)
    × (is_blank ⦃u = latin1⦄ checked.web.session_secret ≡ false)
    × ((checked.spool_enabled && is_blank ⦃u = latin1⦄ checked.spool.path) ≡ false)
    × (is_negative checked.spool.max_bytes ≡ false)
    × IsPositive checked.web_session_ttl
    × IsPositive checked.spool_flush_interval
    × IsPositive checked.classification_backfill_window
    × IsPositive checked.mqtt_motion_reset_after
    × IsClassification hundredths checked.classification
    × IsMqtt checked.mqtt
validate-IsValid_example =
    validate-IsValid ⦃u = latin1⦄ second found hundredths filled checked filled_passes

apply_defaults-ne-unset_example :
    HaveNumbers ⦃u = latin1⦄ hundredths filled × HaveTexts ⦃u = latin1⦄ hundredths filled
apply_defaults-ne-unset_example =
    apply_defaults-ne-unset ⦃u = latin1⦄ hundredths refl (ok (codes "host")) config
