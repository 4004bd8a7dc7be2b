-- ===== src/Config/Validate.antt =====
-- `Validate` of internal/config/config.go. `time.ParseDuration` and `os.Stat` are parameters; a
-- validation that fails leaves no configuration, so the fields that it sets are those of its result.
use smtp_store.Base.{
  ℕ, ◌+◌, Bool, true, false, ◌&&◌, ◌||◌, Option, none, some, List, [], ◌∷◌, ◌++◌, Text, codes,
  Unicode, is_blank, trim_space, to_lower, text_eq, ltb, if◌then◌else◌,
}
use smtp_store.Base.Int.{ℤ, is_negative, is_below, is_above}
use smtp_store.Base.Strings.Decimal.{decimal}
use smtp_store.Base.Os.{Error, Outcome, ok, err, wrap, new_error, fail_if, ◌>>=◌, ◌>>◌}
use smtp_store.Config.{Config, Threshold, UserCreds, TlsConfig, ClassificationConfig, MqttConfig}

abbrev pub is_empty {ℓ} : {A : Type ℓ} → List A → Bool
is_empty [] = true
is_empty (x ∷ xs) = false

-- `<list>[i].<field> is required`.
unfoldable pub required_at : Text → ℕ → Text → Text
required_at label i field =
    label ++ (codes "[" ++ (decimal i ++ (codes "]" ++ (field ++ codes " is required"))))

-- `%q` of a name with no character to escape.
abbrev pub quoted : Text → Text
quoted s = codes "\"" ++ (s ++ codes "\"")

unfoldable pub is_seen : Text → List Text → Bool
is_seen key [] = false
is_seen key (k ∷ ks) = text_eq k key || is_seen key ks

unfoldable pub positive : Text → Outcome ℤ → Outcome ℤ
positive name (err e) = err (wrap (codes "invalid " ++ name) e)
positive name (ok d) = if is_below d 1 then err (new_error (name ++ codes " must be > 0")) else ok d

module _ ⦃u : Unicode⦄ where
  -- The key under which a user is found.
  unfoldable pub key_of : Text → Text
  key_of name = to_lower (trim_space name)

  -- A loop over users with the keys seen so far.
  unfoldable pub check_users : Text → Text → ℕ → List Text → List UserCreds → Outcome (Unit {0})
  unfolding is_seen required_at
  check_users label duplicate i seen [] = ok tt
  check_users label duplicate i seen (c ∷ cs) = do
    fail_if (is_blank c.username) (required_at label i (codes ".username"))
    fail_if (is_blank c.password) (required_at label i (codes ".password"))
    fail_if (is_seen (key_of c.username) seen) (duplicate ++ quoted c.username)
    check_users label duplicate (i + 1) (key_of c.username ∷ seen) cs

  -- The loop over `mqtt.notify_categories`, with the list that it leaves.
  unfoldable pub check_categories : ℕ → List Text → Outcome (List Text)
  unfolding required_at
  check_categories i [] = ok []
  check_categories i (t ∷ ts) = do
    fail_if (is_blank t) (required_at (codes "mqtt.notify_categories") i [])
    rest ← check_categories (i + 1) ts
    ok (key_of t ∷ rest)

  module _ (parse_duration : Text → Outcome ℤ) (stat : Text → Option Error) where
    -- A duration that must be positive.
    unfoldable pub positive_duration : Text → Text → Outcome ℤ
    unfolding positive
    positive_duration name s = positive name (parse_duration s)

    unfoldable pub accessible : Text → Text → Outcome (Unit {0})
    accessible name path = elim (stat path) [
      | none ↦ ok tt
      | some e ↦ err (wrap (name ++ codes " not accessible") e)
    ]

    unfoldable pub check_tls : TlsConfig → Outcome (Unit {0})
    unfolding accessible
    check_tls t =
        if t.enabled
        then (do
          fail_if (is_blank t.cert_file) (codes "tls.cert_file is required when tls.enabled=true")
          fail_if (is_blank t.key_file) (codes "tls.key_file is required when tls.enabled=true")
          accessible (codes "tls.cert_file") t.cert_file
          accessible (codes "tls.key_file") t.key_file)
        else ok tt

    unfoldable pub check_mqtt : Bool → MqttConfig → Outcome (Unit {0})
    check_mqtt enabled m = do
      fail_if (is_below m.port 1 || is_above m.port 65535)
          (codes "mqtt.port must be between 1 and 65535")
      fail_if (ltb 2 m.qos) (codes "mqtt.qos must be 0, 1, or 2")
      fail_if (enabled && is_blank m.host) (codes "mqtt.host is required when mqtt.enabled=true")
      fail_if (enabled && is_blank m.public_base_url)
          (codes "mqtt.public_base_url is required when mqtt.enabled=true")
      fail_if (enabled && is_blank m.media_token)
          (codes "mqtt.media_token is required when mqtt.enabled=true")

    module _ {F : Type 0} (th : Threshold F) where
      unfoldable pub check_numbers : ClassificationConfig F → Outcome (Unit {0})
      check_numbers c = do
        fail_if (is_below c.worker_concurrency 1)
            (codes "classification.worker_concurrency must be >= 1")
        fail_if (is_below c.frame_count 1) (codes "classification.frame_count must be >= 1")
        fail_if (is_negative c.retry_max) (codes "classification.retry_max must be >= 0")
        fail_if (th.below_zero c.confidence_threshold || th.above_one c.confidence_threshold)
            (codes "classification.confidence_threshold must be between 0 and 1")

      unfoldable pub check_provider : Bool → ClassificationConfig F → Outcome (Unit {0})
      check_provider enabled c = do
        fail_if (enabled && is_blank c.provider)
            (codes "classification.provider is required when classification.enabled=true")
        fail_if (enabled && is_blank c.model)
            (codes "classification.model is required when classification.enabled=true")
        fail_if (enabled && is_blank c.api_key)
            (codes "classification.api_key is required when classification.enabled=true")

      -- `Validate`.
      unfoldable pub validate : Config F → Outcome (Config F)
      unfolding positive_duration check_numbers check_provider check_mqtt check_categories
          check_users check_tls
      validate c = do
        fail_if (is_blank c.storage_root) (codes "storage_root is required")
        fail_if (is_empty c.users) (codes "at least one user is required")
        fail_if (is_empty c.ui_users) (codes "at least one ui_user is required")
        fail_if (is_blank c.web.session_secret) (codes "web.session_secret is required")
        ttl ← positive_duration (codes "web.session_ttl") c.web.session_ttl
        interval ←
            positive_duration (codes "spool.flush_interval") (trim_space c.spool.flush_interval)
        fail_if (is_negative c.spool.max_bytes) (codes "spool.max_bytes must be >= 0")
        fail_if (c.spool_enabled && is_blank c.spool.path)
            (codes "spool.path is required when spool.enabled=true")
        check_numbers c.classification
        window ←
            positive_duration (codes "classification.backfill_window")
              (trim_space c.classification.backfill_window)
        check_provider c.classification_enabled c.classification
        reset ←
            positive_duration (codes "mqtt.motion_reset_after")
              (trim_space c.mqtt.motion_reset_after)
        check_mqtt c.mqtt_enabled c.mqtt
        categories ← check_categories 0 c.mqtt.notify_categories
        check_users (codes "users") (codes "duplicate username: ") 0 [] c.users
        check_users (codes "ui_users") (codes "duplicate ui username: ") 0 [] c.ui_users
        check_tls c.tls
        ok (record c {
          web_session_ttl = ttl;
          spool_flush_interval = interval;
          classification_backfill_window = window;
          mqtt_motion_reset_after = reset;
          mqtt = record (c.mqtt) { notify_categories = categories };
        })
