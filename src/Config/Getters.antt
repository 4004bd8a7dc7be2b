-- ===== src/Config/Getters.antt =====
-- The getters of internal/config/config.go: a duration that validation has not set falls back to its
-- default. `time.ParseDuration` is a parameter; where it fails, it gives the duration 0.
use smtp_store.Base.{Bool, not, Text, codes, Unicode, is_blank, trim_space, if◌then◌else◌}
use smtp_store.Base.Int.{ℤ, pos, is_above}
use smtp_store.Base.Os.{Outcome, ok, err}
use smtp_store.Config.{Config}

abbrev pub or_zero : Outcome ℤ → ℤ
or_zero (err e) = pos 0
or_zero (ok d) = d

unfoldable pub positive_or : ℤ → ℤ → ℤ
positive_or fallback d = if is_above d 0 then d else fallback

unfoldable pub parsed_or : ℤ → Outcome ℤ → ℤ
unfolding positive_or
parsed_or fallback (err e) = fallback
parsed_or fallback (ok d) = positive_or fallback d

module _ {F : Type 0} (c : Config F) where
  unfoldable pub classification_enabled : Bool
  classification_enabled = c.classification_enabled

  unfoldable pub classification_store_raw_response_enabled : Bool
  classification_store_raw_response_enabled = c.classification_store_raw_responses

  unfoldable pub mqtt_enabled : Bool
  mqtt_enabled = c.mqtt_enabled

  unfoldable pub spool_enabled : Bool
  spool_enabled = c.spool_enabled

module _ {F : Type 0} (c : Config F) (parse_duration : Text → Outcome ℤ) where
  unfoldable pub classification_backfill_window_duration : ℤ
  unfolding positive_or
  classification_backfill_window_duration =
      positive_or (or_zero (parse_duration (codes "168h"))) c.classification_backfill_window

  unfoldable pub spool_flush_interval_duration : ℤ
  unfolding positive_or
  spool_flush_interval_duration =
      positive_or (or_zero (parse_duration (codes "30s"))) c.spool_flush_interval

  unfoldable pub mqtt_motion_reset_after_duration : ℤ
  unfolding positive_or
  mqtt_motion_reset_after_duration =
      positive_or (or_zero (parse_duration (codes "60s"))) c.mqtt_motion_reset_after

module _ ⦃u : Unicode⦄ {F : Type 0} (c : Config F) where
  unfoldable pub index_enabled : Bool
  index_enabled = not (is_blank c.index_path)

  -- The text of the file is read again where validation has not.
  unfoldable pub web_session_ttl_duration : (Text → Outcome ℤ) → ℤ
  unfolding positive_or parsed_or
  web_session_ttl_duration parse_duration =
      positive_or
        (parsed_or (or_zero (parse_duration (codes "168h")))
          (parse_duration (trim_space c.web.session_ttl)))
        c.web_session_ttl
