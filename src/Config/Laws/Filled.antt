-- ===== src/Config/Laws/Filled.antt =====
-- What `applyDefaults` of internal/config/config.go leaves of the values that stand for "not set".
use smtp_store.Base.{
  ℕ, ◌≡◌, ◌≢◌, refl, Bool, true, false, List, [], ◌∷◌, Text, codes, Unicode, is_blank, trim_space,
  is_space, arith, ◌==◌, if◌then◌else◌,
}
use smtp_store.Base.Os.{Outcome, ok, err}
use smtp_store.Base.Int.{ℤ, pos, is_zero}
use smtp_store.Config.{Config, Threshold}
use smtp_store.Config.Defaults.{
  apply_defaults, classification_defaults, mqtt_defaults, spool_defaults, web_defaults,
  host_or_local, threshold_or, list_or, int_or, nat_or, text_or,
}

int_or-is_zero : (n : ℕ) (z : ℤ) → (n == 0) ≡ false → is_zero (int_or n z) ≡ false
unfolding int_or
int_or-is_zero n z h = by_test (is_zero z) refl
  where
    by_test : (b : Bool) → is_zero z ≡ b → is_zero (if b then pos n else z) ≡ false
    by_test true e = h
    by_test false e = e

nat_or-ne-zero : (n m : ℕ) → n ≢ 0 → nat_or n m ≢ 0
unfolding nat_or
nat_or-ne-zero n m h = ground arith

module _ ⦃u : Unicode⦄ where
  text_or-is_blank : (d s : Text) → is_blank d ≡ false → is_blank (text_or d s) ≡ false
  unfolding text_or
  text_or-is_blank d s h = by_test (is_blank s) refl
    where
      by_test : (b : Bool) → is_blank s ≡ b → is_blank (if b then d else s) ≡ false
      by_test true e = h
      by_test false e = e

  host_or_local-is_blank : (o : Outcome Text) → is_blank (host_or_local o) ≡ false
  unfolding host_or_local is_blank trim_space is_space
  host_or_local-is_blank (err e) = refl
  host_or_local-is_blank (ok name) = text_or-is_blank (codes "localhost") name refl

  list_or-ne-nil : (x : Text) (xs categories : List Text) → list_or (x ∷ xs) categories ≢ []
  list_or-ne-nil x xs [] = cc
  list_or-ne-nil x xs (category ∷ categories) = cc

  module _ {F : Type 0} (th : Threshold F) where
    threshold_or-is_zero :
        (x : F) → th.is_zero th.default ≡ false → th.is_zero (threshold_or th x) ≡ false
    unfolding threshold_or
    threshold_or-is_zero x h = by_test (th.is_zero x) refl
      where
        by_test : (b : Bool) → th.is_zero x ≡ b → th.is_zero (if b then th.default else x) ≡ false
        by_test true e = h
        by_test false e = e

    -- The numbers that count as not set when they are zero are not zero.
    abbrev pub HaveNumbers : Config F → Type 0
    HaveNumbers c =
        (is_zero c.spool.max_bytes ≡ false)
        × (is_zero c.classification.worker_concurrency ≡ false)
        × (is_zero c.classification.frame_count ≡ false)
        × (is_zero c.classification.retry_max ≡ false)
        × (th.is_zero c.classification.confidence_threshold ≡ false)
        × (is_zero c.mqtt.port ≡ false)
        × (c.mqtt.qos ≢ 0)

    -- The texts that count as not set when they are blank are not blank, and there is a category.
    abbrev pub HaveTexts : Config F → Type 0
    HaveTexts c =
        (is_blank c.listen_addr ≡ false)
        × (is_blank c.hostname ≡ false)
        × (is_blank c.web.listen_addr ≡ false)
        × (is_blank c.web.session_ttl ≡ false)
        × (is_blank c.spool.path ≡ false)
        × (is_blank c.spool.flush_interval ≡ false)
        × (is_blank c.classification.provider ≡ false)
        × (is_blank c.classification.backfill_window ≡ false)
        × (is_blank c.mqtt.client_id ≡ false)
        × (is_blank c.mqtt.topic_prefix ≡ false)
        × (is_blank c.mqtt.discovery_prefix ≡ false)
        × (is_blank c.mqtt.motion_reset_after ≡ false)
        × (c.mqtt.notify_categories ≢ [])

    -- After the defaults each setting that has one differs from the value that stands for "not set",
    -- whatever the file and `os.Hostname` say: the numbers are not zero (the spool's limit, the
    -- workers, the frames, the retries, the confidence threshold, where the default threshold is not
    -- zero, the port and the quality of service), the texts are not blank (the addresses, the host's
    -- name, the spool's path, the provider, MQTT's client and prefixes, and the durations), and there
    -- is a category to be notified of. So a file cannot ask for no retry, for the threshold 0 or for
    -- quality of service 0.
    pub apply_defaults-ne-unset :
        th.is_zero th.default ≡ false
        → (os_hostname : Outcome Text) (c : Config F)
        → HaveNumbers (apply_defaults th os_hostname c)
          × HaveTexts (apply_defaults th os_hostname c)
    unfolding apply_defaults spool_defaults classification_defaults mqtt_defaults web_defaults
        is_blank trim_space is_space
    apply_defaults-ne-unset h os_hostname c = (
      (
        int_or-is_zero _ c.spool.max_bytes refl,
        int_or-is_zero _ c.classification.worker_concurrency refl,
        int_or-is_zero _ c.classification.frame_count refl,
        int_or-is_zero _ c.classification.retry_max refl,
        threshold_or-is_zero c.classification.confidence_threshold h,
        int_or-is_zero _ c.mqtt.port refl,
        nat_or-ne-zero 1 c.mqtt.qos (omega arith),
      ),
      (
        text_or-is_blank _ c.listen_addr refl,
        text_or-is_blank _ c.hostname (host_or_local-is_blank os_hostname),
        text_or-is_blank _ c.web.listen_addr refl,
        text_or-is_blank _ c.web.session_ttl refl,
        text_or-is_blank _ c.spool.path refl,
        text_or-is_blank _ c.spool.flush_interval refl,
        text_or-is_blank _ c.classification.provider refl,
        text_or-is_blank _ c.classification.backfill_window refl,
        text_or-is_blank _ c.mqtt.client_id refl,
        text_or-is_blank _ c.mqtt.topic_prefix refl,
        text_or-is_blank _ c.mqtt.discovery_prefix refl,
        text_or-is_blank _ c.mqtt.motion_reset_after refl,
        list_or-ne-nil _ _ c.mqtt.notify_categories,
      ),
    )
