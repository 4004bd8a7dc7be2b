-- ===== src/Config/Laws/Checks.antt =====
-- What `Validate` of internal/config/config.go has checked when it returns no error.
use mathlib.Core.Path.{subst}
use smtp_store.Base.{
  ◌≡◌, refl, sym, ap, ◌∙◌, if◌then◌else◌, Bool, true, false, ◌&&◌, ◌||◌, Option, some, List, [],
  ◌∷◌, ◌++◌, Text, codes, Unicode, is_blank, trim_space, ltb,
}
use smtp_store.Base.Dict.{lookup}
use smtp_store.Base.Os.{Error, Outcome, ok, err, fail_if, new_error}
use smtp_store.Base.Int.{ℤ, is_below, is_above, is_negative}
use smtp_store.Config.{Config, Threshold, UserCreds, ClassificationConfig, MqttConfig}
use smtp_store.Config.Validate.{
  key_of, check_users, check_numbers, check_mqtt, check_categories, check_tls, positive,
  positive_duration, validate, is_empty,
}
use smtp_store.Config.Users.{add_users, user_map}
use smtp_store.Config.Laws.Accounts.{>>-eq-ok, >>=-eq-ok, fail_if-eq-ok, lookup-add_users}

-- A port of TCP and a quality of service of MQTT.
abbrev pub IsMqtt : MqttConfig → Type 0
IsMqtt m = (is_below m.port 1 ≡ false) × (is_above m.port 65535 ≡ false) × (ltb 2 m.qos ≡ false)

abbrev pub IsPositive : ℤ → Type 0
IsPositive d = is_below d 1 ≡ false

abbrev pub IsClassification : {F : Type 0} → Threshold F → ClassificationConfig F → Type 0
IsClassification th k =
    IsPositive k.worker_concurrency
    × IsPositive k.frame_count
    × (is_negative k.retry_max ≡ false)
    × (th.below_zero k.confidence_threshold ≡ false)
    × (th.above_one k.confidence_threshold ≡ false)

ok-injective {ℓ} : {A : Type ℓ} (a b : A) → ok a ≡ ok b → a ≡ b
ok-injective a b h = cc

or-false : (a b : Bool) → (a || b) ≡ false → (a ≡ false) × (b ≡ false)
or-false true b h = cc
or-false false b h = (refl, h)

positive-IsPositive : (name : Text) (o : Outcome ℤ) (d : ℤ) → positive name o ≡ ok d → IsPositive d
unfolding positive
positive-IsPositive name (err e) d h = cc
positive-IsPositive name (ok x) d h = positive_if (is_below x 1) refl h
  where
    positive_if :
        (b : Bool)
        → is_below x 1 ≡ b
        → (if b then err (new_error (name ++ codes " must be > 0")) else ok x) ≡ ok d
        → IsPositive d
    positive_if true e r = cc
    positive_if false e r = sym (ap (λ z. is_below z 1) (ok-injective x d r)) ∙ e

module _ ⦃u : Unicode⦄ (parse_duration : Text → Outcome ℤ) (stat : Text → Option Error) where
  positive_duration-IsPositive :
      (name s : Text) (d : ℤ) → positive_duration parse_duration stat name s ≡ ok d → IsPositive d
  unfolding positive_duration
  positive_duration-IsPositive name s d h = positive-IsPositive name (parse_duration s) d h

  check_mqtt-IsMqtt :
      (b : Bool) (m : MqttConfig) → check_mqtt parse_duration stat b m ≡ ok tt → IsMqtt m
  unfolding check_mqtt
  check_mqtt-IsMqtt b m h =
      let (h1, r1) = >>-eq-ok _ _ h in
      let (h2, _) = >>-eq-ok _ _ r1 in
      let (low, high) = or-false _ _ (fail_if-eq-ok _ _ h1) in (low, high, fail_if-eq-ok _ _ h2)

  module _ {F : Type 0} (th : Threshold F) where
    check_numbers-IsClassification :
        (k : ClassificationConfig F)
        → check_numbers parse_duration stat th k ≡ ok tt
        → IsClassification th k
    unfolding check_numbers
    check_numbers-IsClassification k h =
        let (h1, r1) = >>-eq-ok _ _ h in
        let (h2, r2) = >>-eq-ok _ _ r1 in
        let (h3, h4) = >>-eq-ok _ _ r2 in
        let (low, high) = or-false _ _ (fail_if-eq-ok _ _ h4) in
        (fail_if-eq-ok _ _ h1, fail_if-eq-ok _ _ h2, fail_if-eq-ok _ _ h3, low, high)

    -- The checks that the parts rely on, and what the result keeps of the file.
    abbrev pub Passed : Config F → Config F → Type 0
    Passed c c' =
        (is_blank c'.storage_root ≡ false)
        × (is_empty c'.users ≡ false)
        × (is_empty c'.ui_users ≡ false)
        × (is_blank c'.web.session_secret ≡ false)
        × IsPositive c'.web_session_ttl
        × IsPositive c'.spool_flush_interval
        × (is_negative c'.spool.max_bytes ≡ false)
        × ((c'.spool_enabled && is_blank c'.spool.path) ≡ false)
        × IsClassification th c'.classification
        × IsPositive c'.classification_backfill_window
        × IsPositive c'.mqtt_motion_reset_after
        × IsMqtt c'.mqtt
        × (check_users (codes "users") (codes "duplicate username: ") 0 [] c'.users ≡ ok tt)
        × (check_users (codes "ui_users") (codes "duplicate ui username: ") 0 [] c'.ui_users
            ≡ ok tt)
        × (c'.users ≡ c.users)
        × (c'.ui_users ≡ c.ui_users)

    validate-Passed : (c c' : Config F) → validate parse_duration stat th c ≡ ok c' → Passed c c'
    unfolding validate
    validate-Passed c c' h =
        let (root, r1) =
          >>-eq-ok (fail_if (is_blank c.storage_root) (codes "storage_root is required")) _ h in
        let (some_user, r2) = >>-eq-ok _ _ r1 in
        let (some_ui, r3) = >>-eq-ok _ _ r2 in
        let (secret, r4) = >>-eq-ok _ _ r3 in
        let (ttl, e5, r5) =
          >>=-eq-ok
            (positive_duration parse_duration stat (codes "web.session_ttl") (c.web.session_ttl)) _
            r4 in
        let (interval, e6, r6) =
          >>=-eq-ok
            (positive_duration parse_duration stat (codes "spool.flush_interval")
              (trim_space c.spool.flush_interval))
            _ r5 in
        let (bytes, r7) = >>-eq-ok _ _ r6 in
        let (path, r8) = >>-eq-ok _ _ r7 in
        let (numbers, r9) = >>-eq-ok _ _ r8 in
        let (window, e10, r10) =
          >>=-eq-ok
            (positive_duration parse_duration stat (codes "classification.backfill_window")
              (trim_space c.classification.backfill_window))
            _ r9 in
        let (provider, r11) = >>-eq-ok _ _ r10 in
        let (reset, e12, r12) =
          >>=-eq-ok
            (positive_duration parse_duration stat (codes "mqtt.motion_reset_after")
              (trim_space c.mqtt.motion_reset_after))
            _ r11 in
        let (mqtt, r13) = >>-eq-ok _ _ r12 in
        let (categories, e14, r14) =
          >>=-eq-ok (check_categories 0 c.mqtt.notify_categories) _ r13 in
        let (users, r15) = >>-eq-ok _ _ r14 in
        let (ui, r16) = >>-eq-ok _ _ r15 in
        let (tls, r17) = >>-eq-ok (check_tls parse_duration stat c.tls) _ r16 in
        subst (Passed c) (ok-injective _ _ r17) (
          fail_if-eq-ok _ _ root,
          fail_if-eq-ok _ _ some_user,
          fail_if-eq-ok _ _ some_ui,
          fail_if-eq-ok _ _ secret,
          positive_duration-IsPositive (codes "web.session_ttl") (c.web.session_ttl) ttl e5,
          positive_duration-IsPositive (codes "spool.flush_interval")
              (trim_space c.spool.flush_interval) interval e6,
          fail_if-eq-ok _ _ bytes,
          fail_if-eq-ok _ _ path,
          check_numbers-IsClassification c.classification numbers,
          positive_duration-IsPositive (codes "classification.backfill_window")
              (trim_space c.classification.backfill_window) window e10,
          positive_duration-IsPositive (codes "mqtt.motion_reset_after")
              (trim_space c.mqtt.motion_reset_after) reset e12,
          check_mqtt-IsMqtt c.mqtt_enabled c.mqtt mqtt,
          users,
          ui,
          refl,
          refl,
        )

    -- A configuration that passes `Validate` has the users of the file, and every user of it is found
    -- in `UserMap` under the lower-case trimmed name with the password of the file: no later user of
    -- the list replaces that entry.
    pub validate-lookup :
        (c c' : Config F) (before after : List UserCreds) (account : UserCreds)
        → validate parse_duration stat th c ≡ ok c'
        → c.users ≡ before ++ account ∷ after
        → lookup (key_of account.username) (user_map c') ≡ some account.password
    unfolding user_map
    validate-lookup c c' before after account h e =
        let (_, _, _, _, _, _, _, _, _, _, _, _, checked, _, same, _) = validate-Passed c c' h in
        users_of c'.users (same ∙ e) checked
      where
        users_of :
            (users : List UserCreds)
            → users ≡ before ++ account ∷ after
            → check_users (codes "users") (codes "duplicate username: ") 0 [] users ≡ ok tt
            → lookup (key_of account.username) (add_users [] users) ≡ some account.password
        users_of users eq passed =
            ap (λ us. lookup (key_of account.username) (add_users [] us)) eq
            ∙ lookup-add_users (codes "users") (codes "duplicate username: ") before account after 0
                [] []
                (subst
                  (λ us. check_users (codes "users") (codes "duplicate username: ") 0 [] us ≡ ok tt)
                  eq passed)

    -- The configuration that `Validate` returns: there are users and users of the interface, the
    -- storage root and the session secret are not blank, an enabled spool has a path and its limit is
    -- not negative, the four durations are at least one nanosecond, there is at least one worker and
    -- one frame, the retries are not negative, the threshold is neither below zero nor above one, the
    -- port of MQTT is from 1 to 65535 and its quality of service at most 2.
    pub validate-IsValid :
        (c c' : Config F)
        → validate parse_duration stat th c ≡ ok c'
        → (is_empty c'.users ≡ false)
          × (is_empty c'.ui_users ≡ false)
          × (is_blank c'.storage_root ≡ false)
          × (is_blank c'.web.session_secret ≡ false)
          × ((c'.spool_enabled && is_blank c'.spool.path) ≡ false)
          × (is_negative c'.spool.max_bytes ≡ false)
          × IsPositive c'.web_session_ttl
          × IsPositive c'.spool_flush_interval
          × IsPositive c'.classification_backfill_window
          × IsPositive c'.mqtt_motion_reset_after
          × IsClassification th c'.classification
          × IsMqtt c'.mqtt
    validate-IsValid c c' h =
        let (
          root, users, ui, secret, ttl, interval, bytes, path, numbers, window, reset, mqtt, _, _,
          _, _,
        ) =
          validate-Passed c c' h in
        (users, ui, root, secret, path, bytes, ttl, interval, window, reset, numbers, mqtt)
