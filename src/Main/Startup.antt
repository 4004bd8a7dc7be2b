-- ===== src/Main/Startup.antt =====
-- How cmd/smtp-store/main.go starts, and how it ends on a fault of the storage.
use smtp_store.Base.{Bool, true, false, not, Option, none, some, List, [], ◌∷◌, ◌≡◌, refl, Unicode}
use smtp_store.Base.Os.{Error, Outcome, ok, err, ◌>>◌}
use smtp_store.Config.{Config}
use smtp_store.Config.Getters.{spool_enabled, classification_enabled, mqtt_enabled, index_enabled}
use smtp_store.Main.{Signal, signal_fault, signal_faults, Answers, Started, attempt, startup}

signaled-signal_fault : (s : Signal) (e : Error) → s.signaled ≡ true → signal_fault s e ≡ s
unfolding signal_fault
signaled-signal_fault s e h = rw h refl

signaled-signal_faults : (s : Signal) (es : List Error) → s.signaled ≡ true → signal_faults s es ≡ s
unfolding signal_faults signal_fault
signaled-signal_faults s [] h = refl
signaled-signal_faults s (e ∷ es) h =
    rw (signaled-signal_fault s e h) (signaled-signal_faults s es h)

-- However many faults of the storage are reported, the first one ends the program, and no other.
pub signal_faults_lem :
    (e : Error) (es : List Error)
    → signal_faults (record { signaled = false; scheduled = [] }) (e ∷ es)
      ≡ record { signaled = true; scheduled = e ∷ [] }
unfolding signal_faults signal_fault
signal_faults_lem e es =
    signaled-signal_faults (record { signaled = true; scheduled = e ∷ [] }) es refl

attempted :
    (enabled : Bool) (answer : Option Error) {next : Outcome Started} {st : Started}
    → (attempt enabled answer >> next) ≡ ok st
    → (enabled ≡ true → answer ≡ none) × (next ≡ ok st)
attempted true none h = (λ e. refl, h)
attempted true (some e) h = cc
attempted false answer h = (cc, h)

module _ ⦃u : Unicode⦄ {F : Type 0} where
  -- What holds of the parts when the servers start.
  abbrev pub IsReady : Config F → Answers → Started → Type 0
  IsReady c a st =
      (st.index ≡ index_enabled c)
      × (st.notifier ≡ mqtt_enabled c)
      × (st.classifier ≡ classification_enabled c)
      × (st.spool ≡ spool_enabled c)
      × (st.watchdog ≡ not (spool_enabled c))
      × (spool_enabled c ≡ false → a.check_writable ≡ none)
      × (spool_enabled c ≡ true → a.new_spool ≡ none)
      × (index_enabled c ≡ true → a.open_index ≡ none)
      × (mqtt_enabled c ≡ true → a.start_notifier ≡ none)
      × (classification_enabled c ≡ true → a.new_service ≡ none)
      × (a.new_smtp_server ≡ none)
      × (a.new_web_server ≡ none)

  ready_lem :
      (c : Config F) (a : Answers) (st : Started)
      → Path
          (Outcome Started)
          (ok (record {
            index = index_enabled c;
            notifier = mqtt_enabled c;
            classifier = classification_enabled c;
            spool = spool_enabled c;
            watchdog = not (spool_enabled c);
          }))
          (ok st)
      → (spool_enabled c ≡ false → a.check_writable ≡ none)
      → (spool_enabled c ≡ true → a.new_spool ≡ none)
      → (index_enabled c ≡ true → a.open_index ≡ none)
      → (mqtt_enabled c ≡ true → a.start_notifier ≡ none)
      → (classification_enabled c ≡ true → a.new_service ≡ none)
      → a.new_smtp_server ≡ none
      → a.new_web_server ≡ none
      → IsReady c a st
  ready_lem c a st h w s i n v p b = (cc, cc, cc, cc, cc, w, s, i, n, v, p, b)

  -- The servers start only with a configuration that was loaded, with the parts that it enables, each
  -- made without an error, and no others; without a spool, after the storage was found writable, and
  -- with its watchdog.
  pub startup-IsReady :
      (loaded : Outcome (Config F)) (a : Answers) (st : Started)
      → startup loaded a ≡ ok st
      → (c : Config F) × (loaded ≡ ok c) × IsReady c a st
  unfolding startup
  startup-IsReady (err e) a st h = cc
  startup-IsReady (ok c) a st h =
      let (writable, h1) = attempted (not (spool_enabled c)) a.check_writable h in
      let (index, h2) = attempted (index_enabled c) a.open_index h1 in
      let (notifier, h3) = attempted (mqtt_enabled c) a.start_notifier h2 in
      let (service, h4) = attempted (classification_enabled c) a.new_service h3 in
      let (spool, h5) = attempted (spool_enabled c) a.new_spool h4 in
      let (smtp, h6) = attempted true a.new_smtp_server h5 in
      let (web, h7) = attempted true a.new_web_server h6 in
      (
        c,
        refl,
        ready_lem c a st h7 (λ e. writable (rw e refl)) spool index notifier service (smtp refl)
            (web refl),
      )
