-- ===== src/Main/Wiring.antt =====
-- The server that cmd/smtp-store/main.go puts together.
use smtp_store.Base.{
  ℕ, Bool, true, false, Option, none, some, ◌≡◌, ◌≢◌, ◌↔◌, refl, Text, codes, Unicode,
  if◌then◌else◌,
}
use smtp_store.Base.Os.{Outcome, ok, err}
use smtp_store.Config.{Config}
use smtp_store.Config.Getters.{spool_enabled}
use smtp_store.Smtp.Session.{
  Session, smtp_error, auth_required, has_rcpts, after_spool, deliver, receive, data_command,
}
use smtp_store.Main.{running, live_with, finished, Parts, spool_method, main_backend}

module _ ⦃u : Unicode⦄ {W : Type 0} (parts : Parts W) where
  spooled-finishes : (o : Outcome Text) (w : W) → finished (after_spool (o, running w)) ≢ none
  unfolding finished after_spool
  spooled-finishes (ok id) w = cc
  spooled-finishes (err e) w = cc

  by_spool :
      (spool : Bool) (raw : Text) (at : ℕ) (w : W)
      → (finished (after_spool (spool_method parts spool raw at (running w))) ≡ none)
        ↔ (spool ≡ false)
  unfolding spool_method live_with finished after_spool
  by_spool true raw at w = (
    λ e.
        absurd (
          spooled-finishes (parts.enqueue_message raw at w).0 (parts.enqueue_message raw at w).1 e),
    cc,
  )
  by_spool false raw at w = (λ e. refl, λ e. refl)

  module _ {F : Type 0} (c : Config F) where
    by_reader :
        (s : Session) (reader : Option Text) (at : ℕ) (w : W)
        → (finished (receive (main_backend parts c) s reader at (running w)) ≡ none)
          ↔ ((spool_enabled c ≡ false) × (reader ≢ none))
    unfolding receive deliver main_backend
    by_reader s none at w = (unfold finished in cc, λ h. absurd (h.1 refl))
    by_reader s (some raw) at w = (
      λ e. ((by_spool (spool_enabled c) raw at w).0 e, cc),
      λ h. (by_spool (spool_enabled c) raw at w).1 h.0,
    )

    by_session :
        (authenticated has : Bool) (s : Session) (reader : Option Text) (at : ℕ) (w : W)
        → (finished (
              if authenticated
              then if has
                then receive (main_backend parts c) s reader at (running w)
                else (smtp_error 554 (codes "no recipients"), running w)
              else (auth_required, running w))
            ≡ none)
          ↔ ((authenticated ≡ true) × (has ≡ true) × (spool_enabled c ≡ false) × (reader ≢ none))
    by_session true true s reader at w = (
      λ e. let r = (by_reader s reader at w).0 e in (refl, refl, r.0, r.1),
      λ h. (by_reader s reader at w).1 (h.2, h.3),
    )
    by_session true false s reader at w = (unfold finished in cc, cc)
    by_session false has s reader at w = (unfold finished in cc, cc)

    -- The handler of DATA that the program runs panics exactly when the spool is disabled and a
    -- message of an authenticated session with a recipient was read, and finishes in all other cases.
    pub data_command-panics :
        (s : Session) (reader : Option Text) (at : ℕ) (w : W)
        → (finished (data_command (main_backend parts c) s reader at (running w)) ≡ none) ↔ (
            (s.authenticated ≡ true)
            × (has_rcpts s.rcpts ≡ true)
            × (spool_enabled c ≡ false)
            × (reader ≢ none))
    unfolding data_command
    data_command-panics s reader at w = by_session s.authenticated (has_rcpts s.rcpts) s reader at w
