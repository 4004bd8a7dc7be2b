-- ===== src/Smtp/Trace.antt =====
-- What a session can become under any sequence of commands, and what an accepted message means.
use smtp_store.Base.{
  ℕ, ◌≡◌, refl, ap, Bool, true, false, Option, none, some, List, [], ◌∷◌, ◌⊎◌, inl, inr, Text,
  codes, Unicode, Bool-cases, text_eq, trim_space, if◌then◌else◌,
}
use smtp_store.Base.Strings.Equality.{text_eq_sound}
use smtp_store.Base.Dict.{Dict, lookup}
use smtp_store.Base.Os.{Error, Outcome, ok, err}
use smtp_store.Storage.Errors.{is_unavailable_error}
use smtp_store.Storage.Result.{Result}
use smtp_store.Smtp.Session.{
  Reply, smtp_error, accepted, auth_required, Stored, stored, failed, smtp, other, Backend, Session,
  new_session, reset, matches, user_key, authenticate, mail, rcpt, after_store, after_spool,
  deliver, receive, report_fault, has_rcpts, data_command,
}
use smtp_store.Smtp.Login.{}

module _ ⦃u : Unicode⦄ (users : Dict Text) where
  -- One command of the library on a session, with the names and passwords that the client gave so
  -- far, the last first. LOGIN and PLAIN come down to `authenticate`.
  pub data Step (given : List (Text × Text)) (s : Session)
      : List (Text × Text) → Session → Type 0 where
    auth_step :
        (username password : Text)
        → Step given s ((username, password) ∷ given) (authenticate users username password s).1
    mail_step : (from : Text) → Step given s given (mail from s).1
    rcpt_step : (to : Text) → Step given s given (rcpt to s).1
    reset_step : Step given s given (reset s)

  -- The sessions of a connection, behind what its client gave.
  pub data Reach : List (Text × Text) → Session → Type 0 where
    start : (n : ℕ) → Reach [] (new_session n).1
    next_step :
        {given given' : List (Text × Text)} {s t : Session}
        → Reach given s
        → Step given s given' t
        → Reach given' t

  -- A name and a password are among those that were given.
  abbrev pub IsGiven : Text × Text → List (Text × Text) → Type 0
  IsGiven login [] = ⊥
  IsGiven login (other_login ∷ given) = (other_login ≡ login) ⊎ IsGiven login given

  -- The client gave a user's name with the password stored for it, and the session bears the key of
  -- this name.
  abbrev pub LoggedIn : List (Text × Text) → Session → Type 0
  LoggedIn given s =
      (username password : Text) × IsGiven (username, password) given
      × (lookup (user_key username) users ≡ some password)
      × (s.username ≡ user_key username)

  abbrev HasLogin : List (Text × Text) → Session → Type 0
  HasLogin given s = s.authenticated ≡ true → LoggedIn given s

  matches-some : (o : Option Text) (password : Text) → matches o password ≡ true → o ≡ some password
  unfolding matches
  matches-some none password h = cc
  matches-some (some stored_password) password h = ap some (text_eq_sound _ _ h)

  authenticate-HasLogin :
      (given : List (Text × Text)) (username password : Text) (s : Session)
      → HasLogin given s
      → HasLogin ((username, password) ∷ given) (authenticate users username password s).1
  unfolding authenticate
  authenticate-HasLogin given username password s h =
      elim (Bool-cases (matches (lookup (user_key username) users) password)) [
        | inl good ↦
            rw (good, authenticate)
              (λ _. (username, password, inl refl, matches-some _ password good, refl))
        | inr bad ↦
            rw (bad, authenticate)
              (λ k.
                let (name, word, among, known, bears) = h k in
                (name, word, inr among, known, bears))
      ]

  module _ (given : List (Text × Text)) where
    if-HasLogin :
        (b : Bool) (r r' : Reply × Session)
        → HasLogin given r.1
        → HasLogin given r'.1
        → HasLogin given (if◌then◌else◌ {A = Reply × Session} b r r').1
    if-HasLogin true r r' h k = h
    if-HasLogin false r r' h k = k

    mail-HasLogin : (from : Text) (s : Session) → HasLogin given s → HasLogin given (mail from s).1
    unfolding mail
    mail-HasLogin from s h =
        if-HasLogin s.authenticated (accepted, record s { from = trim_space from })
          (auth_required, s) h h

    rcpt-HasLogin : (to : Text) (s : Session) → HasLogin given s → HasLogin given (rcpt to s).1
    unfolding rcpt
    rcpt-HasLogin to s h = elim (Bool-cases (text_eq (trim_space to) [])) [
      | inl empty ↦ rw (empty, rcpt) h
      | inr full ↦ rw (full, rcpt) h
    ]

  Step-HasLogin :
      {given given' : List (Text × Text)} {s t : Session}
      → HasLogin given s
      → Step given s given' t
      → HasLogin given' t
  unfolding reset
  Step-HasLogin {given} {given'} {s} h (auth_step username password) =
      authenticate-HasLogin given username password s h
  Step-HasLogin {given} {given'} {s} h (mail_step from) = mail-HasLogin given from s h
  Step-HasLogin {given} {given'} {s} h (rcpt_step to) = rcpt-HasLogin given to s h
  Step-HasLogin h reset_step = h

  -- Whatever commands a client sends, a session counts as authenticated only if the client has given
  -- a name with the password that is stored for it, and it bears the key of this name.
  pub Reach-LoggedIn :
      {given : List (Text × Text)} {s : Session}
      → Reach given s
      → s.authenticated ≡ true
      → LoggedIn given s
  Reach-LoggedIn (start n) = unfold new_session in λ h. cc
  Reach-LoggedIn (next_step r st) = Step-HasLogin (Reach-LoggedIn r) st

module _ ⦃u : Unicode⦄ {E : Type 0} (b : Backend E) where
  -- The message is with the spool, or it was written to the storage.
  abbrev pub IsDurable : Text → ℕ → E → Type 0
  IsDurable raw received_at env =
      ((spool : Text → ℕ → E → Outcome Text × E) × (id : Text) × (env' : E) × (b.spooler
          ≡ some spool)
        × (spool raw received_at env ≡ (ok id, env')))
      ⊎ ((r : Result) × (env' : E) × (b.spooler ≡ none)
          × (b.process_and_store raw received_at env ≡ (stored r, env')))

  report_fault-ne-accepted :
      (h : Option (Error → E → E)) (e : Error) (env : E) → ¬ ((report_fault h e env).0 ≡ accepted)
  unfolding report_fault
  report_fault-ne-accepted none e env = cc
  report_fault-ne-accepted (some f) e env = elim (Bool-cases (is_unavailable_error (some e))) [
    | inl lost ↦ rw (lost, report_fault) (λ h. cc)
    | inr other_error ↦ rw (other_error, report_fault) (λ h. cc)
  ]

  after_store-accepted :
      (o : Stored × E)
      → (after_store b o).0 ≡ accepted
      → (r : Result) × (env' : E) × (o ≡ (stored r, env'))
  unfolding after_store
  after_store-accepted (stored r, env') h = (r, env', refl)
  after_store-accepted (failed (smtp code message), env') h = cc
  after_store-accepted (failed (other e), env') h =
      absurd (report_fault-ne-accepted b.storage_fault_handler e env' h)

  after_spool-accepted :
      (o : Outcome Text × E)
      → (after_spool o).0 ≡ accepted
      → (id : Text) × (env' : E) × (o ≡ (ok id, env'))
  unfolding after_spool
  after_spool-accepted (ok id, env') h = (id, env', refl)
  after_spool-accepted (err e, env') h = cc

  deliver-IsDurable :
      (o : Option (Text → ℕ → E → Outcome Text × E)) (raw : Text) (received_at : ℕ) (env : E)
      → b.spooler ≡ o
      → (deliver b o raw received_at env).0 ≡ accepted
      → IsDurable raw received_at env
  unfolding deliver
  deliver-IsDurable (some spool) raw received_at env e h =
      let (id, env', done) = after_spool-accepted (spool raw received_at env) h in
      inl (spool, id, env', e, done)
  deliver-IsDurable none raw received_at env e h =
      let (r, env', done) = after_store-accepted (b.process_and_store raw received_at env) h in
      inr (r, env', e, done)

  receive-IsDurable :
      (s : Session) (reader : Option Text) (received_at : ℕ) (env : E)
      → (receive b s reader received_at env).0 ≡ accepted
      → (raw : Text) × (reader ≡ some raw) × IsDurable raw received_at env
  unfolding receive
  receive-IsDurable s none received_at env h = cc
  receive-IsDurable s (some raw) received_at env h =
      (raw, refl, deliver-IsDurable b.spooler raw received_at env refl h)

  -- `Data` accepts a message only from a session that is authenticated and has a recipient, after
  -- the whole message was read, and once the spool has taken it or, where there is no spool, the
  -- storage has written it.
  pub data_command-IsDurable :
      (s : Session) (reader : Option Text) (received_at : ℕ) (env : E)
      → (data_command b s reader received_at env).0 ≡ accepted
      → (s.authenticated ≡ true)
        × (has_rcpts s.rcpts ≡ true)
        × ((raw : Text) × (reader ≡ some raw) × IsDurable raw received_at env)
  unfolding data_command
  data_command-IsDurable s reader received_at env h =
      allowed s.authenticated (has_rcpts s.rcpts) refl refl h
    where
      allowed :
          (a r : Bool)
          → s.authenticated ≡ a
          → has_rcpts s.rcpts ≡ r
          → (if◌then◌else◌ {A = Reply × E} a
              (if r
                then receive b s reader received_at env
                else (smtp_error 554 (codes "no recipients"), env))
              (auth_required, env)).0
            ≡ accepted
          → (s.authenticated ≡ true)
            × (has_rcpts s.rcpts ≡ true)
            × ((raw : Text) × (reader ≡ some raw) × IsDurable raw received_at env)
      allowed true true e f k = (e, f, receive-IsDurable s reader received_at env k)
      allowed true false e f k = cc
      allowed false r e f k = cc
