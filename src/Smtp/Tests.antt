-- ===== src/Smtp/Tests.antt =====
-- Sessions with one user.
use smtp_store.Base.{
  ◌+◌, if◌then◌else◌, ℕ, ◌≡◌, refl, true, none, some, List, [], ◌∷◌, Text, codes, latin1, text_eq,
  to_lower, trim_space,
}
use smtp_store.Base.Dict.{Dict, lookup}
use smtp_store.Base.Os.{ok, new_error}
use smtp_store.Smtp.Session.{
  Reply, accepted, auth_failed, Backend, Session, failed, other, new_session, authenticate,
  has_rcpts, data_command,
}
use smtp_store.Smtp.Login.{challenge, new_login_server, run, verdict, run-verdict}
use smtp_store.Smtp.Trace.{
  Reach, LoggedIn, IsDurable, start, next_step, auth_step, Reach-LoggedIn, data_command-IsDurable,
}

abbrev users : Dict Text
users = (codes "cam", codes "secret") ∷ []

abbrev logged_in : Session
logged_in = (authenticate ⦃u = latin1⦄ users (codes " Cam") (codes "secret") (new_session 0).1).1

logged_in-Reach : Reach ⦃u = latin1⦄ users ((codes " Cam", codes "secret") ∷ []) logged_in
logged_in-Reach = next_step (start 0) (auth_step (codes " Cam") (codes "secret"))

logged_in_authenticated : logged_in.authenticated ≡ true
unfolding authenticate lookup text_eq to_lower trim_space
logged_in_authenticated = refl

Reach-LoggedIn_example : LoggedIn ⦃u = latin1⦄ users ((codes " Cam", codes "secret") ∷ []) logged_in
Reach-LoggedIn_example = Reach-LoggedIn ⦃u = latin1⦄ users logged_in-Reach logged_in_authenticated

wrong_password :
    (authenticate ⦃u = latin1⦄ users (codes "cam") (codes "other") (new_session 0).1).0
    ≡ auth_failed
unfolding authenticate lookup text_eq to_lower trim_space
wrong_password = refl

-- A spool that takes every message.
abbrev backend : Backend (List Text)
backend = record {
  users = users;
  process_and_store = λ raw received_at env. (failed (other (new_error (codes "disk"))), env);
  spooler = some (λ raw received_at env. (ok (codes "id"), raw ∷ env));
  video_enqueuer = none;
  file_indexer = none;
  storage_fault_handler = none;
}

abbrev ready : Session
ready = record {
  conn_id = 1;
  authenticated = true;
  username = codes "cam";
  from = codes "cam@x";
  rcpts = codes "door@x" ∷ [];
}

spooled_when_ready : (data_command ⦃u = latin1⦄ backend ready (some (codes "hi")) 5 []).0 ≡ accepted
unfolding data_command
spooled_when_ready = refl

data_command-IsDurable_example :
    (ready.authenticated ≡ true)
    × (has_rcpts ready.rcpts ≡ true)
    × ((raw : Text) × (some (codes "hi") ≡ some raw) × IsDurable ⦃u = latin1⦄ backend raw 5 [])
data_command-IsDurable_example =
    data_command-IsDurable ⦃u = latin1⦄ backend ready (some (codes "hi")) 5 [] spooled_when_ready

abbrev check : Text → Text → ℕ → Reply × ℕ
check user password calls = (if◌then◌else◌ (text_eq user password) accepted auth_failed, calls + 1)

run-verdict_example :
    (run check (none ∷ some (codes "cam") ∷ some (codes "cam") ∷ []) new_login_server 0 ≡ (
      challenge (codes "Username:")
          ∷ challenge (codes "Password:")
          ∷ verdict check (check (codes "cam") (codes "cam") 0).0
          ∷ [],
      1,
    ))
    × (run check (some (codes "cam") ∷ some (codes "cam") ∷ []) new_login_server 0 ≡ (
      challenge (codes "Password:") ∷ verdict check (check (codes "cam") (codes "cam") 0).0 ∷ [],
      1,
    ))
run-verdict_example = run-verdict check (codes "cam") (codes "cam") 0 (λ h. cc)
