-- ===== src/Smtp/Session.antt =====
-- `session` and `backend` of internal/smtpserver/server.go. The store, the spool, the classifier's
-- queue and the index are reached through functions on the state `E` behind the backend.
use smtp_store.Base.{
  ℕ, ◌+◌, Bool, true, false, Option, none, some, List, [], ◌∷◌, ◌++◌, Text, codes, Unicode, text_eq,
  to_lower, trim_space, equal_fold, if◌then◌else◌,
}
use smtp_store.Base.Dict.{Dict, lookup}
use smtp_store.Base.Os.{Error, Outcome, ok, err}
use smtp_store.Storage.Errors.{is_unavailable_error}
use smtp_store.Storage.Result.{Result}

-- The answers of a session: the codes of `smtp.SMTPError` with their messages, and the errors of the
-- SMTP library.
pub data Reply : Type 0 where
  accepted : Reply
  smtp_error : ℕ → Text → Reply
  auth_failed : Reply
  unknown_mechanism : Reply

-- An error of the store: `errors.As` finds an `smtp.SMTPError` in it, or not.
pub data StoreError : Type 0 where
  smtp : ℕ → Text → StoreError
  other : Error → StoreError

pub data Stored : Type 0 where
  stored : Result → Stored
  failed : StoreError → Stored

-- The users by name, and the parts that a session calls; `none` is an interface that is nil.
pub record Backend (E : Type 0) : Type 0 where
  pub users : Dict Text
  pub process_and_store : Text → ℕ → E → Stored × E
  pub spooler : Option (Text → ℕ → E → Outcome Text × E)
  pub video_enqueuer : Option (Text → E → E)
  pub file_indexer : Option (Text → E → E)
  pub storage_fault_handler : Option (Error → E → E)

pub record Session : Type 0 where
  pub conn_id : ℕ
  pub authenticated : Bool
  pub username : Text
  pub from : Text
  pub rcpts : List Text

-- `NewSession`: the counter of connections goes up.
unfoldable pub new_session : ℕ → ℕ × Session
new_session next_conn_id = (
  next_conn_id + 1,
  record {
    conn_id = next_conn_id + 1;
    authenticated = false;
    username = [];
    from = [];
    rcpts = [];
  },
)

abbrev pub auth_required : Reply
auth_required = smtp_error 530 (codes "authentication required")

abbrev pub read_failed : Reply
read_failed = smtp_error 451 (codes "failed to read message body")

abbrev pub spool_unavailable : Reply
spool_unavailable = smtp_error 452 (codes "local message spool unavailable")

abbrev pub storage_unavailable : Reply
storage_unavailable = smtp_error 451 (codes "storage temporarily unavailable")

abbrev pub process_failed : Reply
process_failed = smtp_error 554 (codes "failed to process message")

pub data Mechanism : Type 0 where
  plain login : Mechanism

-- `Reset`: the login outlives it.
unfoldable pub reset : Session → Session
reset s = record s { from = []; rcpts = [] }

-- `AuthMechanisms`.
unfoldable pub auth_mechanisms : List Text
auth_mechanisms = codes "PLAIN" ∷ codes "LOGIN" ∷ []

-- `Logout`: nothing changes.
unfoldable pub logout : Session → Reply × Session
logout s = (accepted, s)

unfoldable pub has_rcpts : List Text → Bool
has_rcpts [] = false
has_rcpts (r ∷ rs) = true

module _ ⦃u : Unicode⦄ where
  -- `Auth`: the mechanism by its name.
  unfoldable pub mechanism : Text → Option Mechanism
  mechanism mech =
      if equal_fold mech (codes "PLAIN")
      then some plain
      else if equal_fold mech (codes "LOGIN")
      then some login
      else none

  unfoldable pub matches : Option Text → Text → Bool
  matches none password = false
  matches (some stored_password) password = text_eq stored_password password

  -- The key of a user: the name trimmed and in lower case.
  unfoldable pub user_key : Text → Text
  user_key username = to_lower (trim_space username)

  -- `authenticate`.
  unfoldable pub authenticate : Dict Text → Text → Text → Session → Reply × Session
  unfolding matches user_key
  authenticate users username password s =
      if matches (lookup (user_key username) users) password
      then (accepted, record s { authenticated = true; username = user_key username })
      else (auth_failed, s)

  -- `Mail`: MAIL FROM.
  unfoldable pub mail : Text → Session → Reply × Session
  mail from s =
      if s.authenticated
      then (accepted, record s { from = trim_space from })
      else (auth_required, s)

  -- `Rcpt`: RCPT TO.
  unfoldable pub rcpt : Text → Session → Reply × Session
  unfolding text_eq
  rcpt to s =
      if text_eq (trim_space to) []
      then (smtp_error 501 (codes "empty recipient"), s)
      else (accepted, record s { rcpts = s.rcpts ++ trim_space to ∷ [] })

  module _ {E : Type 0} where
    -- A loop over attachment paths.
    unfoldable pub each : (Text → E → E) → List Text → E → E
    each f [] env = env
    each f (p ∷ ps) env = each f ps (f p env)

    unfoldable pub enqueue_videos : Option (Text → E → E) → Result → E → E
    unfolding each
    enqueue_videos none r env = env
    enqueue_videos (some f) r env = each f r.attachment_paths env

    -- The body first, then each attachment; an error of the index is logged only.
    unfoldable pub index_files : Option (Text → E → E) → Result → E → E
    unfolding each
    index_files none r env = env
    index_files (some f) r env = each f r.attachment_paths (f r.body_path env)

    unfoldable pub report_fault : Option (Error → E → E) → Error → E → Reply × E
    report_fault none e env = (process_failed, env)
    report_fault (some handler) e env =
        if is_unavailable_error (some e)
        then (storage_unavailable, handler e env)
        else (process_failed, env)

    unfoldable pub after_store : Backend E → Stored × E → Reply × E
    unfolding enqueue_videos index_files report_fault
    after_store b (stored r, env) =
        (accepted, index_files b.file_indexer r (enqueue_videos b.video_enqueuer r env))
    after_store b (failed (smtp code message), env) = (smtp_error code message, env)
    after_store b (failed (other e), env) = report_fault b.storage_fault_handler e env

    unfoldable pub after_spool : Outcome Text × E → Reply × E
    after_spool (ok id, env) = (accepted, env)
    after_spool (err e, env) = (spool_unavailable, env)

    -- The message is spooled where there is a spool, and stored at once where there is none.
    unfoldable pub deliver :
        Backend E → Option (Text → ℕ → E → Outcome Text × E) → Text → ℕ → E → Reply × E
    unfolding after_store after_spool
    deliver b (some spool) raw received_at env = after_spool (spool raw received_at env)
    deliver b none raw received_at env = after_store b (b.process_and_store raw received_at env)

    -- `Data`: the session itself does not change. `none` is a reader that fails.
    unfoldable pub receive : Backend E → Session → Option Text → ℕ → E → Reply × E
    unfolding deliver
    receive b s none received_at env = (read_failed, env)
    receive b s (some raw) received_at env = deliver b b.spooler raw received_at env

    unfoldable pub data_command : Backend E → Session → Option Text → ℕ → E → Reply × E
    unfolding receive has_rcpts
    data_command b s reader received_at env =
        if s.authenticated
        then if has_rcpts s.rcpts
          then receive b s reader received_at env
          else (smtp_error 554 (codes "no recipients"), env)
        else (auth_required, env)
