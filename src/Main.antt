-- ===== src/Main.antt =====
-- cmd/smtp-store/main.go: the parts made in their order, and how they are handed to one another. A Go
-- pointer that is nil, put into an interface, is not a nil interface: its methods run with a nil
-- receiver, and panic where they reach for a field.
pub mod Wiring
pub mod Startup
mod Tests
use smtp_store.Base.{
  ℕ, Bool, true, false, not, ◌||◌, Option, none, some, List, [], ◌∷◌, ◌++◌, Text, Unicode,
  if◌then◌else◌,
}
use smtp_store.Base.Os.{Error, Outcome, ok, err, new_error, ◌>>=◌, ◌>>◌}
use smtp_store.Storage.Result.{Result}
use smtp_store.Config.{Config}
use smtp_store.Config.Getters.{spool_enabled, classification_enabled, mqtt_enabled, index_enabled}
use smtp_store.Config.Users.{user_map}
use smtp_store.Classify.{is_video_path, is_detection_sidecar_path}
use smtp_store.Smtp.Session.{Stored, failed, other, Backend, each}

-- The state behind the parts, or a handler that has panicked.
pub data Run (W : Type 0) : Type 0 where
  running : W → Run W
  panicked : Run W

unfoldable pub live : {W : Type 0} → (W → W) → Run W → Run W
live f (running w) = running (f w)
live f panicked = panicked

-- A method with a result; behind a panic there is none, and `absent` stands for it.
unfoldable pub live_with : {W A : Type 0} → A → (W → A × W) → Run W → A × Run W
live_with absent f (running w) = let r = f w in (r.0, running r.1)
live_with absent f panicked = (absent, panicked)

-- What the client of a handler gets: nothing from one that panicked.
unfoldable pub finished : {W A : Type 0} → A × Run W → Option (A × W)
finished (a, running w) = some (a, w)
finished (a, panicked) = none

-- The methods of the parts, with receivers that are not nil.
pub record Parts (W : Type 0) : Type 0 where
  pub process_and_store : Text → ℕ → W → Stored × W
  pub enqueue_message : Text → ℕ → W → Outcome Text × W
  pub enqueue_video : Text → W → W
  pub upsert_path : Text → W → W
  pub abs : Text → Outcome Text
  pub fault : Error → W → W

abbrev pub nil_receiver : Error
nil_receiver = new_error []

module _ {W : Type 0} (parts : Parts W) where
  -- `(*spool.Queue).Enqueue`; its first step takes the mutex of the receiver.
  unfoldable pub spool_method : Bool → Text → ℕ → Run W → Outcome Text × Run W
  unfolding live_with
  spool_method true raw at r = live_with (err nil_receiver) (parts.enqueue_message raw at) r
  spool_method false raw at r = (err nil_receiver, panicked)

  -- `(*fileindex.Index).UpsertPath`; a nil index does nothing.
  unfoldable pub index_method : Bool → Text → Run W → Run W
  unfolding live
  index_method true path r = live (parts.upsert_path path) r
  index_method false path r = r

  -- `(*classify.Service).Enqueue`; without a service, a video whose path can be made absolute is looked
  -- up below the service's root.
  unfoldable pub nil_service : Outcome Text → Run W → Run W
  nil_service (err e) r = r
  nil_service (ok path) r = panicked

  module _ ⦃u : Unicode⦄ where
    unfoldable pub video_method : Bool → Text → Run W → Run W
    unfolding live nil_service
    video_method true path r = live (parts.enqueue_video path) r
    video_method false path r =
        if not (is_video_path path) || is_detection_sidecar_path path
        then r
        else nil_service (parts.abs path) r

    module _ {F : Type 0} (c : Config F) where
      -- The arguments that `main` gives to `NewWithSpooler`.
      unfoldable pub main_backend : Backend (Run W)
      unfolding spool_method video_method index_method
      main_backend = record {
        users = user_map c;
        process_and_store =
            λ raw at r. live_with (failed (other nil_receiver)) (parts.process_and_store raw at) r;
        spooler = some (spool_method (spool_enabled c));
        video_enqueuer = some (video_method (classification_enabled c));
        file_indexer = some (index_method (index_enabled c));
        storage_fault_handler = some (λ e r. live (parts.fault e) r);
      }

      -- `postStore`, which tests the pointers themselves.
      unfoldable pub post_store_videos : Bool → Result → W → W
      post_store_videos true result w = each parts.enqueue_video result.attachment_paths w
      post_store_videos false result w = w

      unfoldable pub post_store_index : Bool → Result → W → W
      post_store_index true result w =
          each parts.upsert_path result.attachment_paths (parts.upsert_path result.body_path w)
      post_store_index false result w = w

      unfoldable pub post_store : Result → W → W
      unfolding post_store_videos post_store_index
      post_store result w =
          post_store_index (index_enabled c) result
            (post_store_videos (classification_enabled c) result w)

-- `storageFaultHandler`: whether a fault was signalled, and the errors that will end the program.
pub record Signal : Type 0 where
  pub signaled : Bool
  pub scheduled : List Error

unfoldable pub signal_fault : Signal → Error → Signal
signal_fault s e =
    if s.signaled then s else record { signaled = true; scheduled = s.scheduled ++ e ∷ [] }

unfoldable pub signal_faults : Signal → List Error → Signal
unfolding signal_fault
signal_faults s [] = s
signal_faults s (e ∷ es) = signal_faults (signal_fault s e) es

-- What each constructor that `main` calls answers.
pub record Answers : Type 0 where
  pub check_writable : Option Error
  pub open_index : Option Error
  pub start_notifier : Option Error
  pub new_service : Option Error
  pub new_spool : Option Error
  pub new_smtp_server : Option Error
  pub new_web_server : Option Error

-- Which pointers are not nil when the servers start, and whether the storage's watchdog runs.
pub record Started : Type 0 where
  pub index : Bool
  pub notifier : Bool
  pub classifier : Bool
  pub spool : Bool
  pub watchdog : Bool

-- A part that is made if it is enabled; an error ends the program.
abbrev pub attempt : Bool → Option Error → Outcome (Unit {0})
attempt false answer = ok tt
attempt true none = ok tt
attempt true (some e) = err e

-- `main` up to the start of both servers.
unfoldable pub startup :
    ⦃u : Unicode⦄ → {F : Type 0} → Outcome (Config F) → Answers → Outcome Started
startup loaded a = do
  c ← loaded
  attempt (not (spool_enabled c)) a.check_writable
  attempt (index_enabled c) a.open_index
  attempt (mqtt_enabled c) a.start_notifier
  attempt (classification_enabled c) a.new_service
  attempt (spool_enabled c) a.new_spool
  attempt true a.new_smtp_server
  attempt true a.new_web_server
  ok (record {
    index = index_enabled c;
    notifier = mqtt_enabled c;
    classifier = classification_enabled c;
    spool = spool_enabled c;
    watchdog = not (spool_enabled c);
  })
