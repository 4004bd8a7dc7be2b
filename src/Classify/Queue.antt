-- ===== src/Classify/Queue.antt =====
-- The queue of `Service` in internal/classify/service.go: `Enqueue`, `enqueueBackfill` and `worker`.
-- `filepath.Abs` is a parameter. The channel is a list with room for `queueSize` jobs; a path stays
-- in `queued` until the worker is done with it.
pub mod Steps
use smtp_store.Base.{
  ℕ, ◌*◌, Bool, true, false, not, ◌&&◌, ◌||◌, List, [], ◌∷◌, ◌++◌, Text, codes, Unicode, text_eq,
  has_prefix, ltb, length, if◌then◌else◌,
}
use smtp_store.Base.Os.{Outcome, ok, err}
use smtp_store.Classify.{is_one_of, is_video_path, is_detection_sidecar_path}

pub record Job : Type 0 where
  pub video_path : Text
  pub notify : Bool

pub record Service : Type 0 where
  pub storage_root_abs : Text
  pub queue : List Job
  pub queued : List Text

abbrev pub queue_size : ℕ
queue_size = 1024

-- `retryBackoff`, in nanoseconds.
unfoldable pub retry_backoff : ℕ → ℕ
retry_backoff attempt = attempt * attempt * 1000000000

-- `delete(s.queued, path)`.
unfoldable pub without : Text → List Text → List Text
without path [] = []
without path (p ∷ ps) = let rest = without path ps in if text_eq path p then rest else p ∷ rest

-- The root itself, or a path below it.
unfoldable pub is_below_root : Text → Text → Bool
is_below_root root path = text_eq path root || has_prefix path (root ++ codes "/")

-- A path that was put into `queued` is taken out again when the channel is full.
unfoldable pub send : Text → Bool → Service → Bool × Service
unfolding without
send path notify s =
    if ltb (length s.queue) queue_size
    then (true, record s { queue = s.queue ++ record { video_path = path; notify = notify } ∷ [] })
    else (false, record s { queued = without path s.queued })

unfoldable pub add_path : Text → Bool → Service → Bool × Service
unfolding send is_below_root is_one_of
add_path path notify s =
    if is_below_root s.storage_root_abs path && not (is_one_of path s.queued)
    then send path notify (record s { queued = path ∷ s.queued })
    else (false, s)

unfoldable pub add_abs : Outcome Text → Bool → Service → Bool × Service
unfolding add_path
add_abs (err e) notify s = (false, s)
add_abs (ok path) notify s = add_path path notify s

module _ ⦃u : Unicode⦄ (abs : Text → Outcome Text) where
  unfoldable pub add_video : Text → Bool → Service → Bool × Service
  unfolding add_abs
  add_video path notify s =
      if not (is_video_path path) || is_detection_sidecar_path path
      then (false, s)
      else add_abs (abs path) notify s

  -- `Enqueue` and `enqueueBackfill`, which differ in what is published.
  unfoldable pub enqueue_video : Text → Service → Bool × Service
  unfolding add_video
  enqueue_video path s = add_video path true s

  unfoldable pub enqueue_backfill : Text → Service → Bool × Service
  unfolding add_video
  enqueue_backfill path s = add_video path false s

module _ {W : Type 0} (process : Text → Bool → W → W) where
  -- One round of `worker`, with the first job of the channel.
  unfoldable pub work : Service → W → Service × W
  unfolding without
  work s w = elim (s.queue) [
    | [] ↦ (s, w)
    | job ∷ rest ↦ (
      record s { queue = rest; queued = without job.video_path s.queued },
      process job.video_path job.notify w,
    )
  ]
