-- ===== src/Classify/Process.antt =====
-- `processWithRetry` of internal/classify/service.go, with `sidecarForVideo` of types.go and
-- `writeThumbnail`. A sidecar that is written is indexed at once, and errors of both are logged only:
-- the state keeps the sidecars in the order of their writes, the last one first. The frame extractor,
-- the provider and the notifier answer by the number of the attempt; the context is done or not by a
-- script, and the formatted time is that of the count of calls of the clock.
pub mod Final
pub mod Flags
use smtp_store.Base.{
  ℕ, zero, suc, ◌+◌, Bool, true, false, ◌&&◌, Option, none, some, List, [], ◌∷◌, ◌++◌, Text, codes,
  Unicode, if◌then◌else◌,
}
use smtp_store.Base.Int.{ℤ, pos}
use smtp_store.Base.Os.{Error, Outcome, ok, err, new_error}
use smtp_store.Classify.{Detection, Sidecar}
use smtp_store.Classify.Category.{has_category}
use smtp_store.Classify.Detections.{Confidence, normalize_detections}

pub record Response (F : Type 0) : Type 0 where
  pub detections : List (Detection F)
  pub raw_response : Text

pub record Tools (F : Type 0) : Type 0 where
  pub now : ℕ → Text
  pub extract_frames : ℕ → Outcome (List Text)
  pub is_ffmpeg_unavailable : Error → Bool
  pub classify_video : ℕ → List Text → Outcome (Response F)
  pub write_file : Text → Option Error
  pub thumbnail_rel : Outcome Text
  pub notifier : Option (Sidecar F → Option Error)
  pub confidence : Confidence F
  pub threshold : F
  pub store_raw : Bool

pub record Progress (F : Type 0) : Type 0 where
  pub written : List (Sidecar F)
  pub ticks : ℕ
  pub cancels : List Bool

-- What `ctx.Done()` says, and the script behind it.
abbrev pub is_done : List Bool → Bool × List Bool
is_done [] = (false, [])
is_done (b ∷ bs) = (b, bs)

-- The sidecar of an attempt.
abbrev pub pending_at : {F : Type 0} → Sidecar F → ℕ → Sidecar F
pending_at base attempt = record base { attempts = pos attempt; state = codes "pending" }

-- `sidecarForVideo`: the relative path, and the size and the time of the file if it is there.
abbrev pub size_of : Option (ℕ × Text) → ℕ
size_of none = 0
size_of (some (size, time)) = size

abbrev pub time_of : Option (ℕ × Text) → Text
time_of none = []
time_of (some (size, time)) = time

unfoldable pub sidecar_for_video :
    {F : Type 0} → Text → Option (ℕ × Text) → Text → Text → Text → Sidecar F
sidecar_for_video rel info provider model now = record {
  schema_version = pos 2;
  relative_path = rel;
  file_size = pos (size_of info);
  file_mod_time = time_of info;
  state = [];
  provider = provider;
  model = model;
  attempts = pos 0;
  updated_at = now;
  last_error = [];
  detections = [];
  has_person = false;
  has_animal = false;
  has_vehicle = false;
  thumbnail_path = [];
  mqtt_published_at = [];
  mqtt_last_error = [];
  raw_response = [];
}

abbrev pub message_of : Option Error → Text
message_of none = []
message_of (some e) = e.message

module _ {F : Type 0} where
  unfoldable pub waited : (Progress F → Progress F) → Bool × List Bool → Progress F → Progress F
  waited next (true, rest) p = record p { cancels = rest }
  waited next (false, rest) p = next (record p { cancels = rest })

  -- The wait before another attempt; there is none behind the last.
  unfoldable pub back_off : ℕ → (Progress F → Progress F) → Progress F → Progress F
  unfolding waited
  back_off zero next p = next p
  back_off (suc more) next p = waited next (is_done p.cancels) p

module _ {F : Type 0} (tools : Tools F) where
  unfoldable pub thumbnail_at : Option Error → Outcome Text
  thumbnail_at (some e) = err e
  thumbnail_at none = tools.thumbnail_rel

  -- `writeThumbnail`.
  unfoldable pub write_thumbnail : Text → Outcome Text
  unfolding thumbnail_at
  write_thumbnail [] = err (new_error (codes "empty thumbnail payload"))
  write_thumbnail (b ∷ payload) = thumbnail_at (tools.write_file (b ∷ payload))

  abbrev pub path_or : Text → Outcome Text → Text
  path_or old (ok path) = path
  path_or old (err e) = old

  unfoldable pub thumbnail_of : Text → List Text → Text
  unfolding write_thumbnail
  thumbnail_of old [] = old
  thumbnail_of old (frame ∷ frames) = path_or old (write_thumbnail frame)

  -- A sidecar with the time of now.
  unfoldable pub stamped : Sidecar F → Progress F → Sidecar F
  stamped s p = record s { updated_at = tools.now p.ticks }

  unfoldable pub write_sidecar : Sidecar F → Progress F → Progress F
  write_sidecar s p = record p { written = s ∷ p.written }

  unfoldable pub write_now : Sidecar F → Progress F → Progress F
  unfolding stamped
  write_now s p = record p { written = stamped s p ∷ p.written; ticks = p.ticks + 1 }

  -- The sidecar after the notifier has answered, and the time of its success.
  unfoldable pub notified : Sidecar F → Option Error → Progress F → Progress F
  unfolding write_now
  notified s (some e) p =
      write_now (record s { mqtt_last_error = e.message; mqtt_published_at = [] }) p
  notified s none p =
      write_now (record s { mqtt_last_error = []; mqtt_published_at = tools.now p.ticks })
        (record p { ticks = p.ticks + 1 })

  unfoldable pub notify_if :
      Bool → Option (Sidecar F → Option Error) → Sidecar F → Progress F → Progress F
  unfolding notified
  notify_if publish none s p = p
  notify_if false (some notifier) s p = p
  notify_if true (some notifier) s p = notified s (notifier s) p

  module _ ⦃u : Unicode⦄ where
    -- The sidecar of a response.
    unfoldable pub success : Sidecar F → List Text → Response F → Sidecar F
    unfolding thumbnail_of
    success s frames r =
        let normalized = normalize_detections tools.confidence tools.threshold r.detections in
        record s {
          state = codes "success";
          last_error = [];
          detections = normalized;
          has_person = has_category normalized (codes "person");
          has_animal = has_category normalized (codes "animal");
          has_vehicle = has_category normalized (codes "vehicle");
          thumbnail_path = thumbnail_of s.thumbnail_path frames;
          raw_response = if tools.store_raw then r.raw_response else s.raw_response;
        }

  module _ ⦃u : Unicode⦄ (publish : Bool) where
    unfoldable pub succeed : Sidecar F → Progress F → Progress F
    unfolding notify_if write_now
    succeed s p = notify_if publish tools.notifier (stamped s p) (write_now s p)

    unfoldable pub classified :
        (Error → Progress F → Progress F)
        → Sidecar F
        → List Text
        → Outcome (Response F)
        → Progress F
        → Progress F
    unfolding succeed success
    classified again s frames (err e) p = again e p
    classified again s frames (ok r) p = succeed (success s frames r) p

    unfoldable pub extracted :
        (Error → Progress F → Progress F)
        → ℕ
        → Sidecar F
        → Outcome (List Text)
        → Progress F
        → Progress F
    unfolding classified
    extracted again attempt s (err e) p =
        if tools.is_ffmpeg_unavailable e
        then write_now (record s { state = codes "skipped"; last_error = e.message }) p
        else again e p
    extracted again attempt s (ok frames) p =
        classified again s frames (tools.classify_video attempt frames) p

  module _ ⦃u : Unicode⦄ (base : Sidecar F) (publish : Bool) where
    -- One attempt, unless the context is done; `again` is what follows its failure.
    unfoldable pub try_once :
        (Error → Progress F → Progress F) → ℕ → Bool × List Bool → Progress F → Progress F
    unfolding extracted
    try_once again attempt (true, rest) p = record p { cancels = rest }
    try_once again attempt (false, rest) p =
        let s = stamped (pending_at base attempt) p in
        extracted publish again attempt s (tools.extract_frames attempt)
          (write_now (pending_at base attempt) (record p { cancels = rest }))

    -- The attempts that are left, the number of the next one, and the last error.
    unfoldable pub attempts_from : ℕ → ℕ → ℕ → Option Error → Progress F → Progress F
    unfolding try_once back_off
    attempts_from attempts zero attempt last p =
        write_now
          (record base {
            state = codes "failed";
            attempts = pos attempts;
            last_error = message_of last;
          })
          p
    attempts_from attempts (suc more) attempt last p =
        try_once (λ e. back_off more (attempts_from attempts more (attempt + 1) (some e))) attempt
          (is_done p.cancels) p

    unfoldable pub process_base : ℕ → Progress F → Progress F
    unfolding attempts_from write_sidecar
    process_base retry_max p =
        attempts_from (retry_max + 1) (retry_max + 1) 1 none
          (write_sidecar (record base { state = codes "pending"; attempts = pos 0 }) p)

  -- `processWithRetry`, on the sidecar that `sidecarForVideo` makes.
  unfoldable pub process_with_retry :
      ⦃u : Unicode⦄ → Text → Option (ℕ × Text) → Text → Text → Bool → ℕ → Progress F → Progress F
  unfolding process_base sidecar_for_video
  process_with_retry rel info provider model publish retry_max p =
      process_base (sidecar_for_video rel info provider model (tools.now p.ticks)) publish retry_max
        (record p { ticks = p.ticks + 1 })
