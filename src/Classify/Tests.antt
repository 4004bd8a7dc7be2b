-- ===== src/Classify/Tests.antt =====
-- Detections with their categories.
use smtp_store.Base.{
  ℕ, zero, suc, ◌+◌, refl, arith, true, false, none, List, [], ◌∷◌, ◌++◌, Text, codes, latin1,
  text_eq, has_suffix, has_prefix, to_lower, trim_space, ltb, All,
}
use smtp_store.Base.Lists.Sorted.{IsSorted}
use smtp_store.Base.Os.{Outcome, ok, err, new_error}
use smtp_store.Classify.{Detection, is_video_path, is_detection_sidecar_path}
use smtp_store.Base.Strings.FilePath.{ext}
use smtp_store.Classify.Queue.{add_video}
use smtp_store.Classify.Queue.Steps.{
  State, add_step, take_step, Reach, start, next_step, IsExclusive, Reach-IsExclusive,
}
use smtp_store.Classify.Detections.{Confidence, normalize_detections}
use smtp_store.Classify.Detections.Normal.{IsOrder, IsKept, greater, normalize_detections-IsNormal}
use smtp_store.Classify.Process.{Response, Tools, Progress, process_with_retry}
use smtp_store.Classify.Process.Final.{Ends, process_with_retry-Ends}
use smtp_store.Classify.Process.Flags.{AreConsistent, process_with_retry-AreConsistent}
use smtp_store.Classify.Category.{normalize_category}
use smtp_store.Classify.Laws.{IsChosen, normalize_category-IsChosen}

normalize_category-IsChosen_example :
    IsChosen
      (to_lower ⦃u = latin1⦄
        (trim_space ⦃u = latin1⦄ (codes "Vehicle" ++ codes " " ++ codes "van")))
      (normalize_category ⦃u = latin1⦄ (codes "Vehicle") (codes "van"))
normalize_category-IsChosen_example =
    normalize_category-IsChosen ⦃u = latin1⦄ (codes "Vehicle") (codes "van")

-- Confidences in hundredths, whose threshold is 60.
abbrev hundredths : Confidence ℕ
hundredths = record { below = ltb; is_percent = λ n. false; part = λ n. n }

hundredths-IsOrder : IsOrder hundredths
hundredths-IsOrder = record {
  not_below_trans = λ x y z h k. ground arith;
  below_asym = λ x y h. ground arith;
}

abbrev found : List (Detection ℕ)
found =
    record { category = codes "Animal"; label = codes "Fox"; confidence = 70 }
    ∷ record { category = codes "Person"; label = codes "man"; confidence = 90 }
    ∷ record { category = codes "Person"; label = codes "child"; confidence = 20 }
    ∷ []

normalize_detections-IsNormal_example :
    All (IsKept ⦃u = latin1⦄ hundredths 60) (normalize_detections ⦃u = latin1⦄ hundredths 60 found)
    × IsSorted (greater hundredths) (normalize_detections ⦃u = latin1⦄ hundredths 60 found)
normalize_detections-IsNormal_example =
    normalize_detections-IsNormal ⦃u = latin1⦄ hundredths 60 hundredths-IsOrder found

-- The first call of the provider fails, and the second goes well.
abbrev answer : ℕ → Outcome (Response ℕ)
answer zero = err (new_error (codes "no"))
answer (suc zero) = err (new_error (codes "busy"))
answer (suc (suc n)) = ok (record { detections = found; raw_response = [] })

abbrev tools : Tools ℕ
tools = record {
  now = λ n. n ∷ [];
  extract_frames = λ n. ok (codes "jpg" ∷ []);
  is_ffmpeg_unavailable = λ e. false;
  classify_video = λ n frames. answer n;
  write_file = λ payload. none;
  thumbnail_rel = ok (codes "cam/v.mp4.thumb.jpg");
  notifier = none;
  confidence = hundredths;
  threshold = 60;
  store_raw = false;
}

abbrev progress : Progress ℕ
progress = record { written = []; ticks = 0; cancels = [] }

process_with_retry-Ends_example : Ends tools (3 + 1) (
    process_with_retry tools ⦃u = latin1⦄
      (codes "cam/v.mp4")
      none
      (codes "gemini")
      (codes "flash")
      true
      3
      progress)
process_with_retry-Ends_example =
    process_with_retry-Ends tools ⦃u = latin1⦄ (codes "cam/v.mp4") none (codes "gemini")
      (codes "flash") true 3 progress refl

process_with_retry-AreConsistent_example : AreConsistent (
    process_with_retry tools ⦃u = latin1⦄
      (codes "cam/v.mp4")
      none
      (codes "gemini")
      (codes "flash")
      true
      3
      progress)
process_with_retry-AreConsistent_example =
    process_with_retry-AreConsistent tools ⦃u = latin1⦄ (codes "cam/v.mp4") none (codes "gemini")
      (codes "flash") true 3 progress tt

abbrev idle : State
idle = record {
  service = record { storage_root_abs = codes "/srv"; queue = []; queued = [] };
  running = [];
}

abbrev ok_abs : Text → Outcome Text
ok_abs path = ok path

abbrev one_queued : State
one_queued = record idle {
  service = (add_video ⦃u = latin1⦄ ok_abs (codes "/srv/v.mp4") true idle.service).1;
}

abbrev one_running : State
one_running = record {
  service = record (one_queued.service) { queue = [] };
  running = codes "/srv/v.mp4" ∷ [];
}

one_running-Reach : Reach ⦃u = latin1⦄ ok_abs one_running
unfolding add_video is_video_path text_eq to_lower ext is_detection_sidecar_path has_suffix
    has_prefix
one_running-Reach =
    next_step (next_step (start (codes "/srv")) (add_step (codes "/srv/v.mp4") true))
      (take_step (record { video_path = codes "/srv/v.mp4"; notify = true }) [] refl)

Reach-IsExclusive_example : IsExclusive one_running
Reach-IsExclusive_example = Reach-IsExclusive ⦃u = latin1⦄ ok_abs one_running-Reach
