-- ===== src/Webui/Files.antt =====
-- What internal/webui/server.go shows of a file: `humanSize`, `detectContentType`,
-- `isInlinePreviewType`, `detectionSummaryForFile`, `detectionLabels`, `isGenericDetectionLabel`.
pub mod Size
use smtp_store.Base.{
  ℕ, zero, suc, ◌+◌, ◌*◌, ◌/◌, Bool, true, false, ◌||◌, Option, none, some, List, [], ◌∷◌, ◌++◌,
  Text, codes, Unicode, text_eq, has_prefix, trim_space, to_lower, ltb, if◌then◌else◌,
}
use smtp_store.Base.Strings.Decimal.{decimal}
use smtp_store.Base.Strings.FilePath.{ext}
use smtp_store.Base.Os.{Error, Outcome, ok, err}
use smtp_store.Classify.{Detection, Sidecar, is_one_of, is_video_path, detection_status}

pub record Info : Type 0 where
  pub name : Text
  pub is_dir : Bool
  pub size : ℕ
  pub modified : ℕ

pub record Entry : Type 0 where
  pub entry_name : Text
  pub entry_is_dir : Bool
  pub entry_info : Option Info

-- A file that the walk below the root meets; `none` where its information cannot be read.
pub record Found : Type 0 where
  pub rel : Text
  pub path : Text
  pub found_info : Option Info
  pub is_regular : Bool

-- The files as the operating system gives them out, what `sniff` says of the first bytes of one, and
-- the sidecars; the registry of media types and the formats of `time` and of `%.1f`.
pub record Disk (F : Type 0) : Type 0 where
  pub stat : Text → Outcome Info
  pub read_dir : Text → Outcome (List Entry)
  pub read_file : Text → Outcome Text
  pub sniff : Text → Outcome Text
  pub load_sidecar : Text → Option (Sidecar F)
  pub walk : List Found
  pub type_by_extension : Text → Text
  pub format_time : ℕ → Text
  pub format_tenth : ℕ → ℕ → Text

-- The loop of `humanSize`: the divisor and the exponent. `none` says that the fuel ran out.
unfoldable pub scale : ℕ → ℕ → ℕ → ℕ → Option (ℕ × ℕ)
scale zero n div exp = none
scale (suc fuel) n div exp =
    let more = scale fuel (n / 1024) (div * 1024) (exp + 1) in
    if ltb n 1024 then some (div, exp) else more

-- `"KMGTPE"[exp]`; `none` is the panic of an index that is out of range.
unfoldable pub nth : Text → ℕ → Option ℕ
nth [] i = none
nth (c ∷ s) zero = some c
nth (c ∷ s) (suc i) = nth s i

unfoldable pub with_unit : Text → Option ℕ → Option Text
with_unit number none = none
with_unit number (some letter) = some (number ++ (codes " " ++ (letter ∷ codes "iB")))

unfoldable pub scaled_size : (ℕ → ℕ → Text) → ℕ → Option (ℕ × ℕ) → Option Text
unfolding nth with_unit
scaled_size format_tenth size none = none
scaled_size format_tenth size (some (div, exp)) =
    with_unit (format_tenth size div) (nth (codes "KMGTPE") exp)

unfoldable pub human_size : (ℕ → ℕ → Text) → ℕ → Option Text
unfolding scaled_size scale
human_size format_tenth size =
    if ltb size 1024
    then some (decimal size ++ codes " B")
    else scaled_size format_tenth size (scale 64 (size / 1024) 1024 0)

pub record Summary : Type 0 where
  pub detect_state : Text
  pub has_person : Bool
  pub has_animal : Bool
  pub has_vehicle : Bool
  pub detect_labels : List Text

abbrev pub no_summary : Text → Summary
no_summary state = record {
  detect_state = state;
  has_person = false;
  has_animal = false;
  has_vehicle = false;
  detect_labels = [];
}

abbrev pub generic_labels : List Text
generic_labels =
    codes "person"
    ∷ codes "people"
    ∷ codes "human"
    ∷ codes "animal"
    ∷ codes "vehicle"
    ∷ codes "car"
    ∷ []

unfoldable pub sniffed : Text → Outcome Text → Outcome Text
sniffed known read = if text_eq known [] then read else ok known

module _ ⦃u : Unicode⦄ where
  unfoldable pub is_generic_detection_label : Text → Text → Bool
  unfolding is_one_of
  is_generic_detection_label label category =
      text_eq label (trim_space (to_lower category)) || is_one_of label generic_labels

  -- One round of the loop: the label is added, or skipped.
  unfoldable pub skips_label : Text → Text → List Text → Bool
  unfolding is_generic_detection_label is_one_of
  skips_label label category seen =
      text_eq label [] || is_generic_detection_label label category || is_one_of label seen

  module _ {F : Type 0} where
    unfoldable pub labels_from : List Text → List (Detection F) → List Text
    unfolding skips_label
    labels_from seen [] = []
    labels_from seen (d ∷ ds) =
        let label = trim_space (to_lower d.label) in
        let without = labels_from seen ds in
        let with_it = label ∷ labels_from (label ∷ seen) ds in
        if skips_label label d.category seen then without else with_it

    unfoldable pub detection_labels : Sidecar F → List Text
    unfolding labels_from
    detection_labels s = labels_from [] s.detections

    -- A video without a sidecar that can be read is pending.
    unfoldable pub summary_of_sidecar : Option (Sidecar F) → Summary
    unfolding detection_labels
    summary_of_sidecar none = no_summary (codes "pending")
    summary_of_sidecar (some s) = record {
      detect_state = detection_status (some s);
      has_person = s.has_person;
      has_animal = s.has_animal;
      has_vehicle = s.has_vehicle;
      detect_labels = detection_labels s;
    }

    unfoldable pub detection_summary_for_file : Disk F → Text → Summary
    unfolding summary_of_sidecar
    detection_summary_for_file disk path =
        if is_video_path path then summary_of_sidecar (disk.load_sidecar path) else no_summary []

    -- `detectContentType`.
    unfoldable pub detect_content_type : Disk F → Text → Outcome Text
    unfolding sniffed
    detect_content_type disk path =
        sniffed (disk.type_by_extension (to_lower (ext path))) (disk.sniff path)

  unfoldable pub is_inline_preview_type : Text → Bool
  is_inline_preview_type content_type =
      let t = to_lower content_type in
      has_prefix t (codes "image/")
      || has_prefix t (codes "video/")
      || has_prefix t (codes "audio/")
      || has_prefix t (codes "text/")
      || has_prefix t (codes "application/pdf")
