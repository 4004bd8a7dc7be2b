-- ===== src/Fileindex.antt =====
-- internal/fileindex/index.go: the table of stored files. Its SQL statements are read as operations on
-- a table with one row for each relative path; a statement may fail, which is an argument.
-- Times are whole seconds, as the table keeps them.
mod Tests
pub mod Laws
pub mod Recent
use smtp_store.Base.{
  ℕ, zero, suc, ◌+◌, Bool, true, false, not, ◌&&◌, ◌||◌, Option, none, some, List, [], ◌∷◌, ◌++◌,
  map, Text, codes, Unicode, text_eq, text_le, has_prefix, is_blank, trim_space, to_lower,
  ascii_lower, ltb, ◌==◌, if◌then◌else◌, take, sort_by,
}
use smtp_store.Base.Strings.Split.{split}
use smtp_store.Base.Strings.Sort.{sort_texts}
use smtp_store.Base.Strings.FilePath.{slash, base_name}
use smtp_store.Base.Dict.{Dict, lookup, insert}
use smtp_store.Base.Os.{Error, Outcome, ok, err, new_error, ◌>>=◌}
use smtp_store.Classify.{
  Detection, Sidecar, is_one_of, is_video_path, is_detection_sidecar_path, detection_status,
}

pub record File : Type 0 where
  pub relative_path : Text
  pub abs_path : Text
  pub recipient : Text
  pub name : Text
  pub size : ℕ
  pub mod_time : ℕ
  pub detect_state : Text
  pub has_person : Bool
  pub has_animal : Bool
  pub has_vehicle : Bool
  pub detect_labels : List Text

-- A row of the table `files`.
pub record Row : Type 0 where
  pub file : File
  pub is_video : Bool
  pub updated_at : ℕ

pub record Index : Type 0 where
  pub root : Text
  pub files : Dict Row

pub record Stat : Type 0 where
  pub is_dir : Bool
  pub is_regular : Bool
  pub size : ℕ
  pub mod_time : ℕ

-- The operating system's answers: `filepath.Abs`, `os.Stat`, `filepath.Rel` to the root, and the
-- sidecar of a video.
pub record Disk (F : Type 0) : Type 0 where
  pub abs : Text → Outcome Text
  pub stat : Text → Outcome Stat
  pub rel : Text → Outcome Text
  pub load_sidecar : Text → Option (Sidecar F)

unfoldable pub first_part : List Text → Text
first_part [] = []
first_part (p ∷ ps) = p

abbrev pub generic_labels : List Text
generic_labels =
    codes "person"
    ∷ codes "people"
    ∷ codes "human"
    ∷ codes "animal"
    ∷ codes "vehicle"
    ∷ codes "car"
    ∷ []

-- What a statement leaves: the table that it made, or an error and the table as it was.
unfoldable pub exec : Option Error → Index → Index → Outcome (Unit {0}) × Index
exec none made i = (ok tt, made)
exec (some e) made i = (err e, i)

-- `INSERT ... ON CONFLICT(relative_path) DO UPDATE`.
unfoldable pub upsert : Option Error → File → Bool → ℕ → Index → Outcome (Unit {0}) × Index
unfolding exec
upsert fault item is_video now i =
    exec fault
      (record i {
        files =
            insert item.relative_path
              (record { file = item; is_video = is_video; updated_at = now }) i.files;
      })
      i

-- `UPDATE files SET ... WHERE relative_path = ?`: nothing where there is no such row.
unfoldable pub updated_files : File → ℕ → Option Row → Dict Row → Dict Row
updated_files item now none files = files
updated_files item now (some row) files =
    insert item.relative_path
      (record row {
        updated_at = now;
        file = record (row.file) {
          detect_state = item.detect_state;
          has_person = item.has_person;
          has_animal = item.has_animal;
          has_vehicle = item.has_vehicle;
          detect_labels = item.detect_labels;
        };
      })
      files

unfoldable pub update_detections : Option Error → File → ℕ → Index → Outcome (Unit {0}) × Index
unfolding exec updated_files
update_detections fault item now i =
    exec fault
      (record i { files = updated_files item now (lookup item.relative_path i.files) i.files }) i

module _ ⦃u : Unicode⦄ where
  -- `recipientFromRel`.
  unfoldable pub recipient_from_rel : Text → Text
  unfolding first_part
  recipient_from_rel rel =
      let first = first_part (split slash rel) in if is_blank first then codes "unknown" else first

  unfoldable pub is_generic_detection_label : Text → Text → Bool
  is_generic_detection_label label category =
      if text_eq label (trim_space (to_lower category))
      then true
      else is_one_of label generic_labels

  -- The row of a file before its sidecar is read.
  abbrev pub file_of : Text → Text → Stat → File
  file_of abs rel info = record {
    relative_path = rel;
    abs_path = abs;
    recipient = recipient_from_rel rel;
    name = base_name abs;
    size = info.size;
    mod_time = info.mod_time;
    detect_state = [];
    has_person = false;
    has_animal = false;
    has_vehicle = false;
    detect_labels = [];
  }

  module _ {F : Type 0} where
    -- The loop of `detectionLabels`, with the labels seen and the list so far.
    unfoldable pub collect_labels : List Text → List Text → List (Detection F) → List Text
    unfolding is_generic_detection_label
    collect_labels seen out [] = out
    collect_labels seen out (d ∷ ds) =
        let label = trim_space (to_lower d.label) in
        let skip = collect_labels seen out ds in
        let add = collect_labels (label ∷ seen) (out ++ label ∷ []) ds in
        if text_eq label [] || is_generic_detection_label label d.category
        then skip
        else if is_one_of label seen
        then skip
        else add

    unfoldable pub detection_labels : Sidecar F → List Text
    unfolding collect_labels
    detection_labels s = sort_texts (collect_labels [] [] s.detections)

    -- `applySidecar`.
    unfoldable pub apply_sidecar : File → Option (Sidecar F) → File
    unfolding detection_labels
    apply_sidecar item none = item
    apply_sidecar item (some s) = record item {
      detect_state = detection_status (some s);
      has_person = s.has_person;
      has_animal = s.has_animal;
      has_vehicle = s.has_vehicle;
      detect_labels = detection_labels s;
    }

    unfoldable pub apply_loaded : File → Option (Sidecar F) → File
    unfolding apply_sidecar
    apply_loaded item none = record item { detect_state = codes "pending" }
    apply_loaded item (some s) = apply_sidecar item (some s)

    unfoldable pub described : Disk F → Text → Text → Stat → File
    unfolding apply_loaded recipient_from_rel
    described disk abs rel info =
        let item = file_of abs rel info in
        if is_video_path abs then apply_loaded item (disk.load_sidecar abs) else item

  module _ {F : Type 0} (disk : Disk F) (fault : Option Error) (now : ℕ) where
    unfoldable pub upsert_rel : Text → Stat → Outcome Text → Index → Outcome (Unit {0}) × Index
    unfolding upsert described
    upsert_rel abs info (err e) i = (err e, i)
    upsert_rel abs info (ok rel) i =
        upsert fault (described disk abs rel info) (is_video_path abs) now i

    unfoldable pub upsert_stat : Text → Outcome Stat → Index → Outcome (Unit {0}) × Index
    unfolding upsert_rel
    upsert_stat abs (err e) i = (err e, i)
    upsert_stat abs (ok info) i =
        if info.is_dir || not info.is_regular
        then (ok tt, i)
        else upsert_rel abs info (disk.rel abs) i

    unfoldable pub upsert_abs : Text → Outcome Text → Index → Outcome (Unit {0}) × Index
    unfolding upsert_stat
    upsert_abs path (err e) i = (err e, i)
    upsert_abs path (ok abs) i =
        if is_detection_sidecar_path abs
        then (ok tt, i)
        else if not (text_eq abs i.root) && not (has_prefix abs (i.root ++ slash ∷ []))
        then (err (new_error (codes "path outside storage root: " ++ path)), i)
        else upsert_stat abs (disk.stat abs) i

    -- `UpsertPath`.
    unfoldable pub upsert_path : Text → Index → Outcome (Unit {0}) × Index
    unfolding upsert_abs
    upsert_path path i = upsert_abs path (disk.abs path) i

    abbrev pub empty_file : Text → File
    empty_file rel = record {
      relative_path = rel;
      abs_path = [];
      recipient = [];
      name = [];
      size = 0;
      mod_time = 0;
      detect_state = [];
      has_person = false;
      has_animal = false;
      has_vehicle = false;
      detect_labels = [];
    }

    unfoldable pub update_rel :
        Option Error → Sidecar F → Outcome Text → Index → Outcome (Unit {0}) × Index
    unfolding update_detections apply_sidecar
    update_rel update_fault s (err e) i = (err e, i)
    update_rel update_fault s (ok rel) i =
        update_detections update_fault (apply_sidecar (empty_file rel) (some s)) now i

    unfoldable pub after_upsert :
        Option Error → Text → Sidecar F → Outcome (Unit {0}) × Index → Outcome (Unit {0}) × Index
    unfolding update_rel
    after_upsert update_fault path s (err e, i) = (err e, i)
    after_upsert update_fault path s (ok tt, i) = update_rel update_fault s (disk.rel path) i

    -- `UpsertSidecar`, with what the second statement meets.
    unfoldable pub upsert_sidecar :
        Option Error → Text → Sidecar F → Index → Outcome (Unit {0}) × Index
    unfolding after_upsert upsert_path
    upsert_sidecar update_fault path s i = after_upsert update_fault path s (upsert_path path i)

abbrev pub rows_of : Dict Row → List File
rows_of [] = []
rows_of ((k, row) ∷ d) = row.file ∷ rows_of d

-- `ORDER BY mod_time_unix DESC, relative_path DESC`.
unfoldable pub is_newer : File → File → Bool
is_newer a b =
    ltb b.mod_time a.mod_time
    || (a.mod_time == b.mod_time && not (text_le a.relative_path b.relative_path))

-- `Recent`, where the query goes well.
unfoldable pub recent : ℕ → Index → List File
unfolding is_newer
recent limit i = take limit (sort_by is_newer (rows_of i.files))

-- `SELECT DISTINCT recipient`.
unfoldable pub distinct : List Text → List Text
distinct [] = []
distinct (t ∷ ts) = let rest = distinct ts in if is_one_of t rest then rest else t ∷ rest

-- `ORDER BY lower(recipient)`; `lower` of SQL knows ASCII only.
abbrev pub precedes : Text → Text → Bool
precedes a b = not (text_le (map ascii_lower b) (map ascii_lower a))

-- `Recipients`, where the query goes well.
unfoldable pub recipients : Index → List Text
unfolding distinct
recipients i = sort_by precedes (distinct (map (λ f. f.recipient) (rows_of i.files)))
