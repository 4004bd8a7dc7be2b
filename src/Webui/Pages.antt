-- ===== src/Webui/Pages.antt =====
-- The lists on the pages of internal/webui/server.go: `listRecipients`, `listRecentFiles` and the
-- entries of a directory. A list of equal rank is in the order of the operating system.
use smtp_store.Base.{
  ◌*◌, ℕ, Bool, true, false, not, Option, none, some, List, [], ◌∷◌, ◌++◌, map, Text, codes,
  Unicode, text_le, to_lower, ltb, ◌==◌, if◌then◌else◌, take, sort_by,
}
use smtp_store.Base.Strings.Split.{split}
use smtp_store.Base.Strings.FilePath.{slash, join_path, base_name}
use smtp_store.Base.Os.{Error, Outcome, ok, err, errors_is, enoent}
use smtp_store.Classify.{is_detection_sidecar_path}
use smtp_store.Fileindex.{File}
use smtp_store.Webui.Paths.{join_rel, escape_rel_path}
use smtp_store.Webui.Files.{
  Disk, Info, Entry, Found, Summary, no_summary, human_size, detection_summary_for_file,
}

pub record RecipientEntry : Type 0 where
  pub name : Text
  pub browse_url : Text

-- An entry of the list of recent files. A size is `none` where the code would panic.
pub record RecentItem : Type 0 where
  pub name : Text
  pub recipient : Text
  pub relative : Text
  pub size : Option Text
  pub modified : Text
  pub detections : Summary
  pub view_url : Text
  pub download_url : Text

pub record BrowseEntry : Type 0 where
  pub name : Text
  pub relative : Text
  pub is_dir : Bool
  pub size : Option Text
  pub modified : Text
  pub detections : Summary
  pub browse_url : Text
  pub view_url : Text
  pub download_url : Text

-- The queries of the metadata index.
pub record Queries : Type 0 where
  pub recipients : Outcome (List Text)
  pub recent : ℕ → Outcome (List File)

unfoldable pub is_not_exist : Error → Bool
is_not_exist e = errors_is e enoent

-- Nothing is listed where the directory is not there.
abbrev pub none_if_missing {ℓ} : {A : Type ℓ} → Error → Outcome (List A)
none_if_missing e = if is_not_exist e then ok [] else err e

unfoldable pub first_segment : List Text → Text
first_segment [] = []
first_segment (p ∷ ps) = p

module _ (path_escape : Text → Text) where
  unfoldable pub recipient_entry : Text → RecipientEntry
  recipient_entry name = record {
    name = name;
    browse_url = codes "/browse/" ++ escape_rel_path path_escape name;
  }

  unfoldable pub dir_entries : List Entry → List RecipientEntry
  unfolding recipient_entry
  dir_entries [] = []
  dir_entries (e ∷ es) =
      let rest = dir_entries es in
      if e.entry_is_dir then recipient_entry e.entry_name ∷ rest else rest

  module _ ⦃u : Unicode⦄ where
    abbrev pub lower_precedes : Text → Text → Bool
    lower_precedes a b = not (text_le (to_lower b) (to_lower a))

    unfoldable pub sorted_dirs : Outcome (List Entry) → Outcome (List RecipientEntry)
    unfolding dir_entries
    sorted_dirs (err e) = none_if_missing e
    sorted_dirs (ok es) = ok (sort_by (λ a b. lower_precedes a.name b.name) (dir_entries es))

    unfoldable pub names_of : Outcome (List Text) → Outcome (List RecipientEntry)
    unfolding recipient_entry
    names_of (err e) = err e
    names_of (ok names) = ok (map recipient_entry names)

    module _ {F : Type 0} (disk : Disk F) (root : Text) where
      -- `listRecipients`.
      unfoldable pub list_recipients : Option Queries → Outcome (List RecipientEntry)
      unfolding sorted_dirs names_of
      list_recipients none = sorted_dirs (disk.read_dir root)
      list_recipients (some q) = names_of q.recipients

      unfoldable pub item_of_file : File → RecentItem
      item_of_file f = record {
        name = f.name;
        recipient = f.recipient;
        relative = f.relative_path;
        size = human_size disk.format_tenth f.size;
        modified = disk.format_time (f.mod_time * 1000000000);
        detections = record {
          detect_state = f.detect_state;
          has_person = f.has_person;
          has_animal = f.has_animal;
          has_vehicle = f.has_vehicle;
          detect_labels = f.detect_labels;
        };
        view_url = codes "/view/" ++ escape_rel_path path_escape f.relative_path;
        download_url = codes "/download/" ++ escape_rel_path path_escape f.relative_path;
      }

      unfoldable pub items_of_files : Outcome (List File) → Outcome (List RecentItem)
      unfolding item_of_file
      items_of_files (err e) = err e
      items_of_files (ok fs) = ok (map item_of_file fs)

      -- The walk keeps regular files that are no sidecar.
      unfoldable pub candidates : List Found → List (Found × Info)
      candidates [] = []
      candidates (f ∷ fs) =
          let rest = candidates fs in
          if is_detection_sidecar_path f.path then rest else elim (f.found_info) [
            | none ↦ rest
            | some info ↦ if f.is_regular then (f, info) ∷ rest else rest
          ]

      unfoldable pub item_of_candidate : Found × Info → RecentItem
      unfolding first_segment
      item_of_candidate (f, info) = record {
        name = base_name f.path;
        recipient = first_segment (split slash f.rel);
        relative = f.rel;
        size = human_size disk.format_tenth info.size;
        modified = disk.format_time info.modified;
        detections = detection_summary_for_file disk f.path;
        view_url = codes "/view/" ++ escape_rel_path path_escape f.rel;
        download_url = codes "/download/" ++ escape_rel_path path_escape f.rel;
      }

      unfoldable pub walked : ℕ → Outcome Info → Outcome (List RecentItem)
      unfolding candidates item_of_candidate
      walked limit (err e) = none_if_missing e
      walked limit (ok info) = ok (
          map item_of_candidate
            (take limit (sort_by (λ a b. ltb b.1.modified a.1.modified) (candidates disk.walk))))

      unfoldable pub recent_below : ℕ → Option Queries → Outcome (List RecentItem)
      unfolding walked items_of_files
      recent_below limit none = walked limit (disk.stat root)
      recent_below limit (some q) = items_of_files (q.recent limit)

      -- `listRecentFiles`.
      unfoldable pub list_recent_files : ℕ → Option Queries → Outcome (List RecentItem)
      unfolding recent_below
      list_recent_files limit index = if limit == 0 then ok [] else recent_below limit index

      -- One entry of a directory.
      unfoldable pub browse_entry : Text → Text → Entry → Info → BrowseEntry
      browse_entry rel abs e info =
          let child = join_rel rel e.entry_name in
          if e.entry_is_dir
          then record {
            name = e.entry_name;
            relative = child;
            is_dir = true;
            size = some (codes "-");
            modified = disk.format_time info.modified;
            detections = no_summary [];
            browse_url = codes "/browse/" ++ escape_rel_path path_escape child;
            view_url = [];
            download_url = [];
          }
          else record {
            name = e.entry_name;
            relative = child;
            is_dir = false;
            size = human_size disk.format_tenth info.size;
            modified = disk.format_time info.modified;
            detections = detection_summary_for_file disk (join_path (abs ∷ e.entry_name ∷ []));
            browse_url = [];
            view_url = codes "/view/" ++ escape_rel_path path_escape child;
            download_url = codes "/download/" ++ escape_rel_path path_escape child;
          }

      -- Sidecars are left out, and entries that are gone.
      unfoldable pub browse_entries : Text → Text → List Entry → List BrowseEntry
      unfolding browse_entry
      browse_entries rel abs [] = []
      browse_entries rel abs (e ∷ es) =
          let rest = browse_entries rel abs es in
          if is_detection_sidecar_path e.entry_name
          then rest
          else elim (e.entry_info) [ none ↦ rest | some info ↦ browse_entry rel abs e info ∷ rest ]

      -- Directories first, then by name without regard to case.
      unfoldable pub precedes : BrowseEntry → BrowseEntry → Bool
      precedes a b =
          if a.is_dir
          then (if b.is_dir then lower_precedes a.name b.name else true)
          else if b.is_dir
          then false
          else lower_precedes a.name b.name

      unfoldable pub sorted_entries : Text → Text → List Entry → List BrowseEntry
      unfolding browse_entries precedes
      sorted_entries rel abs es = sort_by precedes (browse_entries rel abs es)
