-- ===== src/Storage/Tests.antt =====
-- Folders, errors and bodies.
use smtp_store.Base.{
  none, ◌≢◌, ◌≡◌, ◌↔◌, ◌⊎◌, to_lower, refl, true, some, [], ◌∷◌, Text, codes, latin1, arith,
}
use smtp_store.Base.Strings.FilePath.{slash}
use smtp_store.Base.Strings.Split.{Lacks}
use smtp_store.Base.Os.{Error, Outcome, wrap}
use smtp_store.Storage.Errors.{is_unavailable_error}
use smtp_store.Storage.Errors.Exact.{
  HasUnavailableNumber, MentionsUnavailable, is_unavailable_error_iff,
}
use smtp_store.Storage.Folder.{
  IsFolderName, normalize_recipient_folder, normalize_recipient_folder-IsFolderName,
}
use smtp_store.Base.Os.{ok}
use smtp_store.Storage.Message.{Library, inline_part, attachment_part}
use smtp_store.Storage.Deliver.{Calendar, process_and_store}
use smtp_store.Storage.Deliver.Ends.{process_and_store-ne-none}
use smtp_store.Storage.Body.{Disk, write_body}
use smtp_store.Storage.Body.Keeps.{Wrote, write_body_lem}

six-Lacks : Lacks slash (codes "120000")
six-Lacks = ground arith

abbrev stale : Error
stale = record { chain = 116 ∷ []; message = codes "stale NFS file handle" }

is_unavailable_error_iff_example :
    (is_unavailable_error ⦃u = latin1⦄ (some (wrap (codes "write body") stale)) ≡ true) ↔ (
      HasUnavailableNumber (wrap (codes "write body") stale).chain
      ⊎ MentionsUnavailable (to_lower ⦃u = latin1⦄ (wrap (codes "write body") stale).message))
is_unavailable_error_iff_example =
    is_unavailable_error_iff ⦃u = latin1⦄ (wrap (codes "write body") stale)

normalize_recipient_folder-IsFolderName_example :
    IsFolderName ⦃u = latin1⦄ (normalize_recipient_folder ⦃u = latin1⦄ (codes "../Cam@x.com"))
normalize_recipient_folder-IsFolderName_example =
    normalize_recipient_folder-IsFolderName ⦃u = latin1⦄ (codes "../Cam@x.com")

folder_of_address :
    normalize_recipient_folder ⦃u = latin1⦄ (codes "../Cam/@x.com") ≡ codes "cam_@x.com"
unfolding normalize_recipient_folder
folder_of_address = refl

-- A mail to one address with an attachment.
abbrev library : Library
library = record {
  create_reader = λ raw. ok (record {
    to = ok (codes "cam@x" ∷ []);
    parts =
        inline_part (codes "text/html") (ok (codes "<b>hi</b>"))
        ∷ attachment_part (codes "a.MP4") [] (ok raw)
        ∷ [];
    broken = none;
  });
  extensions_by_type = λ t. ok [];
  unescape = λ s. s;
}

abbrev calendar : Calendar
calendar = record { year = λ t. 2026; month = λ t. 3; day = λ t. 4; clock = λ t. codes "120000" }

process_and_store-ne-none_example :
    process_and_store ⦃u = latin1⦄ calendar library
      (codes "/srv")
      (codes "raw")
      5
      (record { files = []; faults = [] })
    ≢ none
process_and_store-ne-none_example =
    process_and_store-ne-none ⦃u = latin1⦄ calendar library (codes "/srv") (codes "raw") 5
      (record { files = []; faults = [] }) six-Lacks

-- The first name is taken.
abbrev disk : Disk
disk = record { files = (codes "a/120000.txt", codes "old") ∷ []; faults = [] }

write_body_lem_example :
    (r : Outcome (Text × Text) × Disk) × (write_body (codes "a") (codes "120000") (codes "new") disk
      ≡ some r)
    × Wrote (codes "a") (codes "120000") (codes "new") disk.files r
write_body_lem_example = write_body_lem (codes "a") (codes "120000") (codes "new") disk six-Lacks
