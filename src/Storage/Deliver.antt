-- ===== src/Storage/Deliver.antt =====
-- `ProcessAndStore` of internal/storage/storage.go. The calendar of `time` is a parameter.
pub mod Ends
use smtp_store.Base.{
  ℕ, zero, suc, ◌+◌, ◌-◌, Option, none, some, List, [], ◌∷◌, ◌++◌, Text, codes, Unicode, length,
}
use smtp_store.Base.Strings.Decimal.{decimal}
use smtp_store.Base.Strings.FilePath.{join_path}
use smtp_store.Base.Dict.{insert}
use smtp_store.Base.Os.{Error, Outcome, ok, err, wrap, next_fault}
use smtp_store.Storage.Result.{Result}
use smtp_store.Storage.Folder.{normalize_recipient_folder}
use smtp_store.Storage.Body.{Disk, write_body, write_string, plain_call}
use smtp_store.Storage.Message.{Library, Message, Attachment, parse_message}

-- The date of a time, and its `150405`.
pub record Calendar : Type 0 where
  pub year : ℕ → ℕ
  pub month : ℕ → ℕ
  pub day : ℕ → ℕ
  pub clock : ℕ → Text

unfoldable pub zeros : ℕ → Text
zeros zero = []
zeros (suc n) = b'0' ∷ zeros n

-- `%0<width>d`.
unfoldable pub padded : ℕ → ℕ → Text
unfolding zeros
padded width n = zeros (width - length (decimal n)) ++ decimal n

-- `os.WriteFile`: the file is there and empty before it is written.
unfoldable pub open_truncated : Text → Disk → Option Error × Disk
unfolding next_fault
open_truncated path d =
    let (f, rest) = next_fault d.faults in
    elim f [
      | some fault ↦ (some fault.error, record d { faults = rest })
      | none ↦ (none, record { files = insert path [] d.files; faults = rest })
    ]

-- The close counts only where the write went well; it is made in either case.
unfoldable pub then_close : Option Error × Disk → Option Error × Disk
unfolding plain_call
then_close (some e, d) = (some e, (plain_call d).1)
then_close (none, d) = plain_call d

unfoldable pub then_write : Text → Text → Option Error × Disk → Option Error × Disk
unfolding write_string then_close
then_write path bytes (some e, d) = (some e, d)
then_write path bytes (none, d) = then_close (write_string path bytes d)

unfoldable pub write_file : Text → Text → Disk → Option Error × Disk
unfolding open_truncated then_write
write_file path bytes d = then_write path bytes (open_truncated path d)

-- `<prefix>_<number><extension>`.
unfoldable pub attachment_name : Text → ℕ → Text → Text
attachment_name prefix number extension = prefix ++ codes "_" ++ decimal number ++ extension

-- The loop over the attachments, with the paths written so far; it ends at the first that fails.
unfoldable pub write_attachments :
    Text → Text → ℕ → List Attachment → List Text → Disk → Outcome (List Text) × Disk
unfolding write_file attachment_name
write_attachments dir prefix number [] paths d = (ok paths, d)
write_attachments dir prefix number (a ∷ rest) paths d =
    let name = attachment_name prefix number a.extension in
    let path = join_path (dir ∷ name ∷ []) in
    let (e, d') = write_file path a.data_bytes d in
    let more = write_attachments dir prefix (number + 1) rest (paths ++ path ∷ []) d' in
    elim e [
      | none ↦ more
      | some failure ↦ (err (wrap (codes "write attachment \"" ++ name ++ codes "\"") failure), d')
    ]

unfoldable pub result_of : Text → Text → Text → Outcome (List Text) × Disk → Outcome Result × Disk
result_of recipient dir path (err e, d) = (err e, d)
result_of recipient dir path (ok paths, d) = (
  ok (record {
    recipient = recipient;
    directory = dir;
    body_path = path;
    attachment_paths = paths;
  }),
  d,
)

unfoldable pub after_body :
    Message → Text → Option (Outcome (Text × Text) × Disk) → Option (Outcome Result × Disk)
unfolding write_attachments result_of
after_body m dir none = none
after_body m dir (some (err e, d)) = some (err e, d)
after_body m dir (some (ok (prefix, path), d)) =
    some (result_of m.recipient dir path (write_attachments dir prefix 1 m.attachments [] d))

unfoldable pub after_mkdir :
    Message → Text → Text → Option Error × Disk → Option (Outcome Result × Disk)
unfolding after_body
after_mkdir m dir timestamp (some e, d) = some (err (wrap (codes "create output dir") e), d)
after_mkdir m dir timestamp (none, d) = after_body m dir (write_body dir timestamp m.body d)

module _ ⦃u : Unicode⦄ (calendar : Calendar) where
  -- `<root>/<folder>/<year>/<month>/<day>`.
  unfoldable pub message_dir : Text → Text → ℕ → Text
  unfolding padded
  message_dir root recipient received_at = join_path (
      root
      ∷ normalize_recipient_folder recipient
      ∷ padded 4 (calendar.year received_at)
      ∷ padded 2 (calendar.month received_at)
      ∷ padded 2 (calendar.day received_at)
      ∷ [])

  unfoldable pub after_parse : Text → ℕ → Outcome Message → Disk → Option (Outcome Result × Disk)
  unfolding after_mkdir message_dir
  after_parse root received_at (err e) d = some (err e, d)
  after_parse root received_at (ok m) d =
      after_mkdir m (message_dir root m.recipient received_at) (calendar.clock received_at)
        (plain_call d)

  -- `ProcessAndStore`. `none` says that the fuel of the body loop ran out.
  unfoldable pub process_and_store :
      Library → Text → Text → ℕ → Disk → Option (Outcome Result × Disk)
  unfolding after_parse
  process_and_store lib root raw received_at d =
      after_parse root received_at (parse_message lib raw) d
