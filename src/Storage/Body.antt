-- ===== src/Storage/Body.antt =====
-- `writeBodyWithCollisionHandling` of internal/storage/storage.go: the body goes to the first name
-- that no file has yet.
pub mod Laws
pub mod Keeps
use smtp_store.Base.{ℕ, zero, suc, ◌+◌, ◌≡◌, Bool, true, false, Option, none, some, [], ◌∷◌, ◌++◌}
use smtp_store.Base.{Text, codes, ltb, if◌then◌else◌, take, length}
use smtp_store.Base.Strings.Decimal.{decimal}
use smtp_store.Base.Strings.FilePath.{join_path}
use smtp_store.Base.Dict.{Dict, lookup, insert}
use smtp_store.Base.Os.{
  Error, Fault, Faults, Outcome, ok, err, already_exists, eexist, errors_is, wrap, next_fault,
}

-- The files below the storage root, by path, and the faults that the coming calls meet.
pub record Disk : Type 0 where
  pub files : Dict Text
  pub faults : Faults

-- `<timestamp>`, then `<timestamp>-2`, `<timestamp>-3` and so on.
unfoldable pub candidate : Text → ℕ → Text
candidate timestamp attempt =
    if ltb 1 attempt then timestamp ++ codes "-" ++ decimal attempt else timestamp

unfoldable pub body_path : Text → Text → ℕ → Text
unfolding candidate
body_path dir timestamp attempt =
    join_path (dir ∷ (candidate timestamp attempt ++ codes ".txt") ∷ [])

-- `os.OpenFile` with O_CREATE and O_EXCL: it fails on a path that a file has.
unfoldable pub create_new : Text → Disk → Option Error × Disk
create_new path d = elim (lookup path d.files) [
  | some c ↦ (some already_exists, d)
  | none ↦ (none, record d { files = insert path [] d.files })
]

unfoldable pub open_new : Text → Disk → Option Error × Disk
unfolding next_fault create_new
open_new path d =
    let (f, rest) = next_fault d.faults in
    let open_it = create_new path (record d { faults = rest }) in
    elim f [ some fault ↦ (some fault.error, record d { faults = rest }) | none ↦ open_it ]

-- The content after bytes are written behind it.
abbrev pub extend : Option Text → Text → Text
extend none more = more
extend (some old) more = old ++ more

-- `file.WriteString`: a failing write may leave a part of the text.
unfoldable pub write_string : Text → Text → Disk → Option Error × Disk
unfolding next_fault
write_string path body d =
    let (f, rest) = next_fault d.faults in
    let old = lookup path d.files in
    elim f [
      | some fault ↦ (
        some fault.error,
        record {
          files = insert path (extend old (take fault.written body)) d.files;
          faults = rest;
        },
      )
      | none ↦ (none, record { files = insert path (extend old body) d.files; faults = rest })
    ]

-- A call that changes no file: `file.Close`, `os.MkdirAll`.
unfoldable pub plain_call : Disk → Option Error × Disk
unfolding next_fault
plain_call d =
    let (f, rest) = next_fault d.faults in
    elim f [
      | some fault ↦ (some fault.error, record d { faults = rest })
      | none ↦ (none, record d { faults = rest })
    ]

close_body : Text → Text → Disk → Outcome (Text × Text) × Disk
unfolding plain_call
close_body prefix path d =
    let (e, d') = plain_call d in
    elim e [
      | some close_err ↦ (err (wrap (codes "close body output") close_err), d')
      | none ↦ (ok (prefix, path), d')
    ]

-- The loop's part behind a file that was created.
fill_body : Text → Text → Text → Disk → Outcome (Text × Text) × Disk
unfolding write_string close_body
fill_body prefix path body d =
    let (e, d') = write_string path body d in
    let done = close_body prefix path d' in
    elim e [ some write_err ↦ (err (wrap (codes "write body output") write_err), d') | none ↦ done ]

-- One round of the loop, on the result of opening the file: the next attempt is `again`.
round :
    Text
    → Text
    → Text
    → (Disk → Option (Outcome (Text × Text) × Disk))
    → Option Error × Disk
    → Option (Outcome (Text × Text) × Disk)
unfolding fill_body errors_is
round prefix path body again (none, d) = some (fill_body prefix path body d)
round prefix path body again (some open_err, d) = elim (errors_is open_err eexist) [
  | true ↦ again d
  | false ↦ some (err (wrap (codes "open body output") open_err), d)
]

-- The loop, from an attempt on. `none` says that the fuel ran out.
write_body_from : ℕ → ℕ → Text → Text → Text → Disk → Option (Outcome (Text × Text) × Disk)
unfolding body_path
write_body_from zero attempt dir timestamp body d = none
write_body_from (suc fuel) attempt dir timestamp body d =
    let path = body_path dir timestamp attempt in
    round (candidate timestamp attempt) path body
      (write_body_from fuel (attempt + 1) dir timestamp body) (open_new path d)

-- Each attempt that finds its name taken meets a file of its own or a fault.
abbrev pub body_fuel : Disk → ℕ
body_fuel d = suc (length d.files + length d.faults)

-- The prefix and the path of the body, or an error.
unfoldable pub write_body : Text → Text → Text → Disk → Option (Outcome (Text × Text) × Disk)
unfolding write_body_from round open_new
write_body dir timestamp body d = write_body_from (body_fuel d) 1 dir timestamp body d
