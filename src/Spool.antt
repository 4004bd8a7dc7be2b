-- ===== src/Spool.antt =====
-- internal/spool/spool.go: the directories of the local spool, and the file calls that it makes.
-- A directory holds files only, by name; each call takes the next fault of the script.
pub mod Calls
pub mod Item
pub mod Enqueue
pub mod Process
pub mod Safety
mod Tests
use smtp_store.Base.{ℕ, Bool, Option, none, some, List, [], ◌++◌, Text, take}
use smtp_store.Base.Dict.{Dict, lookup, insert, erase}
use smtp_store.Base.Os.{Error, Fault, Faults, next_fault, not_exist, already_exists}
use smtp_store.Storage.Result.{Result}

-- The four directories below the queue's path, the store behind the queue with the results that the
-- post-store handler was called with, the clock, and what the calls to come meet.
pub record Spool (S : Type 0) : Type 0 where
  pub pending : Dict Text
  pub processing : Dict Text
  pub failed : Dict Text
  pub tmp : Dict Text
  pub store : S
  pub posted : List Result
  pub now : ℕ
  pub faults : Faults
  pub cancels : List Bool

pub data Dir : Type 0 where
  pending_dir processing_dir failed_dir tmp_dir : Dir

-- The content of a file after bytes are written behind it.
abbrev pub extend : Option Text → Text → Text
extend none more = more
extend (some old) more = old ++ more

module _ {S : Type 0} where
  abbrev pub files : Dir → Spool S → Dict Text
  files pending_dir w = w.pending
  files processing_dir w = w.processing
  files failed_dir w = w.failed
  files tmp_dir w = w.tmp

  abbrev pub with_files : Dir → Dict Text → Spool S → Spool S
  with_files pending_dir d w = record w { pending = d }
  with_files processing_dir d w = record w { processing = d }
  with_files failed_dir d w = record w { failed = d }
  with_files tmp_dir d w = record w { tmp = d }

  -- The next fault is used up.
  unfoldable pub take_fault : Spool S → Option Error × Spool S
  unfolding next_fault
  take_fault w =
      let (f, rest) = next_fault w.faults in
      elim f [
        | none ↦ (none, record w { faults = rest })
        | some fault ↦ (some fault.error, record w { faults = rest })
      ]

  unfoldable pub on_success :
      (Spool S → Option Error × Spool S) → Option Error × Spool S → Option Error × Spool S
  on_success work (none, w) = work w
  on_success work (some e, w) = (some e, w)

  -- A call that does its work on no fault.
  unfoldable pub call : (Spool S → Option Error × Spool S) → Spool S → Option Error × Spool S
  unfolding on_success
  call work w = on_success work (take_fault w)

  move : Dir → Text → Dir → Text → Spool S → Option Error × Spool S
  move from name to name' w = elim (lookup name (files from w)) [
    | none ↦ (some not_exist, w)
    | some c ↦
        let gone = with_files from (erase name (files from w)) w in
        (none, with_files to (insert name' c (files to gone)) gone)
  ]

  -- `os.Rename`: a file of the new name is replaced.
  unfoldable pub rename : Dir → Text → Dir → Text → Spool S → Option Error × Spool S
  unfolding move call take_fault
  rename from name to name' w = call (move from name to name') w

  delete : Dir → Text → Spool S → Option Error × Spool S
  delete dir name w = elim (lookup name (files dir w)) [
    | none ↦ (some not_exist, w)
    | some c ↦ (none, with_files dir (erase name (files dir w)) w)
  ]

  -- `os.Remove`.
  unfoldable pub remove : Dir → Text → Spool S → Option Error × Spool S
  unfolding delete call take_fault
  remove dir name w = call (delete dir name) w

  unfoldable pub create : Text → Spool S → Option Error × Spool S
  create name w = elim (lookup name w.tmp) [
    | some c ↦ (some already_exists, w)
    | none ↦ (none, record w { tmp = insert name [] w.tmp })
  ]

  -- `os.OpenFile` in the temporary directory, with O_CREATE and O_EXCL.
  unfoldable pub open_tmp : Text → Spool S → Option Error × Spool S
  unfolding create call take_fault
  open_tmp name w = call (create name) w

  unfoldable pub write_on : Text → Text → Spool S → Option Fault × Faults → Option Error × Spool S
  write_on name bytes w (none, rest) =
      (none, record w { faults = rest; tmp = insert name (extend (lookup name w.tmp) bytes) w.tmp })
  write_on name bytes w (some fault, rest) = (
    some fault.error,
    record w {
      faults = rest;
      tmp = insert name (extend (lookup name w.tmp) (take fault.written bytes)) w.tmp;
    },
  )

  -- `file.Write`: a failing write may leave a part of the bytes.
  unfoldable pub write_tmp : Text → Text → Spool S → Option Error × Spool S
  unfolding write_on next_fault
  write_tmp name bytes w = write_on name bytes w (next_fault w.faults)

  -- A call that changes no file: `file.Sync`, `file.Close`, `os.Open`, a read.
  unfoldable pub plain_call : Spool S → Option Error × Spool S
  unfolding take_fault
  plain_call w = take_fault w
