-- ===== src/Spool/Calls.antt =====
-- The two ways in which each file call ends, with the state that it leaves.
use smtp_store.Base.{
  ◌≡◌, ◌∙◌, refl, sym, ap, Option, none, some, [], ◌∷◌, ◌⊎◌, inl, inr, Text, Option-cases, arith,
  length, ◌<◌,
}
use smtp_store.Base.Dict.{lookup, insert, erase}
use smtp_store.Base.Os.{Error, Faults, next_fault, not_exist}
use smtp_store.Spool.{
  Spool, Dir, pending_dir, processing_dir, failed_dir, tmp_dir, files, with_files, take_fault,
  on_success, call, move, rename, delete, remove,
}

module _ {S : Type 0} where
  -- The state behind a call that changed no file.
  abbrev pub drop_fault : Spool S → Spool S
  drop_fault w = record w { faults = (next_fault w.faults).1 }

  -- The state in which a file has been moved.
  abbrev pub moved : Dir → Text → Dir → Text → Text → Spool S → Spool S
  moved from name to name' c w =
      let gone = with_files from (erase name (files from w)) w in
      with_files to (insert name' c (files to gone)) gone

  -- The call has met a fault of the script.
  abbrev pub FewerFaults : Spool S → Type 0
  FewerFaults w = length (next_fault w.faults).1 < length w.faults

  files-drop_fault : (dir : Dir) (w : Spool S) → files dir (drop_fault w) ≡ files dir w
  files-drop_fault pending_dir w = refl
  files-drop_fault processing_dir w = refl
  files-drop_fault failed_dir w = refl
  files-drop_fault tmp_dir w = refl

  pub take_fault-cases :
      (w : Spool S)
      → (take_fault w ≡ (none, drop_fault w))
        ⊎ ((e : Error) × FewerFaults w × (take_fault w ≡ (some e, drop_fault w)))
  unfolding take_fault
  take_fault-cases w = from_fault w.faults refl
    where
      from_fault :
          (fs : Faults)
          → w.faults ≡ fs
          → (take_fault w ≡ (none, drop_fault w))
            ⊎ ((e : Error) × FewerFaults w × (take_fault w ≡ (some e, drop_fault w)))
      from_fault [] e = inl (rw e)
      from_fault (none ∷ fs) e = inl (rw e)
      from_fault (some f ∷ fs) e = inr (f.error, rw e (omega arith), rw e)

  pub call-cases :
      (work : Spool S → Option Error × Spool S) (w : Spool S)
      → ((e : Error) × FewerFaults w × (call work w ≡ (some e, drop_fault w)))
        ⊎ (call work w ≡ work (drop_fault w))
  unfolding call
  call-cases work w = elim (take_fault-cases w) [
    | inl none_met ↦ inr (ap (on_success work) none_met)
    | inr (e, fewer, met) ↦ inl (e, fewer, ap (on_success work) met)
  ]

  move-cases :
      (from : Dir) (name : Text) (to : Dir) (name' : Text) (w : Spool S)
      → ((lookup name (files from w) ≡ none) × (move from name to name' w ≡ (some not_exist, w)))
        ⊎ ((c : Text) × (lookup name (files from w) ≡ some c)
            × (move from name to name' w ≡ (none, moved from name to name' c w)))
  unfolding move
  move-cases from name to name' w = elim (Option-cases (lookup name (files from w))) [
    | inl absent ↦ inl (absent, rw (absent, move))
    | inr (c, there) ↦ inr (c, there, rw (there, move))
  ]

  -- `os.Rename` meets a fault, or finds no file, or moves the file.
  pub rename_cases_lem :
      (from : Dir) (name : Text) (to : Dir) (name' : Text) (w : Spool S)
      → ((e : Error) × (FewerFaults w ⊎ (lookup name (files from w) ≡ none))
          × (rename from name to name' w ≡ (some e, drop_fault w)))
        ⊎ ((c : Text) × (lookup name (files from w) ≡ some c)
            × (rename from name to name' w ≡ (none, moved from name to name' c (drop_fault w))))
  unfolding rename
  rename_cases_lem from name to name' w = elim (call-cases (move from name to name') w) [
    | inl (e, fewer, met) ↦ inl (e, inl fewer, met)
    | inr done ↦ elim (move-cases from name to name' (drop_fault w)) [
      | inl (absent, failed) ↦ inl (
        not_exist,
        inr (sym (ap (lookup name) (files-drop_fault from w)) ∙ absent),
        done ∙ failed,
      )
      | inr (c, there, made) ↦
          inr (c, sym (ap (lookup name) (files-drop_fault from w)) ∙ there, done ∙ made)
    ]
  ]

  -- `os.Rename` fails and changes no file, or the file was there and is moved.
  pub rename-cases :
      (from : Dir) (name : Text) (to : Dir) (name' : Text) (w : Spool S)
      → ((e : Error) × (rename from name to name' w ≡ (some e, drop_fault w)))
        ⊎ ((c : Text) × (lookup name (files from w) ≡ some c)
            × (rename from name to name' w ≡ (none, moved from name to name' c (drop_fault w))))
  rename-cases from name to name' w = elim (rename_cases_lem from name to name' w) [
    | inl (e, why, failed) ↦ inl (e, failed)
    | inr done ↦ inr done
  ]

  delete-cases :
      (dir : Dir) (name : Text) (w : Spool S)
      → (delete dir name w ≡ (some not_exist, w))
        ⊎ (delete dir name w ≡ (none, with_files dir (erase name (files dir w)) w))
  unfolding delete
  delete-cases dir name w = elim (Option-cases (lookup name (files dir w))) [
    | inl absent ↦ inl (rw (absent, delete))
    | inr (c, there) ↦ inr (rw (there, delete))
  ]

  -- `os.Remove` fails and changes no file, or the file is gone.
  pub remove-cases :
      (dir : Dir) (name : Text) (w : Spool S)
      → ((e : Error) × (remove dir name w ≡ (some e, drop_fault w)))
        ⊎ (remove dir name w
            ≡ (none, with_files dir (erase name (files dir (drop_fault w))) (drop_fault w)))
  unfolding remove
  remove-cases dir name w = elim (call-cases (delete dir name) w) [
    | inl (e, fewer, met) ↦ inl (e, met)
    | inr done ↦ elim (delete-cases dir name (drop_fault w)) [
      | inl absent ↦ inl (not_exist, done ∙ absent)
      | inr made ↦ inr (done ∙ made)
    ]
  ]
