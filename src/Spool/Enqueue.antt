-- ===== src/Spool/Enqueue.antt =====
-- `Enqueue` and `sizeLocked` of internal/spool/spool.go. The queue's mutex makes one call of it one
-- step. Sizes are below 2 ^ 63, so the sum of `int64` values is the sum of numbers.
pub mod Laws
pub mod Whole
pub mod Bound
use smtp_store.Base.{
  ℕ, ◌+◌, Bool, true, false, Option, none, some, [], ◌∷◌, ◌++◌, Text, codes, ltb, length,
  if◌then◌else◌,
}
use smtp_store.Base.Dict.{Dict}
use smtp_store.Base.Os.{Error, Outcome, ok, err, wrap, new_error}
use smtp_store.Base.Strings.Decimal.{decimal}
use smtp_store.Spool.{Spool, pending_dir, tmp_dir, rename, remove, open_tmp, write_tmp, plain_call}
use smtp_store.Spool.Item.{Codec, new_id, meta_line}

unfoldable pub spool_full : ℕ → ℕ → ℕ → Error
spool_full size message limit = new_error (
    codes "spool full: "
    ++ (decimal size
        ++ (codes " bytes queued, "
            ++ (decimal message
                ++ (codes " byte message, " ++ (decimal limit ++ codes " byte limit"))))))

module _ {S : Type 0} where
  -- The walk over one directory: each file is asked for its size.
  unfoldable pub walk_next :
      (Spool S → Outcome ℕ × Spool S) → Option Error × Spool S → Outcome ℕ × Spool S
  walk_next next (some e, w) = (err (wrap (codes "measure spool size") e), w)
  walk_next next (none, w) = next w

  unfoldable pub walk_files : Dict Text → ℕ → Spool S → Outcome ℕ × Spool S
  unfolding walk_next
  walk_files [] total w = (ok total, w)
  walk_files ((name, content) ∷ rest) total w =
      walk_next (walk_files rest (total + length content)) (plain_call w)

  unfoldable pub walk_dir : Dict Text → ℕ → Spool S → Outcome ℕ × Spool S
  unfolding walk_files
  walk_dir d total w = walk_next (walk_files d total) (plain_call w)

  unfoldable pub then_processing : Outcome ℕ × Spool S → Outcome ℕ × Spool S
  unfolding walk_dir
  then_processing (err e, w) = (err e, w)
  then_processing (ok total, w) = walk_dir w.processing total w

  -- `sizeLocked`: the bytes in the pending and the processing directory.
  unfoldable pub size_locked : Spool S → Outcome ℕ × Spool S
  unfolding then_processing
  size_locked w = then_processing (walk_dir w.pending 0 w)

  -- An item that could not be written is closed, if it is open, and removed.
  unfoldable pub give_up : Text → Bool → Text → Error → Spool S → Outcome Text × Spool S
  unfolding remove plain_call
  give_up tmp_name true message e w =
      (err (wrap message e), (remove tmp_dir tmp_name (plain_call w).1).1)
  give_up tmp_name false message e w = (err (wrap message e), (remove tmp_dir tmp_name w).1)

  -- One step of the write: the rest follows if it succeeds.
  unfoldable pub stage :
      Text
      → Bool
      → Text
      → (Spool S → Outcome Text × Spool S)
      → Option Error × Spool S
      → Outcome Text × Spool S
  unfolding give_up
  stage tmp_name is_open message next (some e, w) = give_up tmp_name is_open message e w
  stage tmp_name is_open message next (none, w) = next w

  unfoldable pub publish : Text → Text → Spool S → Outcome Text × Spool S
  unfolding stage rename
  publish id tmp_name w =
      stage tmp_name false (codes "publish spool item") (λ w'. (ok id, w'))
        (rename tmp_dir tmp_name pending_dir (id ++ codes ".eml") w)

  unfoldable pub close_item : Text → Text → Spool S → Outcome Text × Spool S
  unfolding stage publish plain_call
  close_item id tmp_name w =
      stage tmp_name false (codes "close spool message") (publish id tmp_name) (plain_call w)

  unfoldable pub sync_item : Text → Text → Spool S → Outcome Text × Spool S
  unfolding stage close_item plain_call
  sync_item id tmp_name w =
      stage tmp_name true (codes "sync spool message") (close_item id tmp_name) (plain_call w)

  unfoldable pub write_raw : Text → Text → Text → Spool S → Outcome Text × Spool S
  unfolding stage sync_item write_tmp
  write_raw id tmp_name raw w =
      stage tmp_name true (codes "write spool message") (sync_item id tmp_name)
        (write_tmp tmp_name raw w)

  unfoldable pub write_meta : Text → Text → Text → Text → Spool S → Outcome Text × Spool S
  unfolding stage write_raw write_tmp
  write_meta id tmp_name line raw w =
      stage tmp_name true (codes "write spool metadata") (write_raw id tmp_name raw)
        (write_tmp tmp_name line w)

  unfoldable pub create_item :
      Text → Text → Text → Text → Option Error × Spool S → Outcome Text × Spool S
  unfolding write_meta
  create_item id tmp_name line raw (some e, w) = (err (wrap (codes "create spool item") e), w)
  create_item id tmp_name line raw (none, w) = write_meta id tmp_name line raw w

  -- The item is written to the temporary directory and renamed into the pending one.
  unfoldable pub write_item : Text → Text → Text → Spool S → Outcome Text × Spool S
  unfolding create_item open_tmp
  write_item id line raw w =
      let tmp_name = id ++ codes ".eml.tmp" in
      create_item id tmp_name line raw (open_tmp tmp_name w)

module _ (c : Codec) {S : Type 0} (max_bytes : ℕ) where
  unfoldable pub accept : ℕ → Option Text → Text → Spool S → Outcome Text × Spool S
  unfolding write_item
  accept received_at random raw w =
      write_item (new_id c received_at random w.now) (meta_line c received_at) raw w

  unfoldable pub check_size : ℕ → Option Text → Text → Outcome ℕ × Spool S → Outcome Text × Spool S
  unfolding accept spool_full
  check_size received_at random raw (err e, w) = (err e, w)
  check_size received_at random raw (ok size, w) =
      let accepted = accept received_at random raw w in
      if ltb max_bytes (size + length raw)
      then (err (spool_full size (length raw) max_bytes), w)
      else accepted

  -- `Enqueue`: a message that does not fit is refused before anything is written.
  unfoldable pub enqueue : ℕ → Option Text → Text → Spool S → Outcome Text × Spool S
  unfolding check_size size_locked
  enqueue received_at random raw w =
      if ltb 0 max_bytes
      then check_size received_at random raw (size_locked w)
      else accept received_at random raw w
