-- ===== src/Spool/Enqueue/Whole.antt =====
-- `Enqueue` spools the message whole, or changes no item.
use mathlib.Core.Path.{subst}
use smtp_store.Base.{
  ◌≡◌, refl, sym, true, false, Option, none, some, [], ◌++◌, inl, inr, Text, codes, arith,
}
use smtp_store.Base.Strings.Equality.{text_eq_iff}
use smtp_store.Base.Dict.{lookup-erase}
use smtp_store.Base.Os.{Error, ok, next_fault}
use smtp_store.Spool.{Spool, pending_dir, tmp_dir, rename, remove, write_tmp, plain_call}
use smtp_store.Spool.Calls.{rename-cases}
use smtp_store.Spool.Enqueue.{
  stage, publish, close_item, sync_item, write_raw, write_meta, create_item, write_item, give_up,
}
use smtp_store.Spool.Enqueue.Laws.{
  SameItems, SameItems-trans, remove-SameItems, Accepted, InTmp, Staged, stage-Accepted,
  open_tmp-Staged, write_on-Staged, plain_call-Staged,
}

module _ {S : Type 0} (id : Text) (line raw : Text) (w : Spool S) where
  abbrev content : Text
  content = line ++ raw

  -- The outcome of the last step, the rename.
  abbrev Published : Option Error × Spool S → Type 0
  Published (some e, w') = SameItems w w'
  Published (none, w') = Accepted id content w (ok id, w')

  rename-Published :
      (w' : Spool S)
      → InTmp id content w content w'
      → Published (rename tmp_dir (id ++ codes ".eml.tmp") pending_dir (id ++ codes ".eml") w')
  rename-Published w' ((a, b, d, e, f, g), there) =
      elim (rename-cases tmp_dir (id ++ codes ".eml.tmp") pending_dir (id ++ codes ".eml") w') [
        | inl (_, bad) ↦ subst Published (sym bad) (a, b, d, e, f, g)
        | inr (x, found, made) ↦
            let same : x ≡ content = ground (arith, found, there) in
            subst Published (sym made) (
              refl,
              rw (same, a),
              b,
              d,
              e,
              f,
              ground (
                arith,
                lookup-erase (id ++ codes ".eml.tmp") (id ++ codes ".eml.tmp") w'.tmp,
                text_eq_iff (id ++ codes ".eml.tmp") (id ++ codes ".eml.tmp"),
              ),
            )
      ]

  last_stage-Accepted :
      (message : Text) (r : Option Error × Spool S)
      → Published r
      → Accepted id content w (stage (id ++ codes ".eml.tmp") false message (λ w'. (ok id, w')) r)
  unfolding stage give_up
  last_stage-Accepted message (none, w') done = done
  last_stage-Accepted message (some e, w') same =
      SameItems-trans w w' (remove tmp_dir (id ++ codes ".eml.tmp") w').1 same
        (remove-SameItems _ w')

  publish-Accepted :
      (w' : Spool S)
      → InTmp id content w content w'
      → Accepted id content w (publish id (id ++ codes ".eml.tmp") w')
  unfolding publish
  publish-Accepted w' here = last_stage-Accepted _ _ (rename-Published w' here)

  close_item-Accepted :
      (w' : Spool S)
      → InTmp id content w content w'
      → Accepted id content w (close_item id (id ++ codes ".eml.tmp") w')
  unfolding close_item
  close_item-Accepted w' here =
      stage-Accepted id content w content false _ (publish id (id ++ codes ".eml.tmp"))
        (plain_call w') (plain_call-Staged id content w content w' here) publish-Accepted

  sync_item-Accepted :
      (w' : Spool S)
      → InTmp id content w content w'
      → Accepted id content w (sync_item id (id ++ codes ".eml.tmp") w')
  unfolding sync_item
  sync_item-Accepted w' here =
      stage-Accepted id content w content true _ (close_item id (id ++ codes ".eml.tmp"))
        (plain_call w') (plain_call-Staged id content w content w' here) close_item-Accepted

  write_raw-Accepted :
      (w' : Spool S)
      → InTmp id content w line w'
      → Accepted id content w (write_raw id (id ++ codes ".eml.tmp") raw w')
  unfolding write_raw write_tmp
  write_raw-Accepted w' here =
      stage-Accepted id content w content true _ (sync_item id (id ++ codes ".eml.tmp"))
        (write_tmp (id ++ codes ".eml.tmp") raw w')
        (write_on-Staged id content w line raw w' (next_fault w'.faults) here) sync_item-Accepted

  write_meta-Accepted :
      (w' : Spool S)
      → InTmp id content w [] w'
      → Accepted id content w (write_meta id (id ++ codes ".eml.tmp") line raw w')
  unfolding write_meta write_tmp
  write_meta-Accepted w' here =
      stage-Accepted id content w line true _ (write_raw id (id ++ codes ".eml.tmp") raw)
        (write_tmp (id ++ codes ".eml.tmp") line w')
        (write_on-Staged id content w [] line w' (next_fault w'.faults) here) write_raw-Accepted

  create_item-Accepted :
      (r : Option Error × Spool S)
      → Staged id content w [] r
      → Accepted id content w (create_item id (id ++ codes ".eml.tmp") line raw r)
  unfolding create_item
  create_item-Accepted (some e, w') same = same
  create_item-Accepted (none, w') here = write_meta-Accepted w' here

  pub write_item-Accepted : Accepted id content w (write_item id line raw w)
  unfolding write_item
  write_item-Accepted = create_item-Accepted _ (open_tmp-Staged id content w)
