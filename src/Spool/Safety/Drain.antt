-- ===== src/Spool/Safety/Drain.antt =====
-- A flush empties the queue when nothing outside is in its way.
use mathlib.Core.Path.{subst}
use mathlib.Core.List.{head?}
use smtp_store.Base.{
  ℕ, zero, suc, ◌≤◌, ◌<◌, Option-cases, ◌≡◌, ◌≢◌, refl, ap, sym, arith, Bool, true, false, Option,
  none, some, inl, inr, List, [], ◌∷◌, Text, Unicode, length,
}
use smtp_store.Base.Strings.Sort.{insert_text, sort_texts}
use smtp_store.Base.Dict.{insert, erase, keys}
use smtp_store.Base.Os.{Error, Faults, Outcome, ok, err, next_fault}
use smtp_store.Storage.Errors.{is_unavailable_error}
use smtp_store.Storage.Result.{Result}
use smtp_store.Spool.{
  Spool, Dir, pending_dir, processing_dir, failed_dir, tmp_dir, with_files, files, rename, remove,
  plain_call,
}
use smtp_store.Spool.Calls.{take_fault-cases, drop_fault, rename-cases, remove-cases}
use smtp_store.Spool.Item.{Codec, read_item}
use smtp_store.Spool.Item.Read.{HasRead, read_item-HasRead}
use smtp_store.Spool.Process.{
  items, cancelled, claim, move_to_failed, received_at, after_store, after_read, after_claim,
  process_one, listed, next_pending, after_process, after_next, flush_round, flush, flush,
}
use smtp_store.Spool.Safety.Ends.{flush-ne-none}

next_fault-nil : (fs : Faults) → fs ≡ [] → (next_fault fs).1 ≡ []
unfolding next_fault
next_fault-nil [] h = refl
next_fault-nil (f ∷ fs) h = cc

length-le_zero : (fs : Faults) (gs : Faults) → gs ≡ [] → length fs ≤ length gs → fs ≡ []
length-le_zero [] gs h le = refl
length-le_zero (f ∷ fs) [] h le = absurd (omega arith)
length-le_zero (f ∷ fs) (g ∷ gs) h le = cc

cancelled-nil : (cancels : List Bool) → cancels ≡ [] → cancelled cancels ≡ (false, [])
unfolding cancelled
cancelled-nil [] h = refl
cancelled-nil (b ∷ bs) h = cc

module _ {S : Type 0} where
  -- No call to come fails for a reason outside the program, and the context is not done.
  abbrev pub IsCalm : Spool S → Type 0
  IsCalm w = (w.faults ≡ []) × (w.cancels ≡ [])

  drop_fault-IsCalm : (w : Spool S) → IsCalm w → IsCalm (drop_fault w)
  drop_fault-IsCalm w (f, c) = (next_fault-nil w.faults f, c)

  with_files-IsCalm :
      (dir : Dir) (d : List (Text × Text)) (w : Spool S) → IsCalm w → IsCalm (with_files dir d w)
  with_files-IsCalm pending_dir d w h = h
  with_files-IsCalm processing_dir d w h = h
  with_files-IsCalm failed_dir d w h = h
  with_files-IsCalm tmp_dir d w h = h

  rename-IsCalm :
      (from : Dir) (name : Text) (to : Dir) (name' : Text) (w : Spool S)
      → IsCalm w
      → IsCalm (rename from name to name' w).1
  rename-IsCalm from name to name' w h = elim (rename-cases from name to name' w) [
    | inl (e, failed) ↦ subst (λ r. IsCalm r.1) (sym failed) (drop_fault-IsCalm w h)
    | inr (c, there, made) ↦
        let v : Spool S = drop_fault w in
        let gone : Spool S = with_files from (erase name (files from v)) v in
        subst (λ r. IsCalm r.1) (sym made)
          (with_files-IsCalm to (insert name' c (files to gone)) gone
            (with_files-IsCalm from (erase name (files from v)) v (drop_fault-IsCalm w h)))
  ]

  remove-IsCalm : (dir : Dir) (name : Text) (w : Spool S) → IsCalm w → IsCalm (remove dir name w).1
  remove-IsCalm dir name w h = elim (remove-cases dir name w) [
    | inl (e, failed) ↦ subst (λ r. IsCalm r.1) (sym failed) (drop_fault-IsCalm w h)
    | inr made ↦
        subst (λ r. IsCalm r.1) (sym made)
          (with_files-IsCalm dir (erase name (files dir (drop_fault w))) (drop_fault w)
            (drop_fault-IsCalm w h))
  ]

  plain_call-IsCalm : (w : Spool S) → IsCalm w → plain_call w ≡ (none, drop_fault w)
  unfolding plain_call
  plain_call-IsCalm w (f, c) = elim (take_fault-cases w) [
    | inl fine ↦ fine
    | inr (e, fewer, bad) ↦
        absurd (omega (arith, subst (λ fs. length (next_fault fs).1 < length fs) f fewer))
  ]

  -- No item is pending.
  abbrev pub IsDrained : Spool S → Type 0
  IsDrained w = items (keys w.pending) ≡ []

module _ (c : Codec) ⦃u : Unicode⦄ {S : Type 0}
    (process_and_store : Text → ℕ → S → Outcome Result × S)
    (reachable : (raw : Text) (at : ℕ) (s : S) (e : Error)
      → (process_and_store raw at s).0 ≡ err e
      → is_unavailable_error (some e) ≡ false) where
  -- The flush goes on, and still nothing is in its way.
  abbrev GoesOn : Bool × Spool S → Type 0
  GoesOn r = (r.0 ≡ true) × IsCalm r.1

  after_store-GoesOn :
      (base : Text) (r : Outcome Result × S) (w : Spool S)
      → ((e : Error) → r.0 ≡ err e → is_unavailable_error (some e) ≡ false)
      → IsCalm w
      → GoesOn (after_store c process_and_store base r w)
  unfolding after_store move_to_failed
  after_store-GoesOn base (err e, s) w h k =
      rw (h e refl, after_store)
        (refl, rename-IsCalm processing_dir base failed_dir base (record w { store = s }) k)
  after_store-GoesOn base (ok r, s) w h k =
      (refl, remove-IsCalm processing_dir base (record w { store = s }) k)

  after_read-GoesOn :
      (base : Text) (r : Outcome (Text × Text)) (w : Spool S)
      → IsCalm w
      → GoesOn (after_read c process_and_store base (r, w))
  unfolding after_read move_to_failed
  after_read-GoesOn base (err e) w k = (refl, rename-IsCalm processing_dir base failed_dir base w k)
  after_read-GoesOn base (ok (meta, raw)) w k =
      after_store-GoesOn base _ w
        (reachable raw (received_at c process_and_store meta w.now) w.store) k

  HasRead-IsCalm :
      (base : Text) (w : Spool S) (r : Outcome (Text × Text)) (w' : Spool S)
      → HasRead c base w (r, w')
      → IsCalm w
      → IsCalm w'
  HasRead-IsCalm base w (err e) w' (fs, le, same) (f, k) =
      subst IsCalm (sym same) (length-le_zero fs w.faults f le, k)
  HasRead-IsCalm base w (ok item) w' ((fs, le, same), more) (f, k) =
      subst IsCalm (sym same) (length-le_zero fs w.faults f le, k)

  read-GoesOn :
      (base : Text) (w : Spool S) (r : Outcome (Text × Text) × Spool S)
      → HasRead c base w r
      → IsCalm w
      → GoesOn (after_read c process_and_store base r)
  read-GoesOn base w (r, w') h k = after_read-GoesOn base r w' (HasRead-IsCalm base w r w' h k)

  claimed-GoesOn :
      (base : Text) (r : Option Error × Spool S)
      → IsCalm r.1
      → GoesOn (after_claim c process_and_store base r)
  unfolding after_claim
  claimed-GoesOn base (some e, w) k = (refl, k)
  claimed-GoesOn base (none, w) k =
      read-GoesOn base w (read_item c processing_dir base w) (read_item-HasRead c base w) k

  process_one-GoesOn :
      (base : Text) (w : Spool S) → IsCalm w → GoesOn (process_one c process_and_store base w)
  unfolding process_one claim
  process_one-GoesOn base w k =
      claimed-GoesOn base (rename pending_dir base processing_dir base w)
        (rename-IsCalm pending_dir base processing_dir base w k)

  -- What the loop is asked of each later round.
  abbrev Drains : (Spool S → Option (Spool S)) → Type 0
  Drains again = (v w' : Spool S) → IsCalm v → again v ≡ some w' → IsDrained w'

  after_process-IsDrained :
      (again : Spool S → Option (Spool S))
      → Drains again
      → (r : Bool × Spool S) (w' : Spool S) → GoesOn r
      → after_process c process_and_store again r ≡ some w'
      → IsDrained w'
  unfolding after_process
  after_process-IsDrained again drains (true, v) w' (go, k) h = drains v w' k h
  after_process-IsDrained again drains (false, v) w' (go, k) h = cc

  insert_text-ne-nil : (s : Text) (ts : List Text) → insert_text s ts ≢ []
  unfolding insert_text
  insert_text-ne-nil s [] = cc
  insert_text-ne-nil s (t ∷ ts) = ground arith

  head-none : (ts : List Text) → head? (sort_texts ts) ≡ none → ts ≡ []
  unfolding sort_texts
  head-none [] h = refl
  head-none (t ∷ ts) h =
      absurd (by_list (insert_text t (sort_texts ts)) (insert_text-ne-nil t (sort_texts ts)) h)
    where
      by_list : (us : List Text) → us ≢ [] → head? us ≡ none → ⊥
      by_list [] n k = n refl
      by_list (u ∷ us) n k = cc

  after_next-IsDrained :
      (again : Spool S → Option (Spool S))
      → Drains again
      → (w w' : Spool S) (o : Option Text) → head? (sort_texts (items (keys w.pending))) ≡ o
      → IsCalm w
      → after_next c process_and_store again (o, w) ≡ some w'
      → IsDrained w'
  unfolding after_next
  after_next-IsDrained again drains w w' none there k h =
      let same : w ≡ w' = cc in subst IsDrained same (head-none (items (keys w.pending)) there)
  after_next-IsDrained again drains w w' (some n) there k h =
      after_process-IsDrained again drains _ w' (process_one-GoesOn n w k) h

  round-IsDrained :
      (again : Spool S → Option (Spool S))
      → Drains again
      → (d : Bool × List Bool) (w w' : Spool S) → d ≡ (false, [])
      → IsCalm w
      → flush_round c process_and_store again d w ≡ some w'
      → IsDrained w'
  unfolding flush_round next_pending listed
  round-IsDrained again drains (true, rest) w w' e k h = cc
  round-IsDrained again drains (false, rest) w w' e k h =
      let v : Spool S = record w { cancels = rest } in
      let calm : IsCalm v = (k.0, cc) in
      after_next-IsDrained again drains (drop_fault v) w' _ refl (drop_fault-IsCalm v calm) (
        subst (λ r. after_next c process_and_store again (listed r) ≡ some w')
          (plain_call-IsCalm v calm) h)

  flush-some-IsDrained :
      (fuel : ℕ) (w w' : Spool S)
      → IsCalm w
      → flush c process_and_store fuel w ≡ some w'
      → IsDrained w'
  unfolding flush
  flush-some-IsDrained zero w w' k h = cc
  flush-some-IsDrained (suc fuel) w w' k h =
      round-IsDrained (flush c process_and_store fuel) (flush-some-IsDrained fuel)
        (cancelled w.cancels) w w' (cancelled-nil w.cancels k.1) k h

  -- When no call to come fails, the context is not done and the store never says that its storage
  -- cannot be reached, the loop of a flush ends with no item pending, and takes at most one round more
  -- than there are files pending.
  pub flush-IsDrained :
      (rounds : ℕ) (w : Spool S)
      → IsCalm w
      → length w.pending < rounds
      → (w' : Spool S) × (flush c process_and_store rounds w ≡ some w') × IsDrained w'
  flush-IsDrained rounds w k enough = elim (Option-cases (flush c process_and_store rounds w)) [
    | inl e ↦
        let none_left : length w.faults ≡ 0 = ap length k.0 in
        absurd (flush-ne-none c process_and_store rounds w (omega (arith, none_left, enough)) e)
    | inr (w', e) ↦ (w', e, flush-some-IsDrained rounds w w' k e)
  ]
