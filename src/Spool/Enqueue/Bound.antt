-- ===== src/Spool/Enqueue/Bound.antt =====
-- The size check of `Enqueue`, and what it bounds.
use mathlib.Core.Path.{subst}
use smtp_store.Base.{
  ℕ, ◌+◌, ◌≤◌, ◌<◌, ◌≡◌, refl, sym, ap, ◌∙◌, Option, none, [], ◌∷◌, ◌++◌, inl, inr, Text, codes,
  arith, ltb, ltb→le, lt→ltb, length, length-append, Bool-cases,
}
use smtp_store.Base.Dict.{Dict, lookup, insert}
use smtp_store.Base.Os.{Error, Outcome, ok, err}
use smtp_store.Spool.{Spool, plain_call}
use smtp_store.Spool.Calls.{drop_fault}
use smtp_store.Spool.Item.{Codec, new_id, meta_line}
use smtp_store.Spool.Item.Read.{plain_call-cases}
use smtp_store.Spool.Enqueue.{
  walk_next, walk_files, walk_dir, then_processing, size_locked, accept, check_size, enqueue,
}
use smtp_store.Spool.Enqueue.Laws.{SameItems, Accepted, SameItems-trans}
use smtp_store.Spool.Enqueue.Whole.{write_item-Accepted}

err-ne-ok {ℓ} : {A : Type ℓ} {e : Error} {a : A} → ¬ (err e ≡ ok a)
err-ne-ok h = cc

-- The bytes of a directory's files.
pub total : Dict Text → ℕ
total [] = 0
total ((n, content) ∷ d) = length content + total d

total-insert_absent :
    (n content : Text) (d : Dict Text)
    → lookup n d ≡ none
    → total (insert n content d) ≡ total d + length content
unfolding total lookup insert
total-insert_absent n content [] h = omega arith
total-insert_absent n content ((j, x) ∷ d) h = ground (arith, total-insert_absent n content d)

module _ {S : Type 0} where
  -- A walk fails, or gives the number; either way no item changes.
  abbrev Walked : Spool S → ℕ → Outcome ℕ × Spool S → Type 0
  Walked w n (err e, w') = SameItems w w'
  Walked w n (ok m, w') = (m ≡ n) × SameItems w w'

  walk_next-Walked :
      (w w' : Spool S) (n : ℕ) (next : Spool S → Outcome ℕ × Spool S)
      → SameItems w w'
      → ((v : Spool S) → SameItems w v → Walked w n (next v))
      → Walked w n (walk_next next (plain_call w'))
  unfolding walk_next
  walk_next-Walked w w' n next same rest = elim (plain_call-cases w') [
    | inl fine ↦ subst (λ r. Walked w n (walk_next next r)) (sym fine) (rest (drop_fault w') same)
    | inr (e, bad) ↦ subst (λ r. Walked w n (walk_next next r)) (sym bad) same
  ]

  walk_files-Walked :
      (d : Dict Text) (sum : ℕ) (w w' : Spool S)
      → SameItems w w'
      → Walked w (sum + total d) (walk_files d sum w')
  unfolding walk_files total
  walk_files-Walked [] sum w w' same = (omega arith, same)
  walk_files-Walked ((n, content) ∷ d) sum w w' same = walk_next-Walked w w' _ _ same λ v same'.
      subst (λ k. Walked w k (walk_files d (sum + length content) v)) (omega arith)
        (walk_files-Walked d (sum + length content) w v same')

  walk_dir-Walked :
      (d : Dict Text) (sum : ℕ) (w w' : Spool S)
      → SameItems w w'
      → Walked w (sum + total d) (walk_dir d sum w')
  unfolding walk_dir
  walk_dir-Walked d sum w w' same =
      walk_next-Walked w w' _ _ same (λ v same'. walk_files-Walked d sum w v same')

  then_processing-Walked :
      (w : Spool S) (r : Outcome ℕ × Spool S)
      → Walked w (total w.pending) r
      → Walked w (total w.pending + total w.processing) (then_processing r)
  unfolding then_processing
  then_processing-Walked w (err e, w') same = same
  then_processing-Walked w (ok n, w') (e, same) =
      subst (λ k. Walked w (k + total w.processing) (walk_dir w'.processing n w')) e
        (subst (λ d. Walked w (n + total d) (walk_dir w'.processing n w')) same.1
          (walk_dir-Walked w'.processing n w w' same))

  size_locked-Walked :
      (w : Spool S) → Walked w (total w.pending + total w.processing) (size_locked w)
  unfolding size_locked
  size_locked-Walked w = then_processing-Walked w (walk_dir w.pending 0 w) (
      subst (λ k. Walked w k (walk_dir w.pending 0 w)) (omega arith)
        (walk_dir-Walked w.pending 0 w w (refl, refl, refl, refl, refl, refl)))

  Accepted-trans :
      (id content : Text) (w w' : Spool S) (r : Outcome Text × Spool S)
      → SameItems w w'
      → Accepted id content w' r
      → Accepted id content w r
  Accepted-trans id content w w' (err e, v) same h = SameItems-trans w w' v same h
  Accepted-trans id content w w' (ok i, v) (a, b, d, e, f, g) (named, a', b', d', e', f', gone) =
      (named, a' ∙ ap (insert (id ++ codes ".eml") content) a, b' ∙ b, d' ∙ d, e' ∙ e, f' ∙ f, gone)

module _ (c : Codec) {S : Type 0} (max_bytes received_at : ℕ) (random : Option Text)
    (raw : Text) where
  -- The outcome for a spool with this clock.
  abbrev pub Spooled : Spool S → Outcome Text × Spool S → Type 0
  Spooled w = Accepted (new_id c received_at random w.now) (meta_line c received_at ++ raw) w

  accept-Spooled :
      (w w' : Spool S) → SameItems w w' → Spooled w (accept c max_bytes received_at random raw w')
  unfolding accept
  accept-Spooled w w' same =
      subst
        (λ n.
          Accepted (new_id c received_at random n) (meta_line c received_at ++ raw) w
            (accept c max_bytes received_at random raw w'))
        same.5
        (Accepted-trans _ (meta_line c received_at ++ raw) w w'
          (accept c max_bytes received_at random raw w') same
          (write_item-Accepted (new_id c received_at random w'.now) (meta_line c received_at) raw
            w'))

  check_size-Spooled :
      (w : Spool S) (n : ℕ) (r : Outcome ℕ × Spool S)
      → Walked w n r
      → Spooled w (check_size c max_bytes received_at random raw r)
  unfolding check_size
  check_size-Spooled w n (err e, w') same = same
  check_size-Spooled w n (ok m, w') (e, same) = elim (Bool-cases (ltb max_bytes (m + length raw))) [
    | inl full ↦ rw (full, Spooled, check_size) same
    | inr room ↦ rw (room, Spooled, check_size) (accept-Spooled w w' same)
  ]

  -- For every script of faults: an accepted message is pending under its name, whole and behind the
  -- line with its time of receipt, its temporary file is gone and no other item has changed. A
  -- message that is refused or meets a fault changes no pending, processing or failed item.
  pub enqueue-Spooled : (w : Spool S) → Spooled w (enqueue c max_bytes received_at random raw w)
  unfolding enqueue
  enqueue-Spooled w = elim (Bool-cases (ltb 0 max_bytes)) [
    | inl limited ↦
        rw (limited, Spooled, enqueue)
          (check_size-Spooled w _ (size_locked w) (size_locked-Walked w))
    | inr free ↦
        rw (free, Spooled, enqueue) (accept-Spooled w w (refl, refl, refl, refl, refl, refl))
  ]

  check_size-Fits :
      (w : Spool S) (n : ℕ) (r : Outcome ℕ × Spool S) {i : Text}
      → Walked w n r
      → (check_size c max_bytes received_at random raw r).0 ≡ ok i
      → n + length raw ≤ max_bytes
  unfolding check_size
  check_size-Fits w n (err e, w') walked h = cc
  check_size-Fits w n (ok m, w') (e, same) h = elim (Bool-cases (ltb max_bytes (m + length raw))) [
    | inl full ↦ absurd (err-ne-ok (rw (full, check_size) at h))
    | inr room ↦ omega (arith, e, ltb→le max_bytes (m + length raw) room)
  ]

  enqueue-Fits :
      (w : Spool S) {i : Text}
      → 0 < max_bytes
      → (enqueue c max_bytes received_at random raw w).0 ≡ ok i
      → total w.pending + total w.processing + length raw ≤ max_bytes
  unfolding enqueue
  enqueue-Fits w positive h =
      let limited = lt→ltb 0 max_bytes positive in
      check_size-Fits w _ (size_locked w) (size_locked-Walked w) (rw (limited, enqueue) at h)

  total-Spooled :
      (w : Spool S) (id : Text) (r : Outcome Text × Spool S) {i : Text}
      → Accepted id (meta_line c received_at ++ raw) w r
      → lookup (id ++ codes ".eml") w.pending ≡ none
      → r.0 ≡ ok i
      → total r.1.pending + total r.1.processing
        ≡ total w.pending + total w.processing + (length (meta_line c received_at) + length raw)
  total-Spooled w id (err e, w') h fresh done = cc
  total-Spooled w id (ok j, w') (named, a, b, _, _, _, _) fresh done =
      rw (a, b)
        (omega (
          arith,
          total-insert_absent (id ++ codes ".eml") (meta_line c received_at ++ raw) w.pending fresh,
          length-append (meta_line c received_at) raw,
        ))

  -- With a positive limit and a fresh name, the pending and processing files of a spool that has
  -- accepted a message hold at most the limit and one metadata line.
  pub total-enqueue :
      (w : Spool S) {i : Text}
      → 0 < max_bytes
      → lookup (new_id c received_at random w.now ++ codes ".eml") w.pending ≡ none
      → (enqueue c max_bytes received_at random raw w).0 ≡ ok i
      → total (enqueue c max_bytes received_at random raw w).1.pending
          + total (enqueue c max_bytes received_at random raw w).1.processing
        ≤ max_bytes + length (meta_line c received_at)
  total-enqueue w positive fresh done = omega (
    arith,
    enqueue-Fits w positive done,
    total-Spooled w (new_id c received_at random w.now)
        (enqueue c max_bytes received_at random raw w) (enqueue-Spooled w) fresh done,
  )
