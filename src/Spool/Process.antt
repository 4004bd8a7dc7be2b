-- ===== src/Spool/Process.antt =====
-- The background worker of internal/spool/spool.go: `run`, `flush`, `processOne`, `nextPending`,
-- `recoverProcessing` and `moveToFailed`.
use mathlib.Core.List.{head?}
use smtp_store.Base.{
  ℕ, zero, suc, Bool, true, false, Option, none, some, List, [], ◌∷◌, ◌++◌, Text, codes, Unicode,
  has_suffix, if◌then◌else◌,
}
use smtp_store.Base.Strings.Sort.{sort_texts}
use smtp_store.Base.Dict.{keys}
use smtp_store.Base.Os.{Error, Outcome, ok, err}
use smtp_store.Storage.Errors.{is_unavailable_error}
use smtp_store.Storage.Result.{Result}
use smtp_store.Spool.{Spool, pending_dir, processing_dir, failed_dir, rename, remove, plain_call}
use smtp_store.Spool.Item.{Codec, read_item}

-- The names that `nextPending` takes for items.
unfoldable pub items : List Text → List Text
items [] = []
items (n ∷ ns) = let rest = items ns in if has_suffix n (codes ".eml") then n ∷ rest else rest

-- Whether `ctx.Done()` is closed at the next look.
unfoldable pub cancelled : List Bool → Bool × List Bool
cancelled [] = (false, [])
cancelled (b ∷ bs) = (b, bs)

module _ {S : Type 0} where
  -- `os.Rename` from the pending into the processing directory.
  unfoldable pub claim : Text → Spool S → Option Error × Spool S
  claim base w = rename pending_dir base processing_dir base w

  unfoldable pub move_to_failed : Text → Spool S → Spool S
  move_to_failed base w = (rename processing_dir base failed_dir base w).1

  -- Back to the pending directory, for a later flush.
  unfoldable pub retain : Text → Spool S → Spool S
  retain base w = (rename processing_dir base pending_dir base w).1

  abbrev pub post : Result → Spool S → Spool S
  post r w = record w { posted = w.posted ++ r ∷ [] }

  unfoldable pub listed : Option Error × Spool S → Option Text × Spool S
  unfolding items sort_texts
  listed (some e, w) = (none, w)
  listed (none, w) = (head? (sort_texts (items (keys w.pending))), w)

  -- The first item in the order of names.
  unfoldable pub next_pending : Spool S → Option Text × Spool S
  unfolding listed plain_call keys
  next_pending w = listed (plain_call w)

  -- The loop of `recoverProcessing`; an item that cannot be moved is left.
  unfoldable pub recover_each : List Text → Spool S → Spool S
  recover_each [] w = w
  recover_each (n ∷ ns) w = recover_each ns (rename processing_dir n pending_dir n w).1

  unfoldable pub recover_listed : Option Error × Spool S → Spool S
  unfolding recover_each
  recover_listed (some e, w) = w
  recover_listed (none, w) = recover_each (keys w.processing) w

  unfoldable pub recover_processing : Spool S → Spool S
  unfolding recover_listed plain_call
  recover_processing w = recover_listed (plain_call w)

module _ (c : Codec) ⦃u : Unicode⦄ {S : Type 0}
    (process_and_store : Text → ℕ → S → Outcome Result × S) where
  -- The time of receipt, or the clock where the line does not hold one.
  unfoldable pub received_at : Text → ℕ → ℕ
  received_at meta now = elim (c.parse_nano meta) [ none ↦ now | some t ↦ t ]

  unfoldable pub after_store : Text → Outcome Result × S → Spool S → Bool × Spool S
  after_store base (err e, s) w = elim (is_unavailable_error (some e)) [
    | true ↦ (false, retain base (record w { store = s }))
    | false ↦ (true, move_to_failed base (record w { store = s }))
  ]
  after_store base (ok r, s) w =
      (true, post r (remove processing_dir base (record w { store = s })).1)

  unfoldable pub after_read : Text → Outcome (Text × Text) × Spool S → Bool × Spool S
  unfolding after_store received_at
  after_read base (err e, w) = (true, move_to_failed base w)
  after_read base (ok (meta, raw), w) =
      after_store base (process_and_store raw (received_at meta w.now) w.store) w

  unfoldable pub after_claim : Text → Option Error × Spool S → Bool × Spool S
  unfolding after_read
  after_claim base (some e, w) = (true, w)
  after_claim base (none, w) = after_read base (read_item c processing_dir base w)

  -- One item; `false` asks the flush to stop.
  unfoldable pub process_one : Text → Spool S → Bool × Spool S
  unfolding after_claim
  process_one base w = after_claim base (claim base w)

  unfoldable pub after_process : (Spool S → Option (Spool S)) → Bool × Spool S → Option (Spool S)
  after_process again (true, w) = again w
  after_process again (false, w) = some w

  unfoldable pub after_next :
      (Spool S → Option (Spool S)) → Option Text × Spool S → Option (Spool S)
  unfolding after_process
  after_next again (none, w) = some w
  after_next again (some base, w) = after_process again (process_one base w)

  unfoldable pub flush_round :
      (Spool S → Option (Spool S)) → Bool × List Bool → Spool S → Option (Spool S)
  unfolding after_next
  flush_round again (true, rest) w = some (record w { cancels = rest })
  flush_round again (false, rest) w = after_next again (next_pending (record w { cancels = rest }))

  -- `flush`, up to so many rounds of its loop; `none` says that the loop goes on after them. A loop
  -- without end, on a move out of the pending directory that fails each time, is `none` for every
  -- number of rounds.
  unfoldable pub flush : ℕ → Spool S → Option (Spool S)
  unfolding flush_round cancelled
  flush zero w = none
  flush (suc rounds) w = flush_round (flush rounds) (cancelled w.cancels) w

  -- `run` up to its first tick.
  unfoldable pub start : ℕ → Spool S → Option (Spool S)
  unfolding flush
  start rounds w = flush rounds (recover_processing w)
