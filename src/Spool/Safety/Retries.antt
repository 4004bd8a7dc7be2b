-- ===== src/Spool/Safety/Retries.antt =====
-- The loop of `flush` of internal/spool/spool.go while the move out of the pending directory fails.
use mathlib.Core.List.{head?}
use smtp_store.Base.{
  ℕ, suc, ◌+◌, ◌≡◌, ◌∙◌, refl, ap, arith, Option, none, some, List, [], ◌∷◌, Text, Unicode, length,
}
use smtp_store.Base.Strings.Sort.{sort_texts}
use smtp_store.Base.Dict.{keys}
use smtp_store.Base.Os.{Outcome, Fault, Faults, next_fault}
use smtp_store.Storage.Result.{Result}
use smtp_store.Spool.{Spool, rename, plain_call, call, take_fault, on_success}
use smtp_store.Spool.Item.{Codec}
use smtp_store.Spool.Process.{
  items, cancelled, claim, process_one, after_claim, after_process, after_next, listed,
  next_pending, flush_round, flush,
}

-- Each read of the directory goes well, and each move that follows it meets the next fault.
abbrev pub failing_moves : List Fault → Faults → Faults
failing_moves [] rest = rest
failing_moves (f ∷ fs) rest = none ∷ some f ∷ failing_moves fs rest

module _ (c : Codec) ⦃u : Unicode⦄ {S : Type 0}
    (process_and_store : Text → ℕ → S → Outcome Result × S) where
  after_next-failing :
      (again : Spool S → Option (Spool S)) (w : Spool S) (f : Fault) (rest : Faults)
      (o : Option Text) (base : Text)
      → o ≡ some base
      → after_next c process_and_store again (o, record w { faults = some f ∷ rest })
        ≡ again (record w { faults = rest })
  unfolding after_next after_process process_one after_claim claim rename call take_fault on_success
      next_fault
  after_next-failing again w f rest none base e = cc
  after_next-failing again w f rest (some n) base e = refl

  round-failing :
      (again : Spool S → Option (Spool S)) (w : Spool S) (f : Fault) (rest : Faults) (base : Text)
      → head? (sort_texts (items (keys w.pending))) ≡ some base
      → after_next c process_and_store again
          (next_pending (record w { faults = none ∷ some f ∷ rest }))
        ≡ again (record w { faults = rest })
  unfolding next_pending listed plain_call take_fault next_fault
  round-failing again w f rest base e =
      after_next-failing again w f rest (head? (sort_texts (items (keys w.pending)))) base e

  module _ (w : Spool S) (base : Text)
      (first : head? (sort_texts (items (keys w.pending))) ≡ some base)
      (going : w.cancels ≡ []) where
    flush-failing :
        (rounds : ℕ) (f : Fault) (rest : Faults)
        → flush c process_and_store (suc rounds) (record w { faults = none ∷ some f ∷ rest })
          ≡ flush c process_and_store rounds (record w { faults = rest })
    unfolding flush flush_round cancelled
    flush-failing rounds f rest = rw going (
        round-failing (flush c process_and_store rounds) (record w { cancels = [] }) f rest base
          first)

    flush-all_failing :
        (fs : List Fault) (more : ℕ)
        → flush c process_and_store
            (length fs + more)
            (record w { faults = failing_moves fs w.faults })
          ≡ flush c process_and_store more w
    flush-all_failing [] more = ap (λ n. flush c process_and_store n w) (omega arith)
    flush-all_failing (f ∷ fs) more =
        ap
          (λ n. flush c process_and_store n (record w { faults = failing_moves (f ∷ fs) w.faults }))
          (omega arith)
        ∙ (flush-failing (length fs + more) f (failing_moves fs w.faults)
            ∙ flush-all_failing fs more)

    flush-still_failing :
        (fs : List Fault)
        → flush c process_and_store (length fs) (record w { faults = failing_moves fs w.faults })
          ≡ none
    flush-still_failing [] = unfold flush in refl
    flush-still_failing (f ∷ fs) =
        flush-failing (length fs) f (failing_moves fs w.faults) ∙ flush-still_failing fs

  -- While an item is pending and the context is not done, each move out of the pending directory that
  -- fails makes the loop of a flush go round once more, at once and with nothing changed: it does then
  -- what it did without the failures, in as many rounds more. So as long as the move fails the flush
  -- does not end: it is still going on after each of these rounds.
  pub flush-failing_moves :
      (w : Spool S) (base : Text)
      → head? (sort_texts (items (keys w.pending))) ≡ some base
      → w.cancels ≡ []
      → (fs : List Fault) (more : ℕ)
      → (flush c process_and_store
            (length fs + more)
            (record w { faults = failing_moves fs w.faults })
          ≡ flush c process_and_store more w)
        × (flush c process_and_store (length fs) (record w { faults = failing_moves fs w.faults })
            ≡ none)
  flush-failing_moves w base first going fs more =
      (flush-all_failing w base first going fs more, flush-still_failing w base first going fs)
