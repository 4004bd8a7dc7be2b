-- ===== src/Spool/Safety/Moves.antt =====
-- Moving a file between the directories carries every item over.
use mathlib.Core.Path.{subst}
use smtp_store.Base.{◌≡◌, sym, some, inl, inr, Text, arith}
use smtp_store.Base.Strings.Equality.{text_eq_iff}
use smtp_store.Base.Dict.{lookup, lookup-insert, lookup-erase}
use smtp_store.Spool.{Spool, Dir, pending_dir, processing_dir, failed_dir, files, rename}
use smtp_store.Spool.Calls.{drop_fault, moved, rename-cases}
use smtp_store.Spool.Safety.{Carries}

module _ {S : Type 0} where
  pub Carries-refl : (w : Spool S) → Carries w w
  Carries-refl w v = (v, λ n content h. h)

  pub Carries-trans : (w w' w'' : Spool S) → Carries w w' → Carries w' w'' → Carries w w''
  Carries-trans w w' w'' f g v =
      ((g (f v).0).0, λ n content h. (g (f v).0).1 n content ((f v).1 n content h))

  module _ (base c : Text) (w : Spool S) where
    pub to_processing-Carries :
        lookup base w.pending ≡ some c → Carries w (moved pending_dir base processing_dir base c w)
    to_processing-Carries there v = (
      λ n. ground (
        arith,
        v n,
        v base,
        lookup-erase base n w.pending,
        lookup-insert base n c w.processing,
        text_eq_iff base n,
      ),
      λ n content h. ground (
        arith,
        v n,
        lookup-erase base n w.pending,
        lookup-insert base n c w.processing,
        text_eq_iff base n,
      ),
    )

    to_pending-Carries :
        lookup base w.processing ≡ some c
        → Carries w (moved processing_dir base pending_dir base c w)
    to_pending-Carries there v = (
      λ n. ground (
        arith,
        v n,
        v base,
        lookup-erase base n w.processing,
        lookup-insert base n c w.pending,
        text_eq_iff base n,
      ),
      λ n content h. ground (
        arith,
        v n,
        lookup-erase base n w.processing,
        lookup-insert base n c w.pending,
        text_eq_iff base n,
      ),
    )

    to_failed-Carries :
        lookup base w.processing ≡ some c
        → Carries w (moved processing_dir base failed_dir base c w)
    to_failed-Carries there v = (
      λ n. ground (
        arith,
        v n,
        v base,
        lookup-erase base n w.processing,
        lookup-insert base n c w.failed,
        text_eq_iff base n,
      ),
      λ n content h. ground (
        arith,
        v n,
        lookup-erase base n w.processing,
        lookup-insert base n c w.failed,
        text_eq_iff base n,
      ),
    )

  -- A rename that may fail carries every item over, if the move that it makes does.
  rename-Carries :
      (from : Dir) (base : Text) (to : Dir) (w : Spool S)
      → ((c : Text)
          → lookup base (files from w) ≡ some c
          → Carries w (moved from base to base c (drop_fault w)))
      → Carries w (rename from base to base w).1
  rename-Carries from base to w step = elim (rename-cases from base to base w) [
    | inl (e, failed) ↦ subst (λ r. Carries w r.1) (sym failed) (Carries-refl w)
    | inr (c, there, made) ↦ subst (λ r. Carries w r.1) (sym made) (step c there)
  ]

  module _ (base : Text) (w : Spool S) where
    pub claim-Carries : Carries w (rename pending_dir base processing_dir base w).1
    claim-Carries =
        rename-Carries pending_dir base processing_dir w λ c. to_processing-Carries base c w

    pub retain-Carries : Carries w (rename processing_dir base pending_dir base w).1
    retain-Carries =
        rename-Carries processing_dir base pending_dir w λ c. to_pending-Carries base c w

    pub fail-Carries : Carries w (rename processing_dir base failed_dir base w).1
    fail-Carries = rename-Carries processing_dir base failed_dir w λ c. to_failed-Carries base c w
