-- ===== src/Spool/Safety/Worker.antt =====
-- `processOne` loses no message: the item is still spooled, or it was stored and handed on.
use mathlib.Core.Path.{subst}
use smtp_store.Base.{
  ℕ, ◌≡◌, refl, sym, ap, Bool, true, false, some, [], ◌∷◌, ◌++◌, ◌⊎◌, inl, inr, Text, Unicode,
  arith, Bool-cases, text_eq,
}
use smtp_store.Base.Strings.Equality.{text_eq_iff, text_eq_sound}
use smtp_store.Base.Dict.{lookup, erase, lookup-erase}
use smtp_store.Base.Os.{Faults, Outcome, ok, err, next_fault}
use smtp_store.Storage.Errors.{is_unavailable_error}
use smtp_store.Storage.Result.{Result}
use smtp_store.Spool.{Spool, pending_dir, processing_dir, remove}
use smtp_store.Spool.Calls.{drop_fault, remove-cases, rename-cases, moved}
use smtp_store.Spool.Item.{Codec, parse_item, read_item}
use smtp_store.Spool.Item.Read.{HasRead, read_item-HasRead}
use smtp_store.Spool.Process.{
  claim, move_to_failed, retain, post, received_at, after_store, after_read, after_claim,
  process_one,
}
use smtp_store.Spool.Safety.{IsValid, Holds, Carries}
use smtp_store.Spool.Safety.Moves.{retain-Carries, fail-Carries, to_processing-Carries}

module _ (c : Codec) ⦃u : Unicode⦄ {S : Type 0}
    (process_and_store : Text → ℕ → S → Outcome Result × S) where
  -- The message in `content` was stored, with the time of receipt of its first line or the clock,
  -- and its result was handed to the post-store handler.
  abbrev pub Delivered : Text → Spool S → Spool S → Type 0
  Delivered content w w' =
      (meta raw : Text) × (r : Result) × (parse_item c content ≡ ok (meta, raw))
      × (process_and_store raw (received_at c process_and_store meta w.now) w.store
          ≡ (ok r, w'.store))
      × (w'.posted ≡ w.posted ++ r ∷ [])

  -- The invariant holds on, and every item is still spooled, but for `base`, which may be delivered.
  abbrev pub KeepsOrDelivers : Text → Spool S → Spool S → Type 0
  KeepsOrDelivers base w w' =
      IsValid w'
      × ((n content : Text)
          → Holds n content w
          → Holds n content w' ⊎ ((n ≡ base) × Delivered content w w'))

  of_Carries : (base : Text) (w w' : Spool S) → IsValid w → Carries w w' → KeepsOrDelivers base w w'
  of_Carries base w w' v carries = ((carries v).0, λ n content h. inl ((carries v).1 n content h))

  module _ (base : Text) (w : Spool S) (v : IsValid w) where
    same_content :
        (n content content' : Text)
        → base ≡ n
        → lookup base w.processing ≡ some content
        → Holds n content' w
        → content ≡ content'
    same_content n content content' e there h = ground (
      arith,
      v base,
      ap (λ k. lookup k w.processing) e,
      ap (λ k. lookup k w.pending) e,
      ap (λ k. lookup k w.failed) e,
    )

    removed-KeepsOrDelivers :
        (s : S) (r : Result) (content meta raw : Text) (fs : Faults)
        → lookup base w.processing ≡ some content
        → parse_item c content ≡ ok (meta, raw)
        → process_and_store raw (received_at c process_and_store meta w.now) w.store ≡ (ok r, s)
        → KeepsOrDelivers base w
            (post r (record w { store = s; faults = fs; processing = erase base w.processing }))
    removed-KeepsOrDelivers s r content meta raw fs there is_item stored = (
      λ n. ground (arith, v n, lookup-erase base n w.processing, text_eq_iff base n),
      λ n content' h. elim (Bool-cases (text_eq base n)) [
        | inl same ↦
            let e = text_eq_sound base n same in
            inr (
              sym e,
              (
                meta,
                raw,
                r,
                subst (λ t. parse_item c t ≡ ok (meta, raw))
                    (same_content n content content' e there h) is_item,
                stored,
                refl,
              ),
            )
        | inr other ↦ inl (ground (arith, lookup-erase base n w.processing))
      ],
    )

    -- Behind a message that was stored: the file may be gone, or stay for a later run.
    stored-KeepsOrDelivers :
        (s : S) (r : Result) (content meta raw : Text) (fs : Faults)
        → lookup base w.processing ≡ some content
        → parse_item c content ≡ ok (meta, raw)
        → process_and_store raw (received_at c process_and_store meta w.now) w.store ≡ (ok r, s)
        → KeepsOrDelivers base w
            (post r (remove processing_dir base (record w { store = s; faults = fs })).1)
    stored-KeepsOrDelivers s r content meta raw fs there is_item stored =
        elim (remove-cases processing_dir base (record w { store = s; faults = fs })) [
          | inl (e, failed) ↦
              subst (λ x. KeepsOrDelivers base w (post r x.1)) (sym failed)
                (v, λ n content' h. inl h)
          | inr gone ↦
              subst (λ x. KeepsOrDelivers base w (post r x.1)) (sym gone)
                (removed-KeepsOrDelivers s r content meta raw (next_fault fs).1 there is_item
                  stored)
        ]

    after_store-KeepsOrDelivers :
        (content meta raw : Text) (fs : Faults) (o : Outcome Result × S)
        → lookup base w.processing ≡ some content
        → parse_item c content ≡ ok (meta, raw)
        → process_and_store raw (received_at c process_and_store meta w.now) w.store ≡ o
        → KeepsOrDelivers base w
            (after_store c process_and_store base o (record w { faults = fs })).1
    unfolding after_store retain move_to_failed
    after_store-KeepsOrDelivers content meta raw fs (ok r, s) there is_item stored =
        stored-KeepsOrDelivers s r content meta raw fs there is_item stored
    after_store-KeepsOrDelivers content meta raw fs (err e, s) there is_item stored =
        elim (is_unavailable_error (some e))
          as (λ b.
            KeepsOrDelivers base w
              (elim b as (λ _. Bool × Spool S) [
                | true ↦ (false, retain base (record w { faults = fs; store = s }))
                | false ↦ (true, move_to_failed base (record w { faults = fs; store = s }))
              ]).1) [
                | true ↦
                    of_Carries base w (retain base (record w { faults = fs; store = s })) v
                      (retain-Carries base (record w { faults = fs; store = s }))
                | false ↦
                    of_Carries base w (move_to_failed base (record w { faults = fs; store = s })) v
                      (fail-Carries base (record w { faults = fs; store = s }))
              ]

    after_read-KeepsOrDelivers :
        (r : Outcome (Text × Text) × Spool S)
        → HasRead c base w r
        → KeepsOrDelivers base w (after_read c process_and_store base r).1
    unfolding after_read move_to_failed
    after_read-KeepsOrDelivers (err e, w') (fs, _, same) =
        subst (λ x. KeepsOrDelivers base w (move_to_failed base x)) (sym same)
          (of_Carries base w (move_to_failed base (record w { faults = fs })) v
            (fail-Carries base (record w { faults = fs })))
    after_read-KeepsOrDelivers (ok (meta, raw), w') ((fs, _, same), (content, there, is_item)) =
        subst
          (λ x.
            KeepsOrDelivers base w
              (after_store c process_and_store base
                (process_and_store raw (received_at c process_and_store meta x.now) x.store) x).1)
          (sym same) (after_store-KeepsOrDelivers content meta raw fs _ there is_item refl)

  -- For every script of faults and whatever the store answers: no name comes to stand in two
  -- directories, and each spooled item is still spooled with its content, but that the item worked on
  -- may instead be parsed, stored with its time of receipt, and handed to the post-store handler.
  pub process_one-KeepsOrDelivers :
      (base : Text) (w : Spool S)
      → IsValid w
      → KeepsOrDelivers base w (process_one c process_and_store base w).1
  unfolding process_one claim
  process_one-KeepsOrDelivers base w v =
      elim (rename-cases pending_dir base processing_dir base w) [
        | inl (e, failed) ↦
            subst (λ r. KeepsOrDelivers base w (after_claim c process_and_store base r).1)
              (sym failed) (v, λ n content h. inl h)
        | inr (x, there, made) ↦
            let w1 : Spool S = moved pending_dir base processing_dir base x (drop_fault w) in
            let (v1, kept) = to_processing-Carries base x w there v in
            let (v2, ends) =
              after_read-KeepsOrDelivers base w1 v1 (read_item c processing_dir base w1)
                (read_item-HasRead c base w1) in
            subst (λ r. KeepsOrDelivers base w (after_claim c process_and_store base r).1)
              (sym made) (v2, λ n content h. ends n content (kept n content h))
      ]
