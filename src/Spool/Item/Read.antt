-- ===== src/Spool/Item/Read.antt =====
-- What `readItem` returns, and what it leaves alone.
use mathlib.Core.Path.{subst}
use smtp_store.Base.{
  ◌≡◌, refl, sym, Option, none, some, ◌⊎◌, inl, inr, Text, Unicode, arith, length, ◌≤◌, [], ◌∷◌,
}
use smtp_store.Base.Dict.{lookup}
use smtp_store.Base.Os.{Error, Faults, Outcome, ok, err, next_fault}
use smtp_store.Spool.{Spool, plain_call, processing_dir}
use smtp_store.Spool.Calls.{drop_fault, take_fault-cases}
use smtp_store.Spool.Item.{
  Codec, parse_item, rest_read, parsed, line_read, found, opened, read_item,
}

pub length-next_fault : (fs : Faults) → length (next_fault fs).1 ≤ length fs
unfolding next_fault
length-next_fault [] = omega arith
length-next_fault (f ∷ fs) = omega arith

module _ {S : Type 0} where
  -- Only faults have been used up.
  abbrev pub UpToFaults : Spool S → Spool S → Type 0
  UpToFaults w w' = (fs : Faults) × (length fs ≤ length w.faults) × (w' ≡ record w { faults = fs })

  pub plain_call-cases :
      (w : Spool S)
      → (plain_call w ≡ (none, drop_fault w))
        ⊎ ((e : Error) × (plain_call w ≡ (some e, drop_fault w)))
  unfolding plain_call
  plain_call-cases w = elim (take_fault-cases w) [
    | inl fine ↦ inl fine
    | inr (e, fewer, bad) ↦ inr (e, bad)
  ]

module _ (c : Codec) ⦃u : Unicode⦄ {S : Type 0} where
  -- What a read of `base` in the processing directory of `w` may give.
  abbrev pub HasRead : Text → Spool S → Outcome (Text × Text) × Spool S → Type 0
  HasRead base w (err e, w') = UpToFaults w w'
  HasRead base w (ok item, w') =
      UpToFaults w w'
      × ((content : Text) × (lookup base w.processing ≡ some content)
          × (parse_item c content ≡ ok item))

  module _ (base : Text) (w : Spool S) where
    rest-HasRead :
        (fs : Faults) (le : length fs ≤ length w.faults) (content : Text) (item : Text × Text)
        → lookup base w.processing ≡ some content
        → parse_item c content ≡ ok item
        → HasRead base w (rest_read c item (plain_call (record w { faults = fs })))
    unfolding rest_read
    rest-HasRead fs le content item there is_item =
        elim (plain_call-cases (record w { faults = fs })) [
          | inl fine ↦
              subst (λ r. HasRead base w (rest_read c item r)) (sym fine)
                ((_, omega (arith, length-next_fault fs), refl), (content, there, is_item))
          | inr (e, bad) ↦
              subst (λ r. HasRead base w (rest_read c item r)) (sym bad)
                (_, omega (arith, length-next_fault fs), refl)
        ]

    parsed-HasRead :
        (fs : Faults) (le : length fs ≤ length w.faults) (content : Text)
        (o : Outcome (Text × Text))
        → lookup base w.processing ≡ some content
        → parse_item c content ≡ o
        → HasRead base w (parsed c o (record w { faults = fs }))
    unfolding parsed
    parsed-HasRead fs le content (err e) there is_item = (fs, le, refl)
    parsed-HasRead fs le content (ok item) there is_item =
        rest-HasRead fs le content item there is_item

    line-HasRead :
        (fs : Faults) (le : length fs ≤ length w.faults) (content : Text)
        → lookup base w.processing ≡ some content
        → HasRead base w (line_read c content (plain_call (record w { faults = fs })))
    unfolding line_read
    line-HasRead fs le content there = elim (plain_call-cases (record w { faults = fs })) [
      | inl fine ↦
          subst (λ r. HasRead base w (line_read c content r)) (sym fine)
            (parsed-HasRead _ (omega (arith, length-next_fault fs)) content (parse_item c content)
              there refl)
      | inr (e, bad) ↦
          subst (λ r. HasRead base w (line_read c content r)) (sym bad)
            (_, omega (arith, length-next_fault fs), refl)
    ]

    found-HasRead :
        (fs : Faults) (le : length fs ≤ length w.faults) (o : Option Text)
        → lookup base w.processing ≡ o
        → HasRead base w (found c o (record w { faults = fs }))
    unfolding found
    found-HasRead fs le none there = (fs, le, refl)
    found-HasRead fs le (some content) there = line-HasRead fs le content there

    -- A read changes no file; what it returns was parsed from the file's content.
    pub read_item-HasRead : HasRead base w (read_item c processing_dir base w)
    unfolding read_item
    read_item-HasRead = elim (plain_call-cases w) [
      | inl fine ↦
          subst (λ r. HasRead base w (opened c processing_dir base r)) (sym fine)
            (found-HasRead _ (length-next_fault w.faults) (lookup base w.processing) refl)
      | inr (e, bad) ↦
          subst (λ r. HasRead base w (opened c processing_dir base r)) (sym bad)
            (_, length-next_fault w.faults, refl)
    ]
