-- ===== src/Spool/Safety/Ends.antt =====
-- How long `flush` of internal/spool/spool.go goes on: each round uses up a fault of the script or takes
-- an item out of the pending directory.
use mathlib.Core.Path.{subst}
use mathlib.Core.List.{head?}
use smtp_store.Base.{
  ℕ, zero, suc, ◌+◌, ◌<◌, ◌≤◌, ◌≡◌, ◌≢◌, refl, sym, Bool, true, false, Option, none, some, List, [],
  ◌∷◌, inl, inr, Text, codes, Unicode, arith, length, All, has_suffix, Bool-cases,
}
use smtp_store.Base.Strings.Equality.{text_eq_iff}
use smtp_store.Base.Strings.Sort.{sort_texts, sort_texts-All}
use smtp_store.Base.Dict.{Dict, lookup, keys, length-erase_present}
use smtp_store.Base.Os.{Outcome, ok, err}
use smtp_store.Storage.Errors.{is_unavailable_error}
use smtp_store.Storage.Result.{Result}
use smtp_store.Spool.{Spool, pending_dir, processing_dir, failed_dir, rename, remove}
use smtp_store.Spool.Calls.{drop_fault, moved, rename-cases, rename_cases_lem, remove-cases}
use smtp_store.Spool.Item.{Codec, read_item}
use smtp_store.Spool.Item.Read.{HasRead, read_item-HasRead, length-next_fault, plain_call-cases}
use smtp_store.Spool.Process.{
  items, claim, move_to_failed, retain, received_at, after_store, after_read, after_claim,
  process_one, next_pending, listed, after_process, after_next, flush_round, flush,
}

-- The keys of a map are in it.
All-weaken : (P Q : Text → Type 0) (ns : List Text) → ((n : Text) → P n → Q n) → All P ns → All Q ns
All-weaken P Q [] f h = tt
All-weaken P Q (n ∷ ns) f (h, hs) = (f n h, All-weaken P Q ns f hs)

abbrev Present : Dict Text → Text → Type 0
Present d n = lookup n d ≢ none

keys-Present : (d : Dict Text) → All (Present d) (keys d)
unfolding keys lookup
keys-Present [] = tt
keys-Present ((j, c) ∷ d) = (
  ground (arith, text_eq_iff j j),
  All-weaken (Present d) (Present ((j, c) ∷ d)) (keys d) (λ n h. ground arith) (keys-Present d),
)

items-All : (P : Text → Type 0) (ns : List Text) → All P ns → All P (items ns)
unfolding items
items-All P [] h = tt
items-All P (n ∷ ns) (h, hs) = elim (Bool-cases (has_suffix n (codes ".eml"))) [
  | inl item ↦ rw (item, items) (h, items-All P ns hs)
  | inr other ↦ rw (other, items) (items-All P ns hs)
]

head-All : (P : Text → Type 0) (ns : List Text) (n : Text) → All P ns → head? ns ≡ some n → P n
head-All P [] n h e = cc
head-All P (m ∷ ns) n (h, hs) e = let same : m ≡ n = ground (arith, e) in subst P same h

first-Present :
    (d : Dict Text) (n : Text) → head? (sort_texts (items (keys d))) ≡ some n → Present d n
first-Present d n =
    head-All (Present d) _ n
      (sort_texts-All (Present d) _ (items-All (Present d) _ (keys-Present d)))

module _ {S : Type 0} where
  abbrev measure : Spool S → ℕ
  measure w = length w.faults + length w.pending

  -- A claim of an item that is there uses up a fault, or takes the item.
  Falls : ℕ → Bool × Spool S → Type 0
  Falls m (true, w) = measure w < m
  Falls m (false, w) = Unit

  rename-measure :
      (base : Text) (w : Spool S)
      → measure (rename processing_dir base failed_dir base w).1 ≤ measure w
  rename-measure base w = elim (rename-cases processing_dir base failed_dir base w) [
    | inl (e, failed) ↦
        subst (λ r. measure r.1 ≤ measure w) (sym failed)
          (omega (arith, length-next_fault w.faults))
    | inr (c, there, made) ↦
        subst (λ r. measure r.1 ≤ measure w) (sym made) (omega (arith, length-next_fault w.faults))
  ]

  remove-measure :
      (base : Text) (w : Spool S) → measure (remove processing_dir base w).1 ≤ measure w
  remove-measure base w = elim (remove-cases processing_dir base w) [
    | inl (e, failed) ↦
        subst (λ r. measure r.1 ≤ measure w) (sym failed)
          (omega (arith, length-next_fault w.faults))
    | inr made ↦
        subst (λ r. measure r.1 ≤ measure w) (sym made) (omega (arith, length-next_fault w.faults))
  ]

module _ (c : Codec) ⦃u : Unicode⦄ {S : Type 0}
    (process_and_store : Text → ℕ → S → Outcome Result × S) where
  after_store-Falls :
      (m : ℕ) (base : Text) (o : Outcome Result × S) (w : Spool S)
      → measure w < m
      → Falls m (after_store c process_and_store base o w)
  unfolding after_store Falls move_to_failed
  after_store-Falls m base (ok r, s) w h =
      omega (arith, remove-measure base (record w { store = s }))
  after_store-Falls m base (err e, s) w h =
      elim (is_unavailable_error (some e))
        as (λ b. Falls m (elim b as (λ _. Bool × Spool S) [
          | true ↦ (false, retain base (record w { store = s }))
          | false ↦ (true, move_to_failed base (record w { store = s }))
        ])) [ true ↦ tt | false ↦ omega (arith, rename-measure base (record w { store = s })) ]

  after_read-Falls :
      (m : ℕ) (base : Text) (w : Spool S) (r : Outcome (Text × Text) × Spool S)
      → HasRead c base w r
      → measure w < m
      → Falls m (after_read c process_and_store base r)
  unfolding after_read Falls move_to_failed
  after_read-Falls m base w (err e, w') (fs, le, same) h =
      subst (λ x. measure (move_to_failed base x) < m) (sym same)
        (omega (arith, rename-measure base (record w { faults = fs })))
  after_read-Falls m base w (ok (meta, raw), w') ((fs, le, same), _) h =
      subst
        (λ x. Falls m (
          after_store c process_and_store base
            (process_and_store raw (received_at c process_and_store meta x.now) x.store) x))
        (sym same) (after_store-Falls m base _ (record w { faults = fs }) (omega arith))

  process_one-Falls :
      (base : Text) (w : Spool S)
      → Present w.pending base
      → Falls (measure w) (process_one c process_and_store base w)
  unfolding process_one claim
  process_one-Falls base w there = elim (rename_cases_lem pending_dir base processing_dir base w) [
    | inl (e, inl fewer, failed) ↦
        subst (λ r. Falls (measure w) (after_claim c process_and_store base r)) (sym failed)
          (unfold Falls after_claim in omega arith)
    | inl (e, inr absent, failed) ↦ absurd (there absent)
    | inr (x, _, made) ↦
        let w1 : Spool S = moved pending_dir base processing_dir base x (drop_fault w) in
        subst (λ r. Falls (measure w) (after_claim c process_and_store base r)) (sym made)
          (after_read-Falls (measure w) base w1 (read_item c processing_dir base w1)
            (read_item-HasRead c base w1)
            (omega (arith, length-next_fault w.faults, length-erase_present base w.pending there)))
  ]

  -- What the loop is asked of each later round.
  abbrev Ends : (Spool S → Option (Spool S)) → ℕ → Type 0
  Ends again m = (w : Spool S) → measure w < m → again w ≢ none

  after_process-ne-none :
      (again : Spool S → Option (Spool S)) (m : ℕ) (r : Bool × Spool S)
      → Ends again m
      → Falls m r
      → after_process c process_and_store again r ≢ none
  unfolding after_process Falls
  after_process-ne-none again m (true, w) ends h = ends w h
  after_process-ne-none again m (false, w) ends h = cc

  after_next-ne-none :
      (again : Spool S → Option (Spool S)) (w : Spool S) (o : Option Text)
      → Ends again (measure w)
      → ((n : Text) → o ≡ some n → Present w.pending n)
      → after_next c process_and_store again (o, w) ≢ none
  unfolding after_next
  after_next-ne-none again w none ends first = cc
  after_next-ne-none again w (some n) ends first =
      after_process-ne-none again (measure w) _ ends (process_one-Falls n w (first n refl))

  round-ne-none :
      (again : Spool S → Option (Spool S)) (w : Spool S)
      → Ends again (measure w)
      → after_next c process_and_store again (next_pending w) ≢ none
  unfolding next_pending listed
  round-ne-none again w ends = elim (plain_call-cases w) [
    | inl fine ↦
        subst (λ r. after_next c process_and_store again (listed r) ≢ none) (sym fine)
          (after_next-ne-none again (drop_fault w) _
            (λ v h. ends v (omega (arith, length-next_fault w.faults))) (first-Present w.pending))
    | inr (e, bad) ↦
        subst (λ r. after_next c process_and_store again (listed r) ≢ none) (sym bad)
          (unfold after_next in cc)
  ]

  flush_round-ne-none :
      (again : Spool S → Option (Spool S)) (b : Bool × List Bool) (w : Spool S)
      → Ends again (measure w)
      → flush_round c process_and_store again b w ≢ none
  unfolding flush_round
  flush_round-ne-none again (true, rest) w ends = cc
  flush_round-ne-none again (false, rest) w ends =
      round-ne-none again (record w { cancels = rest }) ends

  -- The rounds of a flush that meets the faults of a script and no others.
  pub flush-ne-none :
      (fuel : ℕ) (w : Spool S) → measure w < fuel → flush c process_and_store fuel w ≢ none
  unfolding flush
  flush-ne-none zero w h = absurd (omega arith)
  flush-ne-none (suc fuel) w h =
      flush_round-ne-none _ _ w (λ v k. flush-ne-none fuel v (omega arith))
