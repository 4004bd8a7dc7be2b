-- ===== src/Spool/Enqueue/Laws.antt =====
-- A message is spooled whole or not at all.
use mathlib.Core.Path.{subst}
use smtp_store.Base.{
  ◌≡◌, refl, sym, ◌∙◌, Bool, true, false, Option, none, some, [], ◌++◌, inl, inr, Text, codes,
  arith,
}
use smtp_store.Base.Strings.Equality.{text_eq_iff}
use smtp_store.Base.Dict.{lookup, insert, lookup-insert}
use smtp_store.Base.Os.{Error, Faults, Outcome, ok, err, Fault}
use smtp_store.Spool.{Spool, tmp_dir, remove, open_tmp, plain_call, create, write_on}
use smtp_store.Spool.Calls.{drop_fault, remove-cases, call-cases}
use smtp_store.Spool.Item.Read.{plain_call-cases}
use smtp_store.Spool.Enqueue.{give_up, stage}

module _ {S : Type 0} where
  -- The items, the store, what was handed on and the clock are as they were.
  abbrev pub SameItems : Spool S → Spool S → Type 0
  SameItems w w' =
      (w'.pending ≡ w.pending)
      × (w'.processing ≡ w.processing)
      × (w'.failed ≡ w.failed)
      × (w'.store ≡ w.store)
      × (w'.posted ≡ w.posted)
      × (w'.now ≡ w.now)

  pub SameItems-trans : (w w' w'' : Spool S) → SameItems w w' → SameItems w' w'' → SameItems w w''
  SameItems-trans w w' w'' (a, b, d, e, f, g) (a', b', d', e', f', g') =
      (a' ∙ a, b' ∙ b, d' ∙ d, e' ∙ e, f' ∙ f, g' ∙ g)

  pub plain_call-SameItems : (w : Spool S) → SameItems w (plain_call w).1
  plain_call-SameItems w = elim (plain_call-cases w) [
    | inl fine ↦ subst (λ r. SameItems w r.1) (sym fine) (refl, refl, refl, refl, refl, refl)
    | inr (e, bad) ↦ subst (λ r. SameItems w r.1) (sym bad) (refl, refl, refl, refl, refl, refl)
  ]

  pub remove-SameItems : (name : Text) (w : Spool S) → SameItems w (remove tmp_dir name w).1
  remove-SameItems name w = elim (remove-cases tmp_dir name w) [
    | inl (e, bad) ↦ subst (λ r. SameItems w r.1) (sym bad) (refl, refl, refl, refl, refl, refl)
    | inr made ↦ subst (λ r. SameItems w r.1) (sym made) (refl, refl, refl, refl, refl, refl)
  ]

  give_up-SameItems :
      (name : Text) (is_open : Bool) (message : Text) (e : Error) (w : Spool S)
      → SameItems w (give_up name is_open message e w).1
  unfolding give_up
  give_up-SameItems name true message e w =
      SameItems-trans w (plain_call w).1 (remove tmp_dir name (plain_call w).1).1
        (plain_call-SameItems w) (remove-SameItems name (plain_call w).1)
  give_up-SameItems name false message e w = remove-SameItems name w

  module _ (id : Text) (content : Text) (w : Spool S) where
    -- The outcome of writing an item: all of it is pending under its name and the temporary file is
    -- gone, or nothing has changed but the temporary directory.
    abbrev pub Accepted : Outcome Text × Spool S → Type 0
    Accepted (err e, w') = SameItems w w'
    Accepted (ok i, w') =
        (i ≡ id)
        × (w'.pending ≡ insert (id ++ codes ".eml") content w.pending)
        × (w'.processing ≡ w.processing)
        × (w'.failed ≡ w.failed)
        × (w'.store ≡ w.store)
        × (w'.posted ≡ w.posted)
        × (lookup (id ++ codes ".eml.tmp") w'.tmp ≡ none)

    abbrev pub InTmp : Text → Spool S → Type 0
    InTmp written w' = SameItems w w' × (lookup (id ++ codes ".eml.tmp") w'.tmp ≡ some written)

    abbrev pub Staged : Text → Option Error × Spool S → Type 0
    Staged written (some e, w') = SameItems w w'
    Staged written (none, w') = InTmp written w'

    pub stage-Accepted :
        (written : Text) (is_open : Bool) (message : Text) (next : Spool S → Outcome Text × Spool S)
        (r : Option Error × Spool S)
        → Staged written r
        → ((w' : Spool S) → InTmp written w' → Accepted (next w'))
        → Accepted (stage (id ++ codes ".eml.tmp") is_open message next r)
    unfolding stage
    stage-Accepted written is_open message next (none, w') staged rest = rest w' staged
    stage-Accepted written true message next (some e, w') staged rest =
        SameItems-trans w w' (give_up (id ++ codes ".eml.tmp") true message e w').1 staged
          (give_up-SameItems _ true message e w')
    stage-Accepted written false message next (some e, w') staged rest =
        SameItems-trans w w' (give_up (id ++ codes ".eml.tmp") false message e w').1 staged
          (give_up-SameItems _ false message e w')

    pub open_tmp-Staged : Staged [] (open_tmp (id ++ codes ".eml.tmp") w)
    unfolding open_tmp
    open_tmp-Staged = elim (call-cases (create (id ++ codes ".eml.tmp")) w) [
      | inl (e, _, met) ↦ subst (λ r. Staged [] r) (sym met) (refl, refl, refl, refl, refl, refl)
      | inr done ↦
          subst (λ r. Staged [] r) (sym done)
            (create-Staged (drop_fault w) (refl, refl, refl, refl, refl, refl))
    ]
      where
        created :
            (w' : Spool S) (o : Option Text)
            → lookup (id ++ codes ".eml.tmp") w'.tmp ≡ o
            → SameItems w w'
            → Staged [] (create (id ++ codes ".eml.tmp") w')
        created w' (some x) there same = rw (there, Staged, create) same
        created w' none absent same =
            rw (absent, Staged, create)
              (
                same,
                ground (
                  arith,
                  lookup-insert (id ++ codes ".eml.tmp") (id ++ codes ".eml.tmp") [] w'.tmp,
                  text_eq_iff (id ++ codes ".eml.tmp") (id ++ codes ".eml.tmp"),
                ),
              )

        create-Staged :
            (w' : Spool S) → SameItems w w' → Staged [] (create (id ++ codes ".eml.tmp") w')
        create-Staged w' same = created w' (lookup (id ++ codes ".eml.tmp") w'.tmp) refl same

    pub write_on-Staged :
        (old bytes : Text) (w' : Spool S) (f : Option Fault × Faults)
        → InTmp old w'
        → Staged (old ++ bytes) (write_on (id ++ codes ".eml.tmp") bytes w' f)
    unfolding write_on
    write_on-Staged old bytes w' (none, rest) (same, there) = (
      same,
      rw there (
          ground (
            arith,
            lookup-insert (id ++ codes ".eml.tmp") (id ++ codes ".eml.tmp") (old ++ bytes) w'.tmp,
            text_eq_iff (id ++ codes ".eml.tmp") (id ++ codes ".eml.tmp"),
          )),
    )
    write_on-Staged old bytes w' (some f, rest) (same, there) = same

    pub plain_call-Staged :
        (written : Text) (w' : Spool S) → InTmp written w' → Staged written (plain_call w')
    plain_call-Staged written w' here = elim (plain_call-cases w') [
      | inl fine ↦ subst (λ r. Staged written r) (sym fine) here
      | inr (e, bad) ↦ subst (λ r. Staged written r) (sym bad) here.0
    ]
