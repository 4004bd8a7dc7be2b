-- ===== src/Storage/Body/Keeps.antt =====
-- What the loop leaves on the disk.
use mathlib.Core.Path.{subst}
use smtp_store.Base.{
  sym, ℕ, zero, suc, ◌+◌, ◌≤◌, ◌≡◌, ◌≢◌, refl, Option, none, some, [], ◌∷◌, arith, Text, inl, inr,
  Option-cases, Bool-cases,
}
use smtp_store.Base.Strings.Equality.{text_eq_iff}
use smtp_store.Base.Dict.{Dict, lookup, insert, lookup-insert}
use smtp_store.Base.Os.{Fault, already_exists, Faults, Outcome, ok, err, errors_is, eexist}
use smtp_store.Base.Strings.Split.{Lacks}
use smtp_store.Base.Strings.FilePath.{slash}
use smtp_store.Storage.Body.Laws.{write_body-ne-none}
use smtp_store.Storage.Body.{
  Disk, candidate, body_path, round, fill_body, open_new, write_body_from, write_body, body_fuel,
}

-- All files are still there, with their contents.
abbrev pub Keeps : Dict Text → Dict Text → Type 0
Keeps files files' = (q c : Text) → lookup q files ≡ some c → lookup q files' ≡ some c

-- The file at `path` is new and holds `body`, and no other path has changed.
pub record IsNewFile (files files' : Dict Text) (path body : Text) : Type 0 where
  pub absent : lookup path files ≡ none
  pub written : lookup path files' ≡ some body
  pub others : (q : Text) → q ≢ path → lookup q files' ≡ lookup q files

-- The ways in which opening a new file can end.
module _ (path : Text) where
  open_new_faulted :
      (f : Fault) (files : Dict Text) (faults : Faults)
      → open_new path (record { files = files; faults = some f ∷ faults })
        ≡ (some f.error, record { files = files; faults = faults })
  unfolding open_new
  open_new_faulted f files faults = refl

  open_new_absent :
      (files : Dict Text) (faults : Faults)
      → lookup path files ≡ none
      → open_new path (record { files = files; faults = none ∷ faults })
        ≡ (none, record { files = insert path [] files; faults = faults })
  unfolding open_new
  open_new_absent files faults absent = ground arith

  open_new_taken :
      (c : Text) (files : Dict Text) (faults : Faults)
      → lookup path files ≡ some c
      → open_new path (record { files = files; faults = none ∷ faults })
        ≡ (some already_exists, record { files = files; faults = faults })
  unfolding open_new
  open_new_taken c files faults there = ground arith

module _ (dir ts body : Text) where
  -- The outcome of the loop on files, by its result.
  abbrev pub Wrote : Dict Text → Outcome (Text × Text) × Disk → Type 0
  Wrote files (ok (prefix, path), d) =
      (k : ℕ) × (1 ≤ k)
      × (prefix ≡ candidate ts k)
      × (path ≡ body_path dir ts k)
      × IsNewFile files d.files path body
  Wrote files (err e, d) = Keeps files d.files

  insert-IsNewFile :
      (files : Dict Text) (path : Text)
      → lookup path files ≡ none
      → IsNewFile files (insert path body (insert path [] files)) path body
  insert-IsNewFile files path absent = record {
    absent = absent;
    written =
        ground (arith, lookup-insert path path body (insert path [] files), text_eq_iff path path);
    others = λ q ne. ground (
      arith,
      lookup-insert path q body (insert path [] files),
      lookup-insert path q [] files,
      text_eq_iff path q,
    );
  }

  insert-Keeps :
      (files : Dict Text) (path : Text) (part : Text)
      → lookup path files ≡ none
      → Keeps files (insert path part (insert path [] files))
  insert-Keeps files path part absent q c there = ground (
    arith,
    lookup-insert path q part (insert path [] files),
    lookup-insert path q [] files,
    text_eq_iff path q,
  )

  created : (files : Dict Text) (path : Text) → lookup path (insert path [] files) ≡ some []
  created files path = ground (arith, lookup-insert path path [] files, text_eq_iff path path)

  fill_body-Wrote :
      (k : ℕ) (files : Dict Text) (faults : Faults)
      → 1 ≤ k
      → lookup (body_path dir ts k) files ≡ none
      → Wrote files (
          fill_body
            (candidate ts k)
            (body_path dir ts k)
            body
            (record { files = insert (body_path dir ts k) [] files; faults = faults }))
  unfolding fill_body
  fill_body-Wrote k files [] one absent =
      rw (created files (body_path dir ts k))
        (k, one, refl, refl, insert-IsNewFile files (body_path dir ts k) absent)
  fill_body-Wrote k files (some f ∷ faults) one absent =
      insert-Keeps files (body_path dir ts k) _ absent
  fill_body-Wrote k files (none ∷ []) one absent =
      rw (created files (body_path dir ts k))
        (k, one, refl, refl, insert-IsNewFile files (body_path dir ts k) absent)
  fill_body-Wrote k files (none ∷ some f ∷ faults) one absent =
      insert-Keeps files (body_path dir ts k) _ absent
  fill_body-Wrote k files (none ∷ none ∷ faults) one absent =
      rw (created files (body_path dir ts k))
        (k, one, refl, refl, insert-IsNewFile files (body_path dir ts k) absent)

  abbrev Returned : Dict Text → Option (Outcome (Text × Text) × Disk) → Type 0
  Returned files none = Unit
  Returned files (some r) = Wrote files r

  -- A round that meets no fault, from what the rounds behind it return.
  round-Returned :
      (k : ℕ) (files : Dict Text) (faults : Faults)
      (again : Disk → Option (Outcome (Text × Text) × Disk))
      → 1 ≤ k
      → Returned files (again (record { files = files; faults = faults }))
      → Returned files (
          round
            (candidate ts k)
            (body_path dir ts k)
            body
            again
            (open_new (body_path dir ts k) (record { files = files; faults = none ∷ faults })))
  round-Returned k files faults again one rest =
      elim (Option-cases (lookup (body_path dir ts k) files)) [
        | inl absent ↦
            subst (λ o. Returned files (round (candidate ts k) (body_path dir ts k) body again o))
              (sym (open_new_absent _ files faults absent))
              (unfold round in fill_body-Wrote k files faults one absent)
        | inr (c, there) ↦
            subst (λ o. Returned files (round (candidate ts k) (body_path dir ts k) body again o))
              (sym (open_new_taken _ c files faults there)) (unfold round in rest)
      ]

  faulted_round-Returned :
      (f : Fault) (k : ℕ) (files : Dict Text) (faults : Faults)
      (again : Disk → Option (Outcome (Text × Text) × Disk))
      → Returned files (again (record { files = files; faults = faults }))
      → Returned files (
          round
            (candidate ts k)
            (body_path dir ts k)
            body
            again
            (some f.error, record { files = files; faults = faults }))
  unfolding round
  faulted_round-Returned f k files faults again rest =
      elim (Bool-cases (errors_is f.error eexist)) [
        | inl taken ↦ rw (taken, Returned) rest
        | inr other ↦ rw (other, Returned) (λ q c there. there)
      ]

  write_body_from-Returned :
      (fuel k : ℕ) (files : Dict Text) (faults : Faults)
      → 1 ≤ k
      → Returned files
          (write_body_from fuel k dir ts body (record { files = files; faults = faults }))
  unfolding write_body_from open_new
  write_body_from-Returned zero k files faults one = tt
  write_body_from-Returned (suc fuel) k files (some f ∷ faults) one =
      faulted_round-Returned f k files faults _
        (write_body_from-Returned fuel (k + 1) files faults (omega arith))
  write_body_from-Returned (suc fuel) k files (none ∷ faults) one =
      round-Returned k files faults _ one
        (write_body_from-Returned fuel (k + 1) files faults (omega arith))
  write_body_from-Returned (suc fuel) k files [] one =
      round-Returned k files [] _ one (write_body_from-Returned fuel (k + 1) files [] (omega arith))

module _ (dir ts body : Text) where
  -- The loop returns, for every script of faults: the body stands in a file of its own, under a name
  -- that no file had, or an error leaves every file as it was.
  pub write_body_lem :
      (d : Disk)
      → Lacks slash ts
      → (r : Outcome (Text × Text) × Disk) × (write_body dir ts body d ≡ some r)
        × Wrote dir ts body d.files r
  unfolding write_body
  write_body_lem d plain =
      found (write_body dir ts body d) (write_body-ne-none dir ts body d plain)
        (write_body_from-Returned dir ts body (body_fuel d) 1 d.files d.faults (omega arith))
    where
      found :
          (o : Option (Outcome (Text × Text) × Disk))
          → o ≢ none
          → Returned dir ts body d.files o
          → (r : Outcome (Text × Text) × Disk) × (o ≡ some r) × Wrote dir ts body d.files r
      found none h k = absurd (h refl)
      found (some r) h k = (r, refl, k)
