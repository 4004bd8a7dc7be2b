-- ===== src/Fileindex/Laws.antt =====
-- What `UpsertPath` of internal/fileindex/index.go does to the table of files.
use smtp_store.Base.{
  ℕ, Bool, true, false, not, ◌&&◌, ◌||◌, Option, none, some, ◌≡◌, refl, ◌⊎◌, inl, inr, [], ◌∷◌,
  ◌++◌, arith, Text, codes, Unicode, text_eq, has_prefix, if◌then◌else◌,
}
use smtp_store.Base.Dict.{lookup, insert, lookup-insert}
use smtp_store.Base.Strings.FilePath.{slash}
use smtp_store.Base.Os.{Error, Outcome, ok, err, new_error}
use smtp_store.Classify.{Sidecar, is_video_path, is_detection_sidecar_path}
use smtp_store.Fileindex.{
  File, Row, Index, Stat, Disk, exec, upsert, apply_loaded, apply_sidecar, file_of, described,
  upsert_rel, upsert_stat, upsert_abs, upsert_path,
}

lookup-put :
    (rel rel' : Text)
    → rel' ≡ rel
    → (row : Row) (i : Index) (k : Text)
    → lookup k (insert rel' row i.files) ≡ (if text_eq rel k then some row else lookup k i.files)
lookup-put rel rel' e row i k = rw e (lookup-insert rel k row i.files)

module _ ⦃u : Unicode⦄ {F : Type 0} (disk : Disk F) where
  -- The path is a file to be indexed: a regular file below the root that is no sidecar.
  abbrev pub IsIndexed : Text → Text → Text → Text → Stat → Type 0
  IsIndexed path root abs rel info =
      (disk.abs path ≡ ok abs)
      × (disk.stat abs ≡ ok info)
      × (disk.rel abs ≡ ok rel)
      × (is_detection_sidecar_path abs ≡ false)
      × ((text_eq abs root || has_prefix abs (root ++ slash ∷ [])) ≡ true)
      × (info.is_dir ≡ false)
      × (info.is_regular ≡ true)

  -- One row is put for a relative path; the others stay.
  abbrev pub Puts : Text → Row → Index → Index → Type 0
  Puts rel row i i' =
      (i'.root ≡ i.root)
      × ((k : Text) → lookup k i'.files ≡ (if text_eq rel k then some row else lookup k i.files))

  -- The path is a sidecar, or something else than a regular file.
  abbrev pub IsSkipped : Text → Type 0
  IsSkipped path =
      (abs : Text) × (disk.abs path ≡ ok abs)
      × ((is_detection_sidecar_path abs ≡ true)
          ⊎ ((info : Stat) × (disk.stat abs ≡ ok info)
              × ((info.is_dir || not info.is_regular) ≡ true)))

  abbrev pub row_of : Text → Text → Stat → ℕ → Row
  row_of abs rel info now = record {
    file = described disk abs rel info;
    is_video = is_video_path abs;
    updated_at = now;
  }

  abbrev pub Upserts : Text → ℕ → Index → Outcome (Unit {0}) × Index → Type 0
  Upserts path now i (err e, i') = i' ≡ i
  Upserts path now i (ok tt, i') =
      ((i' ≡ i) × IsSkipped path)
      ⊎ ((abs rel : Text) × (info : Stat) × IsIndexed path i.root abs rel info
          × Puts rel (row_of abs rel info now) i i')

  applied-path :
      (item : File) (s : Option (Sidecar F))
      → (apply_loaded item s).relative_path ≡ item.relative_path
  unfolding apply_loaded apply_sidecar
  applied-path item none = refl
  applied-path item (some s) = refl

  by_video :
      (abs rel : Text) (info : Stat) (b : Bool)
      → (if b
          then apply_loaded (file_of abs rel info) (disk.load_sidecar abs)
          else file_of abs rel info).relative_path
        ≡ rel
  by_video abs rel info true = applied-path (file_of abs rel info) (disk.load_sidecar abs)
  by_video abs rel info false = refl

  described-path :
      (abs rel : Text) (info : Stat) → (described disk abs rel info).relative_path ≡ rel
  unfolding described
  described-path abs rel info = by_video abs rel info (is_video_path abs)

  module _ (fault : Option Error) (now : ℕ) (path : Text) (i : Index) where
    by_fault :
        (abs rel : Text) (info : Stat) (f : Option Error)
        → IsIndexed path i.root abs rel info
        → Upserts path now i (upsert f (described disk abs rel info) (is_video_path abs) now i)
    unfolding upsert exec
    by_fault abs rel info (some e) h = refl
    by_fault abs rel info none h = inr (
      abs,
      rel,
      info,
      h,
      (refl, λ k. lookup-put rel _ (described-path abs rel info) (row_of abs rel info now) i k),
    )

    by_rel :
        (abs : Text) (info : Stat) (r : Outcome Text)
        → disk.rel abs ≡ r
        → disk.abs path ≡ ok abs
        → disk.stat abs ≡ ok info
        → is_detection_sidecar_path abs ≡ false
        → (text_eq abs i.root || has_prefix abs (i.root ++ slash ∷ [])) ≡ true
        → info.is_dir ≡ false
        → info.is_regular ≡ true
        → Upserts path now i (upsert_rel disk fault now abs info r i)
    unfolding upsert_rel
    by_rel abs info (err e) er ea es hs hr hd hf = refl
    by_rel abs info (ok rel) er ea es hs hr hd hf =
        by_fault abs rel info fault (ea, es, er, hs, hr, hd, hf)

    by_kind :
        (abs : Text) (info : Stat) (d f : Bool)
        → info.is_dir ≡ d
        → info.is_regular ≡ f
        → disk.stat abs ≡ ok info
        → disk.abs path ≡ ok abs
        → is_detection_sidecar_path abs ≡ false
        → (text_eq abs i.root || has_prefix abs (i.root ++ slash ∷ [])) ≡ true
        → Upserts path now i
            (if d || not f then (ok tt, i) else upsert_rel disk fault now abs info (disk.rel abs) i)
    by_kind abs info true f hd hf es ea hs hr = inl (refl, (abs, ea, inr (info, es, ground arith)))
    by_kind abs info false false hd hf es ea hs hr =
        inl (refl, (abs, ea, inr (info, es, ground arith)))
    by_kind abs info false true hd hf es ea hs hr =
        by_rel abs info (disk.rel abs) refl ea es hs hr hd hf

    by_stat :
        (abs : Text) (r : Outcome Stat)
        → disk.stat abs ≡ r
        → disk.abs path ≡ ok abs
        → is_detection_sidecar_path abs ≡ false
        → (text_eq abs i.root || has_prefix abs (i.root ++ slash ∷ [])) ≡ true
        → Upserts path now i (upsert_stat disk fault now abs r i)
    unfolding upsert_stat
    by_stat abs (err e) es ea hs hr = refl
    by_stat abs (ok info) es ea hs hr =
        by_kind abs info info.is_dir info.is_regular refl refl es ea hs hr

    by_place :
        (abs : Text) (s at_root below : Bool)
        → is_detection_sidecar_path abs ≡ s
        → text_eq abs i.root ≡ at_root
        → has_prefix abs (i.root ++ slash ∷ []) ≡ below
        → disk.abs path ≡ ok abs
        → Upserts path now i (
            if s
            then (ok tt, i)
            else if not at_root && not below
            then (err (new_error (codes "path outside storage root: " ++ path)), i)
            else upsert_stat disk fault now abs (disk.stat abs) i)
    by_place abs true a b es ea eb h = inl (refl, (abs, h, inl es))
    by_place abs false true b es ea eb h = by_stat abs (disk.stat abs) refl h es (rw ea refl)
    by_place abs false false true es ea eb h =
        by_stat abs (disk.stat abs) refl h es (rw (ea, eb) refl)
    by_place abs false false false es ea eb h = refl

    by_abs :
        (r : Outcome Text)
        → disk.abs path ≡ r
        → Upserts path now i (upsert_abs disk fault now path r i)
    unfolding upsert_abs
    by_abs (err e) ea = refl
    by_abs (ok abs) ea =
        by_place abs (is_detection_sidecar_path abs) (text_eq abs i.root)
          (has_prefix abs (i.root ++ slash ∷ [])) refl refl refl ea

  -- Of a path without an error, `UpsertPath` leaves the table alone if the path is a sidecar's or no
  -- regular file, and else puts one row under the relative path, which describes the file as it is
  -- now, and keeps the other rows; this happens only to files below the root. With an error the table
  -- is as it was.
  pub upsert_path-Upserts :
      (fault : Option Error) (now : ℕ) (path : Text) (i : Index)
      → Upserts path now i (upsert_path disk fault now path i)
  unfolding upsert_path
  upsert_path-Upserts fault now path i = by_abs fault now path i (disk.abs path) refl
