-- ===== src/Fileindex/Recent.antt =====
-- `Recent` of internal/fileindex/index.go.
use mathlib.Core.List.{Perm}
use mathlib.Core.Path.{subst}
use smtp_store.Base.{ℕ, ◌≤◌, ◌≡◌, true, false, ◌⊎◌, List, [], ◌++◌, arith, length, sort_by}
use smtp_store.Base.Lists.Sorted.{IsSorted, sort_by-perm, sort_by-IsSorted, take-split}
use smtp_store.Base.Strings.Equality.{text_le_total, text_le_trans}
use smtp_store.Fileindex.{File, Index, rows_of, is_newer, recent}

is_newer_trans : (x y z : File) → is_newer y x ≡ false → is_newer z y ≡ false → is_newer z x ≡ false
unfolding is_newer
is_newer_trans x y z h k =
    ground (arith, text_le_trans z.relative_path y.relative_path x.relative_path)

is_newer_asym : (x y : File) → is_newer x y ≡ true → is_newer y x ≡ false
unfolding is_newer
is_newer_asym x y h = ground (arith, text_le_total x.relative_path y.relative_path)

-- The recent files are at most as many as asked for. Together with some others they are the files of
-- the table, each as often as there, from new to old (of one time: from the last path to the first),
-- and there are others only if the recent ones are as many as asked for.
pub recent_lem :
    (limit : ℕ) (i : Index)
    → (rest : List File) × Perm (recent limit i ++ rest) (rows_of i.files)
      × IsSorted is_newer (recent limit i ++ rest)
      × (length (recent limit i) ≤ limit)
      × ((rest ≡ []) ⊎ (length (recent limit i) ≡ limit))
unfolding recent
recent_lem limit i =
    let (rest, e, le, full) = take-split limit (sort_by is_newer (rows_of i.files)) in
    (
      rest,
      subst (λ fs. Perm fs (rows_of i.files)) e (sort_by-perm is_newer (rows_of i.files)),
      subst (IsSorted is_newer) e
          (sort_by-IsSorted is_newer is_newer_trans is_newer_asym (rows_of i.files)),
      le,
      full,
    )
