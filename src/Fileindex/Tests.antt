-- ===== src/Fileindex/Tests.antt =====
-- A table with two files.
use mathlib.Core.List.{Perm}
use smtp_store.Base.{
  ℕ, ◌≤◌, ◌≡◌, ◌⊎◌, true, false, none, List, [], ◌∷◌, ◌++◌, Text, codes, latin1, length,
}
use smtp_store.Base.Lists.Sorted.{IsSorted}
use smtp_store.Base.Os.{ok}
use smtp_store.Fileindex.{File, Row, Index, Disk, rows_of, is_newer, recent, upsert_path}
use smtp_store.Fileindex.Laws.{Upserts, upsert_path-Upserts}
use smtp_store.Fileindex.Recent.{recent_lem}

abbrev file : Text → ℕ → File
file rel at = record {
  relative_path = rel;
  abs_path = codes "/srv/" ++ rel;
  recipient = codes "cam";
  name = rel;
  size = 3;
  mod_time = at;
  detect_state = [];
  has_person = false;
  has_animal = false;
  has_vehicle = false;
  detect_labels = [];
}

abbrev row : Text → ℕ → Row
row rel at = record { file = file rel at; is_video = false; updated_at = 9 }

abbrev index : Index
index = record {
  root = codes "/srv";
  files = (codes "a.txt", row (codes "a.txt") 1) ∷ (codes "b.txt", row (codes "b.txt") 2) ∷ [];
}

abbrev disk : Disk ℕ
disk = record {
  abs = λ p. ok p;
  stat = λ p. ok (record { is_dir = false; is_regular = true; size = 3; mod_time = 7 });
  rel = λ p. ok (codes "c.txt");
  load_sidecar = λ p. none;
}

recent_lem_example :
    (rest : List File) × Perm (recent 1 index ++ rest) (rows_of index.files)
    × IsSorted is_newer (recent 1 index ++ rest)
    × (length (recent 1 index) ≤ 1)
    × ((rest ≡ []) ⊎ (length (recent 1 index) ≡ 1))
recent_lem_example = recent_lem 1 index

upsert_path-Upserts_example :
    Upserts ⦃u = latin1⦄ disk
      (codes "/srv/c.txt")
      5
      index
      (upsert_path ⦃u = latin1⦄ disk none 5 (codes "/srv/c.txt") index)
upsert_path-Upserts_example =
    upsert_path-Upserts ⦃u = latin1⦄ disk none 5 (codes "/srv/c.txt") index
