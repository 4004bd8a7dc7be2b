-- ===== src/Storage/Folder.antt =====
-- `NormalizeRecipientFolder` of internal/storage/storage.go: an address as a directory name.
use smtp_store.Base.{ℕ, ◌≡◌, ◌≢◌, refl, Bool, true, ◌||◌, [], ◌∷◌, map, arith}
use smtp_store.Base.{Text, codes, Unicode, is_letter, is_digit, elem, trim, trim_space, to_lower}
use smtp_store.Base.{text_eq, ◌==◌, if◌then◌else◌, Bool-cases, All, inl, inr}
use smtp_store.Base.Strings.Equality.{text_eq_iff}
use smtp_store.Base.Strings.Space.{StartsOutside, EndsOutside, trim-StartsOutside, trim-EndsOutside}
use smtp_store.Base.Strings.Space.{trim-All}
use smtp_store.Base.Strings.Split.{Lacks}
use smtp_store.Base.Strings.FilePath.{slash}

-- The cutset of the last trim.
abbrev pub is_edge : ℕ → Bool
is_edge c = c == b'.' || c == b'_'

module _ ⦃u : Unicode⦄ where
  -- Letters, digits and five signs are kept; any other character becomes an underscore.
  unfoldable pub is_kept : ℕ → Bool
  unfolding is_letter is_digit elem
  is_kept r = is_letter r || is_digit r || elem r (codes "@._+-")

  unfoldable pub folder_rune : ℕ → ℕ
  unfolding is_kept
  folder_rune r = if is_kept r then r else b'_'

  unfoldable pub normalize_recipient_folder : Text → Text
  unfolding folder_rune trim_space to_lower trim text_eq
  normalize_recipient_folder address =
      let name = trim_space (to_lower address) in
      if text_eq name []
      then codes "unknown"
      else let out = trim is_edge (map folder_rune name) in
        if text_eq out [] then codes "unknown" else out

  abbrev pub IsKept : ℕ → Type 0
  IsKept c = is_kept c ≡ true

  folder_rune-IsKept : (r : ℕ) → IsKept (folder_rune r)
  unfolding folder_rune
  folder_rune-IsKept r = ground arith

  map-IsKept : (s : Text) → All IsKept (map folder_rune s)
  map-IsKept [] = tt
  map-IsKept (c ∷ s) = (folder_rune-IsKept c, map-IsKept s)

  kept-ne-slash : (s : Text) → All IsKept s → Lacks slash s
  unfolding is_kept
  kept-ne-slash [] h = tt
  kept-ne-slash (c ∷ s) (h, k) = (ground arith, kept-ne-slash s k)

  -- The names of one element that no path can leave its directory by.
  pub record IsFolderName (s : Text) : Type 0 where
    pub non_empty : s ≢ []
    pub kept : All IsKept s
    pub one_element : Lacks slash s
    pub starts : StartsOutside is_edge s
    pub ends : EndsOutside is_edge s

  unknown-IsKept : All IsKept (codes "unknown")
  unfolding is_kept
  unknown-IsKept = ground arith

  unknown-IsFolderName : IsFolderName (codes "unknown")
  unknown-IsFolderName = record {
    non_empty = cc;
    kept = unknown-IsKept;
    one_element = kept-ne-slash (codes "unknown") unknown-IsKept;
    starts = refl;
    ends = refl;
  }

  trimmed-IsFolderName :
      (s : Text)
      → trim is_edge (map folder_rune s) ≢ []
      → IsFolderName (trim is_edge (map folder_rune s))
  trimmed-IsFolderName s h = record {
    non_empty = h;
    kept = all_kept;
    one_element = kept-ne-slash _ all_kept;
    starts = trim-StartsOutside is_edge _;
    ends = trim-EndsOutside is_edge _;
  }
    where
      all_kept : All IsKept (trim is_edge (map folder_rune s))
      all_kept = trim-All IsKept is_edge (map folder_rune s) (map-IsKept s)

  choose-IsFolderName :
      (out : Text)
      → (out ≢ [] → IsFolderName out)
      → IsFolderName (if text_eq out [] then codes "unknown" else out)
  choose-IsFolderName out h = elim (Bool-cases (text_eq out [])) [
    | inl empty ↦ rw empty unknown-IsFolderName
    | inr full ↦ rw full (h (ground (arith, text_eq_iff out [])))
  ]

  -- Whatever address a message names, its folder is one non-empty path element: it holds no slash,
  -- only characters that are kept, and neither begins nor ends with a dot or an underscore.
  pub normalize_recipient_folder-IsFolderName :
      (address : Text) → IsFolderName (normalize_recipient_folder address)
  unfolding normalize_recipient_folder
  normalize_recipient_folder-IsFolderName address =
      elim (Bool-cases (text_eq (trim_space (to_lower address)) [])) [
        | inl empty ↦ rw empty unknown-IsFolderName
        | inr full ↦
            rw full (choose-IsFolderName _ (trimmed-IsFolderName (trim_space (to_lower address))))
      ]
