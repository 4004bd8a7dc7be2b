-- ===== src/Mqtt/Names/Events.antt =====
-- Which characters the topic parts and the identifiers that internal/mqttnotify/publisher.go makes of
-- user names can have.
use smtp_store.Base.{
  ℕ, Bool, true, false, [], ◌∷◌, map, ◌≡◌, ◌≢◌, ◌≤◌, ◌⊎◌, refl, arith, Text, codes, Unicode,
  to_lower, trim_space, trim, trim_left, trim_right, keep_left, All,
}
use smtp_store.Mqtt.Names.{
  topic_rune, is_object_rune, replace_runs, or_unknown, is_underscore, sanitize_topic_part,
  sanitize_object_id,
}

-- A character other than `/`, `+`, `#` and U+0020.
abbrev pub IsPlainRune : ℕ → Type 0
IsPlainRune c = (c ≢ b'/') × (c ≢ b'+') × (c ≢ b'#') × (c ≢ b' ')

topic_rune-IsPlain : (c : ℕ) → IsPlainRune (topic_rune c)
unfolding topic_rune
topic_rune-IsPlain c = ground arith

map-IsPlain : (s : Text) → All IsPlainRune (map topic_rune s)
map-IsPlain [] = tt
map-IsPlain (c ∷ s) = (topic_rune-IsPlain c, map-IsPlain s)

module _ (P : ℕ → Type 0) (p : ℕ → Bool) where
  keep_left-All : (b : Bool) (c : ℕ) (s : Text) → P c → All P s → All P (keep_left b c s)
  unfolding keep_left
  keep_left-All true c [] h k = tt
  keep_left-All false c [] h k = (h, tt)
  keep_left-All true c (d ∷ s) h k = (h, k)
  keep_left-All false c (d ∷ s) h k = (h, k)

  trim_right-All : (s : Text) → All P s → All P (trim_right p s)
  unfolding trim_right
  trim_right-All [] h = tt
  trim_right-All (c ∷ s) (h, hs) = keep_left-All (p c) c _ h (trim_right-All s hs)

  trim_left-All : (s : Text) → All P s → All P (trim_left p s)
  unfolding trim_left
  trim_left-All [] h = tt
  trim_left-All (c ∷ s) (h, hs) = ground (arith, trim_left-All s hs)

abbrev pub IsObjectRune : ℕ → Type 0
IsObjectRune c = is_object_rune c ≡ true

underscore-IsObjectRune : IsObjectRune b'_'
underscore-IsObjectRune = unfold is_object_rune in refl

replace_runs-All : (inside : Bool) (s : Text) → All IsObjectRune (replace_runs inside s)
unfolding replace_runs
replace_runs-All inside [] = tt
replace_runs-All inside (c ∷ s) =
    ground (arith, replace_runs-All false s, replace_runs-All true s, underscore-IsObjectRune)

or_unknown-All :
    (P : ℕ → Type 0)
    → All P (codes "unknown")
    → (s : Text) → All P s
    → All P (or_unknown s) × (or_unknown s ≢ [])
or_unknown-All P u [] h = (u, cc)
or_unknown-All P u (c ∷ s) h = (h, cc)

-- A letter from `a` to `z`, a digit from `0` to `9`, or `_`.
abbrev pub IsIdentifierRune : ℕ → Type 0
IsIdentifierRune c = ((b'a' ≤ c) × (c ≤ b'z')) ⊎ (((b'0' ≤ c) × (c ≤ b'9')) ⊎ (c ≡ b'_'))

object_rune-IsIdentifier : (c : ℕ) → IsObjectRune c → IsIdentifierRune c
unfolding is_object_rune
object_rune-IsIdentifier c h = ground (arith, h)

All-IsIdentifier : (s : Text) → All IsObjectRune s → All IsIdentifierRune s
All-IsIdentifier [] h = tt
All-IsIdentifier (c ∷ s) (h, hs) = (object_rune-IsIdentifier c h, All-IsIdentifier s hs)

module _ ⦃u : Unicode⦄ where
  -- Of any name the publisher makes a part of a topic that is not empty and has no `/`, `+`, `#` or
  -- U+0020, and an identifier that is not empty and has only the letters `a` to `z`, the digits `0`
  -- to `9` and `_`.
  pub sanitize_lem :
      (name : Text)
      → (All IsPlainRune (sanitize_topic_part name) × (sanitize_topic_part name ≢ []))
        × (All IsIdentifierRune (sanitize_object_id name) × (sanitize_object_id name ≢ []))
  unfolding sanitize_topic_part sanitize_object_id trim
  sanitize_lem name =
      let (object, full) =
        or_unknown-All IsObjectRune
          (unfold is_object_rune in (refl, (refl, (refl, (refl, (refl, (refl, (refl, tt)))))))) _
          (trim_right-All IsObjectRune is_underscore _ (
            trim_left-All IsObjectRune is_underscore _
              (replace_runs-All false (to_lower (trim_space name))))) in
      (
        or_unknown-All IsPlainRune (unfold topic_rune in ground arith) _
            (map-IsPlain (to_lower (trim_space name))),
        (All-IsIdentifier _ object, full),
      )
