-- ===== src/Spool/Item.antt =====
-- `itemMeta`, `newID` and `readItem` of internal/spool/spool.go: a spooled file is one line of JSON
-- with the time of receipt, and the raw message behind it.
pub mod Read
use smtp_store.Base.{
  ℕ, ◌≡◌, ◌≢◌, refl, Bool, true, false, Option, none, some, [], ◌∷◌, ◌++◌, ◌∙◌, ap, arith, Text,
  codes, Unicode, is_space, trim_space, append_assoc, ◌==◌, if◌then◌else◌,
}
use smtp_store.Base.Strings.Space.{StartsOutside, EndsOutside, trim_space-line}
use smtp_store.Base.Strings.Split.{Lacks}
use smtp_store.Base.Strings.Decimal.{decimal}
use smtp_store.Base.Strings.Hex.{hex}
use smtp_store.Base.Dict.{lookup}
use smtp_store.Base.Os.{Error, Outcome, ok, err, wrap, new_error, not_exist}
use smtp_store.Spool.{Spool, Dir, files, plain_call}

-- `encoding/json` on `itemMeta`, and the formats of `time` that the queue uses. A time is its
-- nanosecond.
pub record Codec : Type 0 where
  pub marshal : Text → Text
  pub unmarshal : Text → Outcome Text
  pub format_nano : ℕ → Text
  pub parse_nano : Text → Option ℕ
  pub format_id : ℕ → Text

-- What the packages document: JSON of one object stands on one line between braces and is read back,
-- and so is a time of RFC 3339.
pub record IsLawful ⦃u : Unicode⦄ (c : Codec) : Type 0 where
  pub unmarshal-marshal : (t : Text) → c.unmarshal (c.marshal t) ≡ ok t
  pub one_line : (t : Text) → Lacks 10 (c.marshal t)
  pub not_empty : (t : Text) → c.marshal t ≢ []
  pub starts : (t : Text) → StartsOutside is_space (c.marshal t)
  pub ends : (t : Text) → EndsOutside is_space (c.marshal t)
  pub parse-format : (n : ℕ) → c.parse_nano (c.format_nano n) ≡ some n

-- `ReadBytes('\n')`: the line with its end, and what follows; `none` at the end of the file.
unfoldable pub cut_line : Text → Option (Text × Text)
cut_line [] = none
cut_line (b ∷ s) =
    let more = cut_line s in
    if b == 10
    then some (10 ∷ [], s)
    else elim more [ none ↦ none | some (line, rest) ↦ some (b ∷ line, rest) ]

cut_line-append :
    (line rest : Text) → Lacks 10 line → cut_line (line ++ 10 ∷ rest) ≡ some (line ++ 10 ∷ [], rest)
unfolding cut_line
cut_line-append [] rest h = refl
cut_line-append (b ∷ line) rest (h, k) = ground (arith, cut_line-append line rest k)

module _ (c : Codec) where
  -- `newID`: random bytes behind the time, or the clock where there are none.
  unfoldable pub new_id : ℕ → Option Text → ℕ → Text
  new_id received_at (some random) now = c.format_id received_at ++ (codes "-" ++ hex random)
  new_id received_at none now = c.format_id received_at ++ (codes "-" ++ decimal now)

  -- The metadata line that `Enqueue` writes.
  unfoldable pub meta_line : ℕ → Text
  meta_line received_at = c.marshal (c.format_nano received_at) ++ 10 ∷ []

  module _ ⦃u : Unicode⦄ where
    with_meta : Text → Outcome Text → Outcome (Text × Text)
    with_meta rest (err e) = err (wrap (codes "parse metadata") e)
    with_meta rest (ok meta) = ok (meta, rest)

    parse_line : Option (Text × Text) → Outcome (Text × Text)
    unfolding with_meta
    parse_line none = err (wrap (codes "read metadata") (new_error (codes "EOF")))
    parse_line (some (line, rest)) = with_meta rest (c.unmarshal (trim_space line))

    unfoldable pub parse_item : Text → Outcome (Text × Text)
    unfolding parse_line
    parse_item content = parse_line (cut_line content)

    read_all : Text × Text → Option Error → Outcome (Text × Text)
    read_all item none = ok item
    read_all item (some e) = err (wrap (codes "read message") e)

    module _ {S : Type 0} where
      rest_read : Text × Text → Option Error × Spool S → Outcome (Text × Text) × Spool S
      unfolding read_all
      rest_read item (e, w) = (read_all item e, w)

      parsed : Outcome (Text × Text) → Spool S → Outcome (Text × Text) × Spool S
      unfolding rest_read
      parsed (err e) w = (err e, w)
      parsed (ok item) w = rest_read item (plain_call w)

      line_read : Text → Option Error × Spool S → Outcome (Text × Text) × Spool S
      unfolding parsed parse_item
      line_read content (some e, w) = (err (wrap (codes "read metadata") e), w)
      line_read content (none, w) = parsed (parse_item content) w

      found : Option Text → Spool S → Outcome (Text × Text) × Spool S
      unfolding line_read
      found none w = (err not_exist, w)
      found (some content) w = line_read content (plain_call w)

      opened : Dir → Text → Option Error × Spool S → Outcome (Text × Text) × Spool S
      unfolding found
      opened dir name (some e, w) = (err e, w)
      opened dir name (none, w) = found (lookup name (files dir w)) w

      -- `readItem`: the file is opened, its first line is read and parsed, then the rest is read.
      unfoldable pub read_item : Dir → Text → Spool S → Outcome (Text × Text) × Spool S
      unfolding opened
      read_item dir name w = opened dir name (plain_call w)

    module _ (L : IsLawful c) (received_at : ℕ) where
      stamp : Text
      stamp = c.format_nano received_at

      cut_line-meta_line :
          (raw : Text) → cut_line (meta_line received_at ++ raw) ≡ some (meta_line received_at, raw)
      unfolding meta_line stamp
      cut_line-meta_line raw =
          ap cut_line (append_assoc (c.marshal stamp) (10 ∷ []) raw)
          ∙ cut_line-append (c.marshal stamp) raw (L.one_line stamp)

      unmarshal-meta_line : c.unmarshal (trim_space (meta_line received_at)) ≡ ok stamp
      unfolding meta_line stamp
      unmarshal-meta_line =
          ap c.unmarshal
            (trim_space-line (c.marshal stamp) (L.not_empty stamp) (L.starts stamp) (L.ends stamp))
          ∙ L.unmarshal-marshal stamp

      -- What `Enqueue` writes is read back: the time of receipt and the message, whatever bytes it
      -- holds.
      pub parse_item-meta_line :
          (raw : Text)
          → parse_item (meta_line received_at ++ raw) ≡ ok (c.format_nano received_at, raw)
      unfolding parse_item stamp
      parse_item-meta_line raw =
          ap parse_line (cut_line-meta_line raw) ∙ ap (with_meta raw) unmarshal-meta_line
