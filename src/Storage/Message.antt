-- ===== src/Storage/Message.antt =====
-- `parseMessage`, `extensionFrom` and `htmlToText` of internal/storage/storage.go. The packages
-- go-message/mail, mime and html are parameters: a message as its reader gives it out, the extensions
-- of a media type, and the unescaping of entities.
use smtp_store.Base.{
  Bool, true, false, Option, none, some, List, [], ◌∷◌, ◌++◌, map, Text, codes, Unicode, is_blank,
  is_space, trim_space, to_lower, equal_fold, text_eq, elem, ◌&&◌, ◌==◌, if◌then◌else◌,
}
use smtp_store.Base.Strings.Split.{join, split}
use smtp_store.Base.Strings.FilePath.{ext, non_empty}
use smtp_store.Base.Os.{Error, Outcome, ok, err, wrap, new_error, ◌>>=◌}

-- A part by the type of its header, with the body as `io.ReadAll` reads it.
pub data Part : Type 0 where
  inline_part : Text → Outcome Text → Part
  attachment_part : Text → Text → Outcome Text → Part
  other_part : Part

-- The addresses of the To header, the parts, and the error that ends them where it is not io.EOF.
pub record Mail : Type 0 where
  pub to : Outcome (List Text)
  pub parts : List Part
  pub broken : Option Error

pub record Library : Type 0 where
  pub create_reader : Text → Outcome Mail
  pub extensions_by_type : Text → Outcome (List Text)
  pub unescape : Text → Text

pub record Attachment : Type 0 where
  pub extension : Text
  pub data_bytes : Text

pub record Message : Type 0 where
  pub recipient : Text
  pub body : Text
  pub attachments : List Attachment

-- The variables of the loop over the parts.
pub record Gathered : Type 0 where
  pub plain_body : Text
  pub html_body : Text
  pub found : List Attachment

abbrev pub or_first : Text → Text → Text
or_first [] new = new
or_first (c ∷ s) new = c ∷ s

-- Whether `[^>]+>` matches from here on.
unfoldable pub closes : Text → Bool
closes [] = false
closes (c ∷ s) = if c == 62 then false else elem 62 s

-- `htmlTagRe.ReplaceAllString(raw, " ")`, with `<[^>]+>`; the flag says that a match is under way.
unfoldable pub strip_tags : Bool → Text → Text
unfolding closes
strip_tags inside [] = []
strip_tags true (c ∷ s) =
    let after = strip_tags false s in
    let still = strip_tags true s in if c == 62 then 32 ∷ after else still
strip_tags false (c ∷ s) =
    let after = strip_tags false s in
    let still = strip_tags true s in if c == 60 && closes s then still else c ∷ after

module _ ⦃u : Unicode⦄ where
  -- `strings.Fields`.
  unfoldable pub fields : Text → List Text
  unfolding is_space
  fields s = non_empty (split 32 (map (λ c. if is_space c then 32 else c) s))

  module _ (lib : Library) where
    unfoldable pub html_to_text : Text → Text
    unfolding strip_tags fields
    html_to_text raw = join (codes " ") (fields (lib.unescape (strip_tags false raw)))

    unfoldable pub first_extension : Outcome (List Text) → Text
    first_extension (err e) = codes ".bin"
    first_extension (ok []) = codes ".bin"
    first_extension (ok (x ∷ xs)) = to_lower x

    unfoldable pub extension_from : Text → Text → Text
    unfolding first_extension
    extension_from filename media_type =
        let extension = to_lower (trim_space (ext filename)) in
        if text_eq extension []
        then if is_blank media_type
          then codes ".bin"
          else first_extension (lib.extensions_by_type media_type)
        else extension

    -- The first text of each kind counts; a part that is neither plain nor HTML counts as plain.
    unfoldable pub take_inline : Text → Text → Gathered → Gathered
    unfolding html_to_text
    take_inline media_type text g =
        if equal_fold media_type (codes "text/plain")
        then record g { plain_body = or_first g.plain_body text }
        else if equal_fold media_type (codes "text/html")
        then record g { html_body = or_first g.html_body (html_to_text text) }
        else record g { plain_body = or_first g.plain_body text }

    unfoldable pub take_part : Part → Gathered → Outcome Gathered
    unfolding take_inline extension_from
    take_part (inline_part media_type (err e)) g = err (wrap (codes "read inline part") e)
    take_part (inline_part media_type (ok text)) g = ok (take_inline media_type text g)
    take_part (attachment_part filename media_type (err e)) g =
        err (wrap (codes "read attachment part") e)
    take_part (attachment_part filename media_type (ok payload)) g = ok (record g {
      found =
          g.found
          ++ record { extension = extension_from filename media_type; data_bytes = payload } ∷ [];
    })
    take_part other_part g = ok g

    unfoldable pub ended : Option Error → Gathered → Outcome Gathered
    ended none g = ok g
    ended (some e) g = err (wrap (codes "read MIME part") e)

    unfoldable pub take_parts : List Part → Option Error → Gathered → Outcome Gathered
    unfolding take_part ended
    take_parts [] broken g = ended broken g
    take_parts (p ∷ ps) broken g = do g' ← take_part p g; take_parts ps broken g'

    -- The first address of the To header.
    unfoldable pub first_recipient : Outcome (List Text) → Outcome Text
    first_recipient (err e) = err (wrap (codes "parse To header") e)
    first_recipient (ok []) = err (new_error (codes "message does not contain To recipient"))
    first_recipient (ok (address ∷ rest)) =
        if is_blank address
        then err (new_error (codes "first To recipient is empty"))
        else ok (trim_space address)

    unfoldable pub parse_mail : Outcome Mail → Outcome Message
    unfolding first_recipient take_parts
    parse_mail (err e) = err (wrap (codes "parse MIME message") e)
    parse_mail (ok mail) = do
      recipient ← first_recipient mail.to
      g ← take_parts mail.parts mail.broken (record { plain_body = []; html_body = []; found = [] })
      ok (record {
        recipient = recipient;
        body = or_first g.plain_body g.html_body;
        attachments = g.found;
      })

    -- `parseMessage`.
    unfoldable pub parse_message : Text → Outcome Message
    unfolding parse_mail
    parse_message raw = parse_mail (lib.create_reader raw)
