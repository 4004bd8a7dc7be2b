-- ===== src/Webui/Paths.antt =====
-- `resolvePathFromRequest`, `joinRel`, `escapeRelPath` and `breadcrumbs` of internal/webui/server.go.
-- `url.PathUnescape`, `url.PathEscape` and the working directory are parameters.
pub mod Parts
pub mod Inside
pub mod Crumbs
use smtp_store.Base.{
  ℕ, Bool, true, false, not, ◌&&◌, ◌||◌, List, [], ◌∷◌, ◌++◌, map, Text, codes, text_eq, has_prefix,
  trim_prefix, ◌==◌, if◌then◌else◌,
}
use smtp_store.Base.Strings.Split.{split, join}
use smtp_store.Base.Strings.FilePath.{slash, dot, clean, join_path}
use smtp_store.Base.Os.{Error, Outcome, ok, err, new_error}

-- `filepath.Abs`.
unfoldable pub below_cwd : Outcome Text → Text → Outcome Text
below_cwd (err e) p = err e
below_cwd (ok cwd) p = ok (join_path (cwd ∷ p ∷ []))

unfoldable pub absolute : Outcome Text → Text → Outcome Text
unfolding below_cwd
absolute cwd p = if has_prefix p (slash ∷ []) then ok (clean p) else below_cwd cwd p

abbrev pub unescaped_or : Text → Outcome Text → Text
unescaped_or rel (err e) = rel
unescaped_or rel (ok unescaped) = unescaped

unfoldable pub has_dots : List Text → Bool
has_dots [] = false
has_dots (s ∷ ss) = text_eq s (dot ∷ dot ∷ []) || has_dots ss

abbrev pub traversal : Error
traversal = new_error (codes "path traversal is not allowed")

-- The guard on the result.
unfoldable pub guard_root : Text → Text → Outcome Text → Outcome (Text × Text)
guard_root root rel (err e) = err e
guard_root root rel (ok resolved) =
    if not (text_eq resolved root) && not (has_prefix resolved (root ++ slash ∷ []))
    then err (new_error (codes "path escapes storage root"))
    else ok (rel, resolved)

-- The path that a request asks for: unescaped, if it can be, and with slashes for backslashes.
abbrev pub requested : (Text → Outcome Text) → Text → Text → Text
requested path_unescape url_path prefix =
    let rel = trim_prefix (trim_prefix url_path prefix) (slash ∷ []) in
    map (λ c. if c == b'\\' then slash else c) (unescaped_or rel (path_unescape rel))

module _ (cwd : Outcome Text) (root : Text) where
  unfoldable pub resolve_clean : Text → Outcome (Text × Text)
  unfolding guard_root
  resolve_clean rel = guard_root root rel (absolute cwd (join_path (root ∷ rel ∷ [])))

  abbrev pub drop_dot : Text → Text
  drop_dot rel = if text_eq rel (dot ∷ []) then [] else rel

  unfoldable pub resolve_rel : Text → Outcome (Text × Text)
  unfolding has_dots resolve_clean
  resolve_rel rel =
      if has_dots (split slash rel)
      then err traversal
      else resolve_clean (drop_dot (trim_prefix (clean (slash ∷ rel)) (slash ∷ [])))

  -- `resolvePathFromRequest`, on the path of the request's URL.
  unfoldable pub resolve_path : (Text → Outcome Text) → Text → Text → Outcome (Text × Text)
  unfolding resolve_rel
  resolve_path path_unescape url_path prefix = resolve_rel (requested path_unescape url_path prefix)

unfoldable pub join_rel : Text → Text → Text
join_rel base name = if text_eq base [] then name else base ++ (slash ∷ name)

pub record Crumb : Type 0 where
  pub label : Text
  pub url : Text

module _ (path_escape : Text → Text) where
  unfoldable pub escape_rel_path : Text → Text
  escape_rel_path rel =
      if text_eq rel [] then [] else join (slash ∷ []) (map path_escape (split slash rel))

  -- The loop over the parts, with the path so far.
  unfoldable pub crumbs_from : Text → List Text → List Crumb
  unfolding join_rel escape_rel_path
  crumbs_from acc [] = []
  crumbs_from acc (part ∷ parts) =
      let acc' = join_rel acc part in
      record { label = part; url = codes "/browse/" ++ escape_rel_path acc' }
      ∷ crumbs_from acc' parts

  abbrev pub root_crumb : Crumb
  root_crumb = record { label = codes "Root"; url = codes "/browse/" }

  unfoldable pub breadcrumbs : Text → List Crumb
  unfolding crumbs_from
  breadcrumbs rel =
      if text_eq rel [] then root_crumb ∷ [] else root_crumb ∷ crumbs_from [] (split slash rel)
