-- ===== src/Webui/Paths/Crumbs.antt =====
-- The links of a page lead back through the directories that the path names.
use smtp_store.Base.{
  ◌≡◌, refl, sym, ap, List, [], ◌∷◌, ◌++◌, map, Text, codes, All, All-append, text_eq,
}
use smtp_store.Base.Strings.Split.{join}
use smtp_store.Base.Strings.FilePath.{slash}
use smtp_store.Base.Strings.FilePath.Plain.{IsPlain}
use smtp_store.Base.Strings.FilePath.Clean.{split-join, join-append, All-Lacks}
use smtp_store.Webui.Paths.{Crumb, join_rel, escape_rel_path, crumbs_from, root_crumb, breadcrumbs}
use smtp_store.Webui.Paths.Inside.{text_eq-join}

module _ (path_escape : Text → Text) where
  -- For each name, its link: the names up to it, each escaped by itself.
  abbrev pub links_behind : List Text → List Text → List Crumb
  links_behind before [] = []
  links_behind before (n ∷ ns) =
      record {
        label = n;
        url = codes "/browse/" ++ join (slash ∷ []) (map path_escape (before ++ n ∷ []));
      }
      ∷ links_behind (before ++ n ∷ []) ns

  pub escape_rel_path-join :
      (n : Text) (ns : List Text)
      → All IsPlain (n ∷ ns)
      → escape_rel_path path_escape (join (slash ∷ []) (n ∷ ns))
        ≡ join (slash ∷ []) (map path_escape (n ∷ ns))
  unfolding escape_rel_path
  escape_rel_path-join n ns plain = rw (text_eq-join n ns plain.0.non_empty) (
      ap (λ ps. join (slash ∷ []) (map path_escape ps))
        (split-join slash n ns (All-Lacks (n ∷ ns) plain)))

  escape_rel_path-snoc :
      (before : List Text) (n : Text)
      → All IsPlain (before ++ n ∷ [])
      → escape_rel_path path_escape (join (slash ∷ []) (before ++ n ∷ []))
        ≡ join (slash ∷ []) (map path_escape (before ++ n ∷ []))
  escape_rel_path-snoc [] n plain = escape_rel_path-join n [] plain
  escape_rel_path-snoc (b ∷ bs) n plain = escape_rel_path-join b (bs ++ n ∷ []) plain

  join_rel-join :
      (before : List Text) (n : Text)
      → All IsPlain before
      → join_rel (join (slash ∷ []) before) n ≡ join (slash ∷ []) (before ++ n ∷ [])
  unfolding join_rel
  join_rel-join [] n plain = unfold join text_eq in refl
  join_rel-join (b ∷ bs) n plain =
      rw (text_eq-join b bs plain.0.non_empty)
        (unfold join in sym (join-append (slash ∷ []) b bs n []))

  crumbs_from-links :
      (before ns : List Text)
      → All IsPlain before
      → All IsPlain ns
      → crumbs_from path_escape (join (slash ∷ []) before) ns ≡ links_behind before ns
  unfolding crumbs_from
  crumbs_from-links before [] h k = refl
  crumbs_from-links before (n ∷ ns) h k =
      let both = All-append IsPlain before (n ∷ []) h (k.0, tt) in
      rw (
        join_rel-join before n h,
        escape_rel_path-snoc before n both,
        crumbs_from-links (before ++ n ∷ []) ns both k.1,
      )

  -- For a relative path of plain names, as every resolved path is, the breadcrumbs are a link to the
  -- root and one for each name in turn, which leads to the directory of the names up to it, each
  -- escaped by itself.
  pub breadcrumbs-links :
      (n : Text) (ns : List Text)
      → All IsPlain (n ∷ ns)
      → breadcrumbs path_escape (join (slash ∷ []) (n ∷ ns))
        ≡ root_crumb path_escape ∷ links_behind [] (n ∷ ns)
  unfolding breadcrumbs
  breadcrumbs-links n ns plain =
      rw (text_eq-join n ns plain.0.non_empty, split-join slash n ns (All-Lacks (n ∷ ns) plain))
        (ap (λ cs. root_crumb path_escape ∷ cs)
          (unfold join in crumbs_from-links [] (n ∷ ns) tt plain))
