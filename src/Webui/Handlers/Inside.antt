-- ===== src/Webui/Handlers/Inside.antt =====
-- Every file and directory that a response of internal/webui/server.go is made of lies below the
-- storage root.
use mathlib.Core.Path.{subst}
use smtp_store.Base.{
  ℕ, ◌≡◌, refl, sym, Bool, true, false, not, inl, inr, Option, none, some, List, [], ◌∷◌, Text,
  codes, Unicode, All, text_eq, has_prefix, trim_prefix, is_blank, if◌then◌else◌,
}
use smtp_store.Base.Strings.FilePath.Plain.{IsPlain}
use smtp_store.Base.Os.{Outcome}
use smtp_store.Webui.Session.{authenticated_user, require_auth}
use smtp_store.Webui.Paths.{requested, resolve_path}
use smtp_store.Webui.Paths.Inside.{rooted, IsResolved, resolve_path-IsResolved}
use smtp_store.Webui.Pages.{}
use smtp_store.Webui.Handlers.{
  Request, redirect, http_error, method_not_allowed, not_found, serve_asset, App, Disposition,
  inline, attachment, is_get, is_get_or_head, resolve, serve_resolved, handle_media,
  handle_download, handle_login, handle_logout, handle_dashboard, handle_browse_root_redirect,
  browse_resolved, handle_browse, view_stat, view_resolved, handle_view, route_user, route,
}
use smtp_store.Webui.Handlers.Answers.{
  AtInside, if-AtInside, serve_stat-AtInside, view_stat-AtInside, browse_stat-AtInside,
  handle_login-AtInside, handle_logout-AtInside, handle_dashboard-AtInside, handle_root-AtInside,
}

module _ ⦃u : Unicode⦄ {F : Type 0} (a : App F) where
  module _ (n : Text) (ns : List Text) (plain : All IsPlain (n ∷ ns))
      (root : a.root_abs ≡ rooted (n ∷ ns)) where
    resolve-IsResolved :
        (url_path prefix : Text)
        → IsResolved a.cwd n ns plain
            (requested a.path_unescape url_path prefix)
            (resolve a url_path prefix)
    resolve-IsResolved url_path prefix =
        subst
          (λ p.
            IsResolved a.cwd n ns plain (requested a.path_unescape url_path prefix)
              (resolve_path a.cwd p a.path_unescape url_path prefix))
          (sym root) (resolve_path-IsResolved a.cwd n ns plain a.path_unescape url_path prefix)

    serve_resolved-AtInside :
        (d : Disposition) (refusal : Text) (asked : Text) (o : Outcome (Text × Text))
        → IsResolved a.cwd n ns plain asked o
        → AtInside a (n ∷ ns) (serve_resolved a d refusal o)
    unfolding serve_resolved
    serve_resolved-AtInside d refusal asked o (inl (asks, e)) =
        subst (λ x. AtInside a (n ∷ ns) (serve_resolved a d refusal x)) (sym e) tt
    serve_resolved-AtInside d refusal asked o (inr (none_dots, ((rel, abs), e, inside, same))) =
        subst (λ x. AtInside a (n ∷ ns) (serve_resolved a d refusal x)) (sym e)
          (serve_stat-AtInside a (n ∷ ns) d refusal rel abs (a.disk.stat abs) inside)

    view_resolved-AtInside :
        (user : Text) (asked : Text) (o : Outcome (Text × Text))
        → IsResolved a.cwd n ns plain asked o
        → AtInside a (n ∷ ns) (view_resolved a user o)
    unfolding view_resolved
    view_resolved-AtInside user asked o (inl (asks, e)) =
        subst (λ x. AtInside a (n ∷ ns) (view_resolved a user x)) (sym e) tt
    view_resolved-AtInside user asked o (inr (none_dots, ((rel, abs), e, inside, same))) =
        subst (λ x. AtInside a (n ∷ ns) (view_resolved a user x)) (sym e)
          (if-AtInside a (n ∷ ns) (text_eq rel []) (redirect (codes "/browse/"))
            (view_stat a user rel abs (a.disk.stat abs)) tt
            (view_stat-AtInside a (n ∷ ns) user rel abs (a.disk.stat abs) inside refl))

    browse_resolved-AtInside :
        (user asked : Text) (o : Outcome (Text × Text))
        → IsResolved a.cwd n ns plain asked o
        → AtInside a (n ∷ ns) (browse_resolved a user o)
    unfolding browse_resolved
    browse_resolved-AtInside user asked o (inl (asks, e)) =
        subst (λ x. AtInside a (n ∷ ns) (browse_resolved a user x)) (sym e) tt
    browse_resolved-AtInside user asked o (inr (none_dots, ((rel, abs), e, inside, same))) =
        subst (λ x. AtInside a (n ∷ ns) (browse_resolved a user x)) (sym e)
          (browse_stat-AtInside a (n ∷ ns) user rel abs (a.disk.stat abs) inside)

    handle_browse-AtInside :
        (user : Text) (r : Request) → AtInside a (n ∷ ns) (handle_browse a user r)
    unfolding handle_browse
    handle_browse-AtInside user r =
        if-AtInside a (n ∷ ns) (is_get r.method)
          (browse_resolved a user (resolve a r.url_path (codes "/browse/")))
          (method_not_allowed (codes "GET"))
          (browse_resolved-AtInside user _ _ (resolve-IsResolved r.url_path (codes "/browse/"))) tt

    handle_media-AtInside : (r : Request) → AtInside a (n ∷ ns) (handle_media a r)
    unfolding handle_media
    handle_media-AtInside r =
        if-AtInside a (n ∷ ns) (not (is_get_or_head r.method))
          (method_not_allowed (codes "GET, HEAD")) _ tt
          (if-AtInside a (n ∷ ns) (is_blank a.media_token) not_found _ tt (
            if-AtInside a (n ∷ ns) (not (text_eq r.token a.media_token))
              (http_error 403 (codes "forbidden"))
              (serve_resolved a inline (codes "directories cannot be served")
                (resolve a r.url_path (codes "/media/")))
              tt
              (serve_resolved-AtInside inline (codes "directories cannot be served") _ _
                (resolve-IsResolved r.url_path (codes "/media/")))))

    handle_download-AtInside : (r : Request) → AtInside a (n ∷ ns) (handle_download a r)
    unfolding handle_download
    handle_download-AtInside r =
        if-AtInside a (n ∷ ns) (is_get r.method)
          (serve_resolved a attachment (codes "directories cannot be downloaded")
            (resolve a r.url_path (codes "/download/")))
          (method_not_allowed (codes "GET"))
          (serve_resolved-AtInside attachment (codes "directories cannot be downloaded") _ _
            (resolve-IsResolved r.url_path (codes "/download/")))
          tt

    handle_view-AtInside : (user : Text) (r : Request) → AtInside a (n ∷ ns) (handle_view a user r)
    unfolding handle_view
    handle_view-AtInside user r =
        if-AtInside a (n ∷ ns) (is_get r.method)
          (view_resolved a user (resolve a r.url_path (codes "/view/")))
          (method_not_allowed (codes "GET"))
          (view_resolved-AtInside user _ _ (resolve-IsResolved r.url_path (codes "/view/"))) tt

    route_user-AtInside : (user : Text) (r : Request) → AtInside a (n ∷ ns) (route_user a user r)
    unfolding route_user
    route_user-AtInside user r =
        by_tests (text_eq r.url_path (codes "/logout")) (has_prefix r.url_path (codes "/browse/"))
          (text_eq r.url_path (codes "/browse")) (has_prefix r.url_path (codes "/view/"))
          (has_prefix r.url_path (codes "/download/"))
      where
        by_tests :
            (o b e v d : Bool)
            → AtInside a (n ∷ ns) (
                if o
                then handle_logout a r
                else if b
                then handle_browse a user r
                else if e
                then handle_browse_root_redirect a r
                else if v
                then handle_view a user r
                else if d
                then handle_download a r
                else handle_dashboard a user r)
        by_tests true b e v d = handle_logout-AtInside a (n ∷ ns) r
        by_tests false true e v d = handle_browse-AtInside user r
        by_tests false false true v d = handle_root-AtInside a (n ∷ ns) r
        by_tests false false false true d = handle_view-AtInside user r
        by_tests false false false false true = handle_download-AtInside r
        by_tests false false false false false = handle_dashboard-AtInside a (n ∷ ns) user r

    require_auth-AtInside :
        (r : Request) (o : Option Text)
        → AtInside a
            (n ∷ ns)
            (require_auth (redirect (codes "/login")) (λ user. route_user a user r) o)
    unfolding require_auth
    require_auth-AtInside r none = tt
    require_auth-AtInside r (some user) = route_user-AtInside user r

    -- For a storage root of plain names, whatever the request, the session and the media token: a file
    -- that is served, a text file whose text a page shows, a file that a page describes by its type and
    -- size, and a directory whose entries a browse page lists have the path of the root with plain names
    -- behind, none of them empty, `.` or `..`, and the text, the type, the size and the entries are
    -- those that the disk has at this path. The relative path on the page is made of these names.
    pub route-AtInside : (now : ℕ) (r : Request) → AtInside a (n ∷ ns) (route a now r)
    unfolding route
    route-AtInside now r =
        if-AtInside a (n ∷ ns) (text_eq r.url_path (codes "/login")) (handle_login a now r) _
          (handle_login-AtInside a (n ∷ ns) now r)
          (if-AtInside a (n ∷ ns) (has_prefix r.url_path (codes "/media/")) (handle_media a r) _
            (handle_media-AtInside r)
            (if-AtInside a (n ∷ ns) (has_prefix r.url_path (codes "/static/"))
              (serve_asset (trim_prefix r.url_path (codes "/static/"))) _ tt
              (require_auth-AtInside r (authenticated_user a.keys now a.ui_users r.cookie))))
