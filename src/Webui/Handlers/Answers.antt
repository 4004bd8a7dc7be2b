-- ===== src/Webui/Handlers/Answers.antt =====
-- What the responses of internal/webui/server.go may have of the disk, and that the handlers keep to it
-- once a request's path is resolved below the storage root.
use smtp_store.Base.{
  ℕ, ◌+◌, ◌/◌, to_lower, trim_space, ◌≡◌, refl, Bool, true, false, not, Option, none, some, List,
  [], Text, codes, Unicode, text_eq, equal_fold, if◌then◌else◌,
}
use smtp_store.Base.Strings.FilePath.{base_name, ext}
use smtp_store.Base.Dict.{lookup}
use smtp_store.Base.Os.{Error, Outcome, ok, err}
use smtp_store.Webui.Session.{create_session_token}
use smtp_store.Webui.Paths.Inside.{IsInside}
use smtp_store.Webui.Files.{Info, Entry, human_size, detect_content_type, is_inline_preview_type}
use smtp_store.Webui.Pages.{
  is_not_exist, sorted_entries, list_recipients, list_recent_files, RecipientEntry, RecentItem,
}
use smtp_store.Webui.Handlers.{
  Page, dashboard_page, browse_page, text_page, binary_page, Request, Response, redirect,
  http_error, method_not_allowed, not_found, login_page, start_session, end_session, page,
  serve_file, serve_asset, App, Disposition, inline, is_get, is_post, is_secure_request, stat_error,
  serve_as, serve_stat, handle_login, login_with, handle_logout, handle_dashboard, dashboard_with,
  handle_browse_root_redirect, browse_dir, browse_stat, view_text, view_typed, view_stat,
  password_matches, login_title,
}

module _ ⦃u : Unicode⦄ {F : Type 0} (a : App F) where
  -- What a page shows of the disk: a directory that it lists, a text file whose text it shows, and a
  -- file that it describes all have the root with plain names behind as their path.
  abbrev pub PageInside : List Text → Page → Type 0
  PageInside names (dashboard_page root recipients files) = Unit
  PageInside names (browse_page rel crumbs entries) =
      (abs : Text) × (es : List Entry) × IsInside names (rel, abs)
      × (a.disk.read_dir abs ≡ ok es)
      × (entries ≡ sorted_entries a.path_escape a.disk a.root_abs rel abs es)
  PageInside names (text_page name rel body time download) =
      (abs : Text) × IsInside names (rel, abs) × (a.disk.read_file abs ≡ ok body)
  PageInside names (binary_page name rel content_type size time download) =
      (abs : Text) × (info : Info) × IsInside names (rel, abs)
      × (a.disk.stat abs ≡ ok info)
      × (detect_content_type a.disk abs ≡ ok content_type)
      × (size ≡ human_size a.disk.format_tenth info.size)

  -- The same of a response, whose file has such a path too.
  abbrev pub AtInside : List Text → Response → Type 0
  AtInside names (redirect t) = Unit
  AtInside names (http_error n t) = Unit
  AtInside names (method_not_allowed t) = Unit
  AtInside names not_found = Unit
  AtInside names (login_page n t) = Unit
  AtInside names (start_session t n b) = Unit
  AtInside names (end_session b) = Unit
  AtInside names (page user p) = PageInside names p
  AtInside names (serve_file d name t abs) =
      (rel : Text) × IsInside names (rel, abs) × (detect_content_type a.disk abs ≡ ok t)
  AtInside names (serve_asset t) = Unit

  module _ (names : List Text) where
    pub if-AtInside :
        (b : Bool) (x y : Response)
        → AtInside names x
        → AtInside names y
        → AtInside names (if b then x else y)
    if-AtInside true x y h k = h
    if-AtInside false x y h k = k

    stat_error-AtInside : (message : Text) (e : Error) → AtInside names (stat_error message e)
    unfolding stat_error
    stat_error-AtInside message e =
        if-AtInside (is_not_exist e) not_found (http_error 500 message) tt tt

    serve_as-AtInside :
        (d : Disposition) (name rel abs : Text) (o : Outcome Text)
        → IsInside names (rel, abs)
        → detect_content_type a.disk abs ≡ o
        → AtInside names (serve_as a d name abs o)
    unfolding serve_as
    serve_as-AtInside d name rel abs (err e) h k = tt
    serve_as-AtInside d name rel abs (ok t) h k = (rel, h, k)

    pub serve_stat-AtInside :
        (d : Disposition) (refusal rel abs : Text) (o : Outcome Info)
        → IsInside names (rel, abs)
        → AtInside names (serve_stat a d refusal abs o)
    unfolding serve_stat
    serve_stat-AtInside d refusal rel abs (err e) h =
        stat_error-AtInside (codes "failed to stat file") e
    serve_stat-AtInside d refusal rel abs (ok info) h =
        if-AtInside info.is_dir (http_error 400 refusal)
          (serve_as a d info.name abs (detect_content_type a.disk abs)) tt
          (serve_as-AtInside d info.name rel abs (detect_content_type a.disk abs) h refl)

    view_typed-AtInside :
        (user rel abs name : Text) (info : Info) (o : Outcome Text)
        → IsInside names (rel, abs)
        → a.disk.stat abs ≡ ok info
        → detect_content_type a.disk abs ≡ o
        → AtInside names (view_typed a user rel abs name info o)
    unfolding view_typed
    view_typed-AtInside user rel abs name info (err e) h st k = tt
    view_typed-AtInside user rel abs name info (ok t) h st k =
        if-AtInside (is_inline_preview_type t) (serve_file inline name t abs) _ (rel, h, k)
          (abs, info, h, st, k, refl)

    view_text-AtInside :
        (user rel abs name : Text) (info : Info) (o : Outcome Text)
        → IsInside names (rel, abs)
        → a.disk.read_file abs ≡ o
        → AtInside names (view_text a user rel name info o)
    unfolding view_text
    view_text-AtInside user rel abs name info (err e) h k = tt
    view_text-AtInside user rel abs name info (ok t) h k = (abs, h, k)

    pub view_stat-AtInside :
        (user rel abs : Text) (o : Outcome Info)
        → IsInside names (rel, abs)
        → a.disk.stat abs ≡ o
        → AtInside names (view_stat a user rel abs o)
    unfolding view_stat
    view_stat-AtInside user rel abs (err e) h st =
        stat_error-AtInside (codes "failed to stat file") e
    view_stat-AtInside user rel abs (ok info) h st = if-AtInside info.is_dir _ _ tt (
        if-AtInside (equal_fold (ext (base_name abs)) (codes ".txt")) _ _
          (view_text-AtInside user rel abs (base_name abs) info (a.disk.read_file abs) h refl)
          (view_typed-AtInside user rel abs (base_name abs) info (detect_content_type a.disk abs) h
            st refl))

    browse_dir-AtInside :
        (user rel abs : Text) (o : Outcome (List Entry))
        → IsInside names (rel, abs)
        → a.disk.read_dir abs ≡ o
        → AtInside names (browse_dir a user rel abs o)
    unfolding browse_dir
    browse_dir-AtInside user rel abs (err e) h k = tt
    browse_dir-AtInside user rel abs (ok es) h k = (abs, es, h, k, refl)

    pub browse_stat-AtInside :
        (user rel abs : Text) (o : Outcome Info)
        → IsInside names (rel, abs)
        → AtInside names (browse_stat a user rel abs o)
    unfolding browse_stat
    browse_stat-AtInside user rel abs (err e) h =
        stat_error-AtInside (codes "failed to stat path") e
    browse_stat-AtInside user rel abs (ok info) h =
        if-AtInside info.is_dir _ _ (browse_dir-AtInside user rel abs (a.disk.read_dir abs) h refl)
          tt

    dashboard_with-AtInside :
        (user : Text) (o : Outcome (List RecipientEntry)) (o' : Outcome (List RecentItem))
        → AtInside names (dashboard_with a user o o')
    unfolding dashboard_with
    dashboard_with-AtInside user (err e) o' = tt
    dashboard_with-AtInside user (ok rs) (err e) = tt
    dashboard_with-AtInside user (ok rs) (ok fs) = tt

    login_with-AtInside :
        (now : ℕ) (secure : Bool) (form : Option (Text × Text))
        → AtInside names (login_with a now secure form)
    unfolding login_with
    login_with-AtInside now secure none = tt
    login_with-AtInside now secure (some (name, password)) =
        let username = to_lower (trim_space name) in
        let expires = (now + a.session_ttl) / 1000000000 in
        if-AtInside (password_matches a (lookup username a.ui_users) password)
          (start_session (create_session_token a.keys username expires) expires secure)
          (login_page 401 login_title) tt tt

    pub handle_login-AtInside : (now : ℕ) (r : Request) → AtInside names (handle_login a now r)
    unfolding handle_login
    handle_login-AtInside now r = if-AtInside (is_get r.method) (login_page 200 []) _ tt (
        if-AtInside (is_post r.method) (login_with a now (is_secure_request a r) r.form)
          (method_not_allowed (codes "GET, POST"))
          (login_with-AtInside now (is_secure_request a r) r.form) tt)

    pub handle_logout-AtInside : (r : Request) → AtInside names (handle_logout a r)
    unfolding handle_logout
    handle_logout-AtInside r =
        if-AtInside (is_post r.method) (end_session (is_secure_request a r))
          (method_not_allowed (codes "POST")) tt tt

    pub handle_dashboard-AtInside :
        (user : Text) (r : Request) → AtInside names (handle_dashboard a user r)
    unfolding handle_dashboard
    handle_dashboard-AtInside user r =
        if-AtInside (not (text_eq r.url_path (codes "/"))) not_found _ tt (
          if-AtInside (not (is_get r.method)) (method_not_allowed (codes "GET")) _ tt (
            dashboard_with-AtInside user (list_recipients a.path_escape a.disk a.root_abs a.index)
              (list_recent_files a.path_escape a.disk a.root_abs 80 a.index)))

    pub handle_root-AtInside : (r : Request) → AtInside names (handle_browse_root_redirect a r)
    unfolding handle_browse_root_redirect
    handle_root-AtInside r =
        if-AtInside (text_eq r.url_path (codes "/browse")) (redirect (codes "/browse/")) not_found
          tt tt
