-- ===== src/Webui/Handlers.antt =====
-- The handlers of internal/webui/server.go, from a request to the response. Rendering is the page with
-- its data, and serving a file is its path with the headers.
pub mod Guarded
pub mod Answers
pub mod Inside
pub mod Login
use smtp_store.Base.{
  ℕ, ◌+◌, ◌*◌, ◌/◌, Bool, true, false, not, ◌&&◌, ◌||◌, Option, none, some, List, [], ◌∷◌, ◌++◌,
  Text, codes, Unicode, text_eq, has_prefix, trim_prefix, is_blank, trim_space, to_lower,
  equal_fold, ◌==◌, if◌then◌else◌,
}
use smtp_store.Base.Strings.FilePath.{base_name, ext}
use smtp_store.Base.Dict.{Dict, lookup}
use smtp_store.Base.Os.{Error, Outcome, ok, err}
use smtp_store.Webui.Paths.{Crumb, resolve_path, escape_rel_path, breadcrumbs}
use smtp_store.Webui.Session.{Keys, create_session_token, authenticated_user, require_auth}
use smtp_store.Webui.Files.{
  Disk, Info, Entry, human_size, detect_content_type, is_inline_preview_type,
}
use smtp_store.Webui.Pages.{
  RecipientEntry, RecentItem, BrowseEntry, Queries, is_not_exist, list_recipients,
  list_recent_files, sorted_entries,
}

pub data Method : Type 0 where
  get head post other_method : Method

-- The parts of a request that the handlers read: `none` as a form is one that does not parse.
pub record Request : Type 0 where
  pub method : Method
  pub url_path : Text
  pub token : Text
  pub cookie : Option Text
  pub form : Option (Text × Text)
  pub tls : Bool
  pub forwarded_proto : Text

pub data Disposition : Type 0 where
  inline attachment : Disposition

pub data Page : Type 0 where
  dashboard_page : Text → List RecipientEntry → List RecentItem → Page
  browse_page : Text → List Crumb → List BrowseEntry → Page
  text_page : Text → Text → Text → Text → Text → Page
  binary_page : Text → Text → Text → Option Text → Text → Text → Page

pub data Response : Type 0 where
  redirect : Text → Response
  http_error : ℕ → Text → Response
  method_not_allowed : Text → Response
  not_found : Response
  login_page : ℕ → Text → Response
  start_session : Text → ℕ → Bool → Response
  end_session : Bool → Response
  page : Text → Page → Response
  serve_file : Disposition → Text → Text → Text → Response
  serve_asset : Text → Response

pub record App (F : Type 0) : Type 0 where
  pub root_abs : Text
  pub ui_users : Dict Text
  pub session_ttl : ℕ
  pub media_token : Text
  pub keys : Keys
  pub index : Option Queries
  pub disk : Disk F
  pub cwd : Outcome Text
  pub path_unescape : Text → Outcome Text
  pub path_escape : Text → Text

unfoldable pub is_get : Method → Bool
is_get get = true
is_get head = false
is_get post = false
is_get other_method = false

unfoldable pub is_get_or_head : Method → Bool
is_get_or_head get = true
is_get_or_head head = true
is_get_or_head post = false
is_get_or_head other_method = false

unfoldable pub is_post : Method → Bool
is_post get = false
is_post head = false
is_post post = true
is_post other_method = false

abbrev pub login_title : Text
login_title = codes "Invalid username or password."

-- What a failing `os.Stat` answers.
unfoldable pub stat_error : Text → Error → Response
stat_error message e = if is_not_exist e then not_found else http_error 500 message

module _ ⦃u : Unicode⦄ {F : Type 0} (a : App F) where
  abbrev pub resolve : Text → Text → Outcome (Text × Text)
  resolve url_path prefix = resolve_path a.cwd a.root_abs a.path_unescape url_path prefix

  abbrev pub url : Text → Text → Text
  url route rel = route ++ escape_rel_path a.path_escape rel

  unfoldable pub is_secure_request : Request → Bool
  is_secure_request r = if r.tls then true else equal_fold r.forwarded_proto (codes "https")

  -- Serving behind `detectContentType`.
  unfoldable pub serve_as : Disposition → Text → Text → Outcome Text → Response
  serve_as d name abs (err e) = http_error 500 (codes "failed to detect file type")
  serve_as d name abs (ok content_type) = serve_file d name content_type abs

  unfoldable pub serve_stat : Disposition → Text → Text → Outcome Info → Response
  unfolding stat_error serve_as
  serve_stat d refusal abs (err e) = stat_error (codes "failed to stat file") e
  serve_stat d refusal abs (ok info) =
      if info.is_dir
      then http_error 400 refusal
      else serve_as d info.name abs (detect_content_type a.disk abs)

  unfoldable pub serve_resolved : Disposition → Text → Outcome (Text × Text) → Response
  unfolding serve_stat
  serve_resolved d refusal (err e) = http_error 400 (codes "invalid path")
  serve_resolved d refusal (ok (rel, abs)) = serve_stat d refusal abs (a.disk.stat abs)

  -- `handleMedia`.
  unfoldable pub handle_media : Request → Response
  unfolding serve_resolved is_get_or_head
  handle_media r =
      if not (is_get_or_head r.method)
      then method_not_allowed (codes "GET, HEAD")
      else if is_blank a.media_token
      then not_found
      else if not (text_eq r.token a.media_token)
      then http_error 403 (codes "forbidden")
      else serve_resolved inline (codes "directories cannot be served")
          (resolve r.url_path (codes "/media/"))

  -- `handleDownload`.
  unfoldable pub handle_download : Request → Response
  unfolding serve_resolved is_get
  handle_download r =
      if is_get r.method
      then serve_resolved attachment (codes "directories cannot be downloaded")
          (resolve r.url_path (codes "/download/"))
      else method_not_allowed (codes "GET")

  unfoldable pub password_matches : Option Text → Text → Bool
  password_matches none password = false
  password_matches (some stored) password = text_eq stored password

  -- The POST of `handleLogin`, at a time.
  unfoldable pub login_with : ℕ → Bool → Option (Text × Text) → Response
  unfolding password_matches
  login_with now secure none = http_error 400 (codes "invalid form")
  login_with now secure (some (name, password)) =
      let username = to_lower (trim_space name) in
      let expires = (now + a.session_ttl) / 1000000000 in
      if password_matches (lookup username a.ui_users) password
      then start_session (create_session_token a.keys username expires) expires secure
      else login_page 401 login_title

  unfoldable pub handle_login : ℕ → Request → Response
  unfolding login_with is_get is_post is_secure_request
  handle_login now r =
      if is_get r.method
      then login_page 200 []
      else if is_post r.method
      then login_with now (is_secure_request r) r.form
      else method_not_allowed (codes "GET, POST")

  -- `handleLogout`.
  unfoldable pub handle_logout : Request → Response
  unfolding is_post is_secure_request
  handle_logout r =
      if is_post r.method
      then end_session (is_secure_request r)
      else method_not_allowed (codes "POST")

  unfoldable pub dashboard_with :
      Text → Outcome (List RecipientEntry) → Outcome (List RecentItem) → Response
  dashboard_with user (err e) recent = http_error 500 (codes "failed to list recipients")
  dashboard_with user (ok rs) (err e) = http_error 500 (codes "failed to load recent files")
  dashboard_with user (ok rs) (ok fs) = page user (dashboard_page a.root_abs rs fs)

  -- `handleDashboard`.
  unfoldable pub handle_dashboard : Text → Request → Response
  unfolding dashboard_with is_get
  handle_dashboard user r =
      if not (text_eq r.url_path (codes "/"))
      then not_found
      else if not (is_get r.method)
      then method_not_allowed (codes "GET")
      else dashboard_with user (list_recipients a.path_escape a.disk a.root_abs a.index)
          (list_recent_files a.path_escape a.disk a.root_abs 80 a.index)

  -- `handleBrowseRootRedirect`.
  unfoldable pub handle_browse_root_redirect : Request → Response
  handle_browse_root_redirect r =
      if text_eq r.url_path (codes "/browse") then redirect (codes "/browse/") else not_found

  unfoldable pub browse_dir : Text → Text → Text → Outcome (List Entry) → Response
  browse_dir user rel abs (err e) = http_error 500 (codes "failed to read directory")
  browse_dir user rel abs (ok es) = page user (
      browse_page rel (breadcrumbs a.path_escape rel)
        (sorted_entries a.path_escape a.disk a.root_abs rel abs es))

  unfoldable pub browse_stat : Text → Text → Text → Outcome Info → Response
  unfolding stat_error browse_dir
  browse_stat user rel abs (err e) = stat_error (codes "failed to stat path") e
  browse_stat user rel abs (ok info) =
      if info.is_dir
      then browse_dir user rel abs (a.disk.read_dir abs)
      else redirect (url (codes "/view/") rel)

  unfoldable pub browse_resolved : Text → Outcome (Text × Text) → Response
  unfolding browse_stat
  browse_resolved user (err e) = http_error 400 (codes "invalid path")
  browse_resolved user (ok (rel, abs)) = browse_stat user rel abs (a.disk.stat abs)

  -- `handleBrowse`.
  unfoldable pub handle_browse : Text → Request → Response
  unfolding browse_resolved is_get
  handle_browse user r =
      if is_get r.method
      then browse_resolved user (resolve r.url_path (codes "/browse/"))
      else method_not_allowed (codes "GET")

  unfoldable pub view_text : Text → Text → Text → Info → Outcome Text → Response
  view_text user rel name info (err e) = http_error 500 (codes "failed to read text body")
  view_text user rel name info (ok body) =
      page user
        (text_page name rel body (a.disk.format_time info.modified) (url (codes "/download/") rel))

  unfoldable pub view_typed : Text → Text → Text → Text → Info → Outcome Text → Response
  view_typed user rel abs name info (err e) = http_error 500 (codes "failed to detect file type")
  view_typed user rel abs name info (ok content_type) =
      if is_inline_preview_type content_type
      then serve_file inline name content_type abs
      else page user (
          binary_page name rel content_type (human_size a.disk.format_tenth info.size)
            (a.disk.format_time info.modified) (url (codes "/download/") rel))

  unfoldable pub view_stat : Text → Text → Text → Outcome Info → Response
  unfolding stat_error view_text view_typed
  view_stat user rel abs (err e) = stat_error (codes "failed to stat file") e
  view_stat user rel abs (ok info) =
      let name = base_name abs in
      if info.is_dir
      then redirect (url (codes "/browse/") rel)
      else if equal_fold (ext name) (codes ".txt")
      then view_text user rel name info (a.disk.read_file abs)
      else view_typed user rel abs name info (detect_content_type a.disk abs)

  unfoldable pub view_resolved : Text → Outcome (Text × Text) → Response
  unfolding view_stat
  view_resolved user (err e) = http_error 400 (codes "invalid path")
  view_resolved user (ok (rel, abs)) =
      if text_eq rel []
      then redirect (codes "/browse/")
      else view_stat user rel abs (a.disk.stat abs)

  -- `handleView`.
  unfoldable pub handle_view : Text → Request → Response
  unfolding view_resolved is_get
  handle_view user r =
      if is_get r.method
      then view_resolved user (resolve r.url_path (codes "/view/"))
      else method_not_allowed (codes "GET")

  -- The handlers that need a user, by the longest pattern of the mux that fits the path.
  unfoldable pub route_user : Text → Request → Response
  unfolding handle_logout handle_browse handle_browse_root_redirect handle_view handle_download
      handle_dashboard
  route_user user r =
      if text_eq r.url_path (codes "/logout")
      then handle_logout r
      else if has_prefix r.url_path (codes "/browse/")
      then handle_browse user r
      else if text_eq r.url_path (codes "/browse")
      then handle_browse_root_redirect r
      else if has_prefix r.url_path (codes "/view/")
      then handle_view user r
      else if has_prefix r.url_path (codes "/download/")
      then handle_download r
      else handle_dashboard user r

  -- The routes of `NewHandlerWithIndex`, on the clean paths that the mux passes on.
  unfoldable pub route : ℕ → Request → Response
  unfolding handle_login handle_media route_user require_auth
  route now r =
      if text_eq r.url_path (codes "/login")
      then handle_login now r
      else if has_prefix r.url_path (codes "/media/")
      then handle_media r
      else if has_prefix r.url_path (codes "/static/")
      then serve_asset (trim_prefix r.url_path (codes "/static/"))
      else require_auth (redirect (codes "/login")) (λ user. route_user user r)
          (authenticated_user a.keys now a.ui_users r.cookie)
