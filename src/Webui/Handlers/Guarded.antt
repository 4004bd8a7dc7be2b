-- ===== src/Webui/Handlers/Guarded.antt =====
-- Nobody sees stored content without a session or the media token, and nothing outside the root.
use smtp_store.Base.{
  ℕ, ◌≡◌, refl, Bool, true, false, not, ◌⊎◌, inl, inr, Option, none, some, [], Text, codes, Unicode,
  text_eq, has_prefix, trim_prefix, is_blank, arith, if◌then◌else◌,
}
use smtp_store.Base.Strings.Equality.{text_eq_sound}
use smtp_store.Webui.Session.{authenticated_user, require_auth}
use smtp_store.Webui.Handlers.{
  Request, Response, redirect, http_error, method_not_allowed, not_found, login_page, start_session,
  end_session, page, serve_file, serve_asset, App, is_get_or_head, handle_media, handle_login,
  login_with, serve_resolved, route_user, route, is_get, is_post, is_secure_request, resolve,
  inline,
}

-- A page with stored content, or a stored file.
unfoldable pub is_content : Response → Bool
is_content (redirect t) = false
is_content (http_error n t) = false
is_content (method_not_allowed t) = false
is_content not_found = false
is_content (login_page n t) = false
is_content (start_session t n b) = false
is_content (end_session b) = false
is_content (page user p) = true
is_content (serve_file d name t p) = true
is_content (serve_asset t) = false

module _ ⦃u : Unicode⦄ {F : Type 0} (a : App F) where
  -- The request has a session of a user, or the media token for a path of `/media/`.
  abbrev pub IsAllowed : ℕ → Request → Type 0
  IsAllowed now r =
      ((user : Text) × (authenticated_user a.keys now a.ui_users r.cookie ≡ some user))
      ⊎ ((has_prefix r.url_path (codes "/media/") ≡ true)
          × (is_get_or_head r.method ≡ true)
          × (is_blank a.media_token ≡ false)
          × (r.token ≡ a.media_token))

  login_with-is_content :
      (now : ℕ) (secure : Bool) (form : Option (Text × Text))
      → is_content (login_with a now secure form) ≡ false
  unfolding login_with is_content
  login_with-is_content now secure none = refl
  login_with-is_content now secure (some (name, password)) = ground arith

  handle_login-is_content : (now : ℕ) (r : Request) → is_content (handle_login a now r) ≡ false
  unfolding handle_login is_content
  handle_login-is_content now r = by_tests (is_get r.method) (is_post r.method)
    where
      by_tests :
          (g p : Bool)
          → is_content (
              if◌then◌else◌ {A = Response} g (login_page 200 []) (
                if p
                then login_with a now (is_secure_request a r) r.form
                else method_not_allowed (codes "GET, POST")))
            ≡ false
      by_tests true p = refl
      by_tests false true = login_with-is_content now (is_secure_request a r) r.form
      by_tests false false = refl

  handle_media-is_content :
      (r : Request)
      → is_content (handle_media a r) ≡ true
      → (is_get_or_head r.method ≡ true)
        × (is_blank a.media_token ≡ false)
        × (r.token ≡ a.media_token)
  unfolding handle_media is_content
  handle_media-is_content r h =
      by_tests (is_get_or_head r.method) (is_blank a.media_token) (text_eq r.token a.media_token)
        refl refl refl h
    where
      by_tests :
          (m b t : Bool)
          → is_get_or_head r.method ≡ m
          → is_blank a.media_token ≡ b
          → text_eq r.token a.media_token ≡ t
          → is_content (
              if not m
              then method_not_allowed (codes "GET, HEAD")
              else if b
              then not_found
              else if not t
              then http_error 403 (codes "forbidden")
              else serve_resolved a inline
                  (codes "directories cannot be served")
                  (resolve a r.url_path (codes "/media/")))
            ≡ true
          → (is_get_or_head r.method ≡ true)
            × (is_blank a.media_token ≡ false)
            × (r.token ≡ a.media_token)
      by_tests false b t p q s k = cc
      by_tests true true t p q s k = cc
      by_tests true false false p q s k = cc
      by_tests true false true p q s k = (p, q, text_eq_sound _ _ s)

  require_auth-is_content :
      (r : Request) (o : Option Text)
      → is_content (require_auth (redirect (codes "/login")) (λ user. route_user a user r) o) ≡ true
      → (user : Text) × (o ≡ some user)
  unfolding require_auth is_content
  require_auth-is_content r none h = cc
  require_auth-is_content r (some user) h = (user, refl)

  -- A response with stored content, be it a page or a file, goes to a request that bears a session of
  -- one of the users, or to a GET or HEAD below `/media/` with the media token, where one is set.
  pub route-IsAllowed :
      (now : ℕ) (r : Request) → is_content (route a now r) ≡ true → IsAllowed now r
  unfolding route is_content
  route-IsAllowed now r h =
      by_tests (text_eq r.url_path (codes "/login")) (has_prefix r.url_path (codes "/media/"))
        (has_prefix r.url_path (codes "/static/")) refl h
    where
      by_tests :
          (l m s : Bool)
          → has_prefix r.url_path (codes "/media/") ≡ m
          → is_content (
              if l
              then handle_login a now r
              else if m
              then handle_media a r
              else if s
              then serve_asset (trim_prefix r.url_path (codes "/static/"))
              else require_auth
                  (redirect (codes "/login"))
                  (λ user. route_user a user r)
                  (authenticated_user a.keys now a.ui_users r.cookie))
            ≡ true
          → IsAllowed now r
      by_tests true m s p k = cc (handle_login-is_content now r)
      by_tests false true s p k = let (m, t, e) = handle_media-is_content r k in inr (p, m, t, e)
      by_tests false false true p k = cc
      by_tests false false false p k = inl (require_auth-is_content r _ k)
