-- ===== src/Webui/Handlers/Login.antt =====
-- What a login that goes well opens: a session that later requests can use, unless the name holds a
-- `|`.
use smtp_store.Base.{
  ℕ, ◌+◌, ◌*◌, ◌/◌, ◌≤◌, ◌<◌, ◌^◌, ◌≡◌, refl, ap, ◌∙◌, Bool, true, Option, none, some, ◌∷◌, ◌++◌,
  Text, Unicode, trim_space, to_lower, arith,
}
use smtp_store.Base.Strings.Equality.{text_eq_refl}
use smtp_store.Base.Strings.Split.{Lacks}
use smtp_store.Base.Dict.{lookup}
use smtp_store.Webui.Session.{
  bar, create_session_token, verify_session_token, authenticated_user, known_user,
}
use smtp_store.Webui.Session.Laws.{IsLawful, verify_session_token-create}
use smtp_store.Webui.Session.Forgery.{verify_session_token-bar}
use smtp_store.Webui.Handlers.{App, start_session, login_with, password_matches}

module _ ⦃u : Unicode⦄ {F : Type 0} (a : App F) where
  password_matches_self :
      (o : Option Text) (password : Text) → o ≡ some password → password_matches a o password ≡ true
  unfolding password_matches
  password_matches_self none password h = cc
  password_matches_self (some stored) password h = ground (arith, text_eq_refl stored)

  known_user_self :
      (username password : Text) (now : ℕ)
      → lookup username a.ui_users ≡ some password
      → known_user a.keys now a.ui_users (some username) ≡ some username
  unfolding known_user
  known_user_self username password now h = rw (h, known_user) refl

  -- A POST with a user's name, in any case and with outer spaces, and the stored password answers with
  -- a cookie that authenticates this user until the second of expiry is over. The user's key is its
  -- own lower-case trimmed form and holds no `|`, and the second fits 64 bits.
  pub login_with-authenticated_user :
      (now later : ℕ) (secure : Bool) (name password : Text)
      → IsLawful a.keys
      → lookup (to_lower (trim_space name)) a.ui_users ≡ some password
      → Lacks bar (to_lower (trim_space name))
      → to_lower (trim_space (to_lower (trim_space name))) ≡ to_lower (trim_space name)
      → (now + a.session_ttl) / 1000000000 < 2 ^ 63
      → later ≤ (now + a.session_ttl) / 1000000000 * 1000000000
      → (token : Text) × (login_with a now secure (some (name, password))
          ≡ start_session token ((now + a.session_ttl) / 1000000000) secure)
        × (authenticated_user a.keys later a.ui_users (some token)
            ≡ some (to_lower (trim_space name)))
  unfolding login_with authenticated_user
  login_with-authenticated_user now later secure name password L there lacks same small fresh =
      let username = to_lower (trim_space name) in
      let expires = (now + a.session_ttl) / 1000000000 in
      (
        create_session_token a.keys username expires,
        rw (password_matches_self (lookup username a.ui_users) password there) refl,
        ap (known_user a.keys later a.ui_users) (
              verify_session_token-create a.keys L later username expires lacks small fresh
              ∙ ap some same)
            ∙ known_user_self username password later there,
      )

  -- A POST with the name of a user that holds a `|` and the stored password is answered with a cookie,
  -- as if the login had gone well, but no later request that bears it is authenticated, at any time.
  pub login_with-bar :
      (now : ℕ) (secure : Bool) (name password before after : Text)
      → IsLawful a.keys
      → to_lower (trim_space name) ≡ before ++ bar ∷ after
      → lookup (to_lower (trim_space name)) a.ui_users ≡ some password
      → (token : Text) × (login_with a now secure (some (name, password))
          ≡ start_session token ((now + a.session_ttl) / 1000000000) secure)
        × ((later : ℕ) → authenticated_user a.keys later a.ui_users (some token) ≡ none)
  unfolding login_with authenticated_user known_user
  login_with-bar now secure name password before after L bars there =
      let username = to_lower (trim_space name) in
      let expires = (now + a.session_ttl) / 1000000000 in
      (
        create_session_token a.keys username expires,
        rw (password_matches_self (lookup username a.ui_users) password there) refl,
        λ later. ap (known_user a.keys later a.ui_users) (
            ap (λ n. verify_session_token a.keys later (create_session_token a.keys n expires)) bars
            ∙ verify_session_token-bar a.keys L later before after expires),
      )
