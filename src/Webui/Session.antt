-- ===== src/Webui/Session.antt =====
-- Sessions of internal/webui/server.go: `createSessionToken`, `verifySessionToken`, `sign`,
-- `authenticatedUser` and `requireAuth`. HMAC with the session secret and base64 are parameters. A
-- time is its nanosecond, from 1970 on.
pub mod Laws
pub mod Forgery
use smtp_store.Base.{
  ℕ, ◌+◌, ◌*◌, ◌/◌, Bool, true, false, Option, none, some, List, [], ◌∷◌, ◌++◌, Text, codes,
  Unicode, text_eq, trim_space, to_lower, ltb, if◌then◌else◌,
}
use smtp_store.Base.Int.{ℤ, pos, negsuc}
use smtp_store.Base.Strings.Split.{split}
use smtp_store.Base.Strings.Decimal.{decimal}
use smtp_store.Base.Strings.Hex.{hex, unhex}
use smtp_store.Base.Strings.Number.{parse_int}
use smtp_store.Base.Dict.{Dict, lookup}

abbrev pub bar : ℕ
bar = b'|'

-- `sign`, `base64.RawURLEncoding` and the session's users.
pub record Keys : Type 0 where
  pub sign : Text → Text
  pub encode : Text → Text
  pub decode : Text → Option Text

-- What `time.Now().After(time.Unix(expires, 0))` says.
unfoldable pub is_after : ℕ → ℤ → Bool
is_after now (negsuc n) = true
is_after now (pos n) = ltb (n * 1000000000) now

module _ (k : Keys) where
  unfoldable pub signed_payload : Text → Text
  signed_payload payload = payload ++ bar ∷ hex (k.sign payload)

  abbrev pub payload_of : Text → Text → Text
  payload_of username expires = username ++ bar ∷ expires

  -- `createSessionToken`, with the second of expiry.
  unfoldable pub create_session_token : Text → ℕ → Text
  unfolding signed_payload
  create_session_token username expires =
      k.encode (signed_payload (payload_of username (decimal expires)))

  module _ ⦃u : Unicode⦄ (now : ℕ) where
    -- The last two checks of `verifySessionToken`.
    unfoldable pub verify_signature : Text → Text → Option Text → Option Text
    verify_signature username expires none = none
    verify_signature username expires (some provided) =
        if text_eq (k.sign (payload_of username expires)) provided
        then some (to_lower (trim_space username))
        else none

    unfoldable pub verify_expiry : Text → Text → Text → Option ℤ → Option Text
    unfolding is_after verify_signature
    verify_expiry username expires signature none = none
    verify_expiry username expires signature (some seconds) =
        if is_after now seconds then none else verify_signature username expires (unhex signature)

    -- A token has three parts.
    unfoldable pub verify_parts : List Text → Option Text
    unfolding verify_expiry
    verify_parts [] = none
    verify_parts (username ∷ []) = none
    verify_parts (username ∷ expires ∷ []) = none
    verify_parts (username ∷ expires ∷ signature ∷ []) =
        verify_expiry username expires signature (parse_int expires)
    verify_parts (username ∷ expires ∷ signature ∷ more ∷ rest) = none

    unfoldable pub verify_decoded : Option Text → Option Text
    unfolding verify_parts
    verify_decoded none = none
    verify_decoded (some decoded) = verify_parts (split bar decoded)

    -- `verifySessionToken`; `none` is any of its errors.
    unfoldable pub verify_session_token : Text → Option Text
    unfolding verify_decoded
    verify_session_token token = verify_decoded (k.decode token)

    unfoldable pub known_user : Dict Text → Option Text → Option Text
    known_user users none = none
    known_user users (some username) = elim (lookup username users) [
      | none ↦ none
      | some password ↦ some username
    ]

    -- `authenticatedUser`, on the cookie's value, if the request has one.
    unfoldable pub authenticated_user : Dict Text → Option Text → Option Text
    unfolding known_user verify_session_token
    authenticated_user users none = none
    authenticated_user users (some cookie) = known_user users (verify_session_token cookie)

-- `requireAuth`: the handler behind it runs with the user's name, or not at all.
unfoldable pub require_auth : {R : Type 0} → R → (Text → R) → Option Text → R
require_auth to_login next none = to_login
require_auth to_login next (some user) = next user
