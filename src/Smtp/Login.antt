-- ===== src/Smtp/Login.antt =====
-- `loginServer` of internal/smtpserver/login_auth.go: the LOGIN mechanism as a machine of steps.
use smtp_store.Base.{
  ℕ, zero, suc, Option, none, some, List, [], ◌∷◌, ◌≡◌, ◌≢◌, refl, ap, Text, codes, text_eq,
  if◌then◌else◌,
}
use smtp_store.Smtp.Session.{Reply, accepted, smtp_error, auth_failed, unknown_mechanism}

-- The answer of `Next`: a challenge, the end with what the check answered, or the library's error.
pub data Answer : Type 0 where
  challenge : Text → Answer
  finished : Answer
  refused : Reply → Answer
  unexpected : Answer

pub record LoginServer : Type 0 where
  pub step : ℕ
  pub user : Text

abbrev pub new_login_server : LoginServer
new_login_server = record { step = 0; user = [] }

-- A response that is nil reads as an empty string.
abbrev pub text_of : Option Text → Text
text_of none = []
text_of (some t) = t

module _ {S : Type 0} (auth : Text → Text → S → Reply × S) where
  unfoldable pub checked : LoginServer → Reply × S → Answer × LoginServer × S
  checked l (accepted, s) = (finished, l, s)
  checked l (reply, s) = (refused reply, l, s)

  unfoldable pub first : LoginServer → Option Text → S → Answer × LoginServer × S
  first l none s = (challenge (codes "Username:"), record l { step = 1 }, s)
  first l (some name) s = (challenge (codes "Password:"), record { step = 1; user = name }, s)

  unfoldable pub second : LoginServer → Text → S → Answer × LoginServer × S
  unfolding checked text_eq
  second l response s =
      let check = checked (record l { step = 2 }) (auth l.user response s) in
      if text_eq l.user []
      then (challenge (codes "Password:"), record { step = 2; user = response }, s)
      else check

  unfoldable pub next_at : LoginServer → ℕ → Option Text → S → Answer × LoginServer × S
  unfolding first second checked
  next_at l zero response s = first l response s
  next_at l (suc zero) response s = second l (text_of response) s
  next_at l (suc (suc zero)) response s =
      checked (record l { step = 3 }) (auth l.user (text_of response) s)
  next_at l (suc (suc (suc n))) response s = (unexpected, l, s)

  -- `Next`.
  unfoldable pub next : LoginServer → Option Text → S → Answer × LoginServer × S
  unfolding next_at
  next l response s = next_at l l.step response s

  -- The answers to responses that come one after another.
  pub run : List (Option Text) → LoginServer → S → List Answer × S
  unfolding next
  run [] l s = ([], s)
  run (response ∷ responses) l s =
      let (answer, l', s') = next l response s in
      let (answers, end) = run responses l' s' in (answer ∷ answers, end)

  -- What the end of a conversation says of the check.
  pub verdict : Reply → Answer
  verdict accepted = finished
  verdict reply = refused reply

  checked-verdict : (l : LoginServer) (o : Reply × S) → checked l o ≡ (verdict o.0, l, o.1)
  unfolding checked verdict
  checked-verdict l (accepted, s) = refl
  checked-verdict l (smtp_error n m, s) = refl
  checked-verdict l (auth_failed, s) = refl
  checked-verdict l (unknown_mechanism, s) = refl

  -- With a name that is not empty, both ways to begin a LOGIN, with and without the name as initial
  -- response, ask for what is missing and then check the name and the password once.
  pub run-verdict :
      (user password : Text) (s : S)
      → user ≢ []
      → (run (none ∷ some user ∷ some password ∷ []) new_login_server s ≡ (
        challenge (codes "Username:")
            ∷ challenge (codes "Password:")
            ∷ verdict (auth user password s).0
            ∷ [],
        (auth user password s).1,
      ))
        × (run (some user ∷ some password ∷ []) new_login_server s ≡ (
          challenge (codes "Password:") ∷ verdict (auth user password s).0 ∷ [],
          (auth user password s).1,
        ))
  unfolding run
  run-verdict [] password s h = absurd (h refl)
  run-verdict (c ∷ user) password s h = (
    ap (λ r. (challenge (codes "Username:") ∷ challenge (codes "Password:") ∷ r.0 ∷ [], r.2))
        (checked-verdict (record { step = 3; user = c ∷ user }) (auth (c ∷ user) password s)),
    ap (λ r. (challenge (codes "Password:") ∷ r.0 ∷ [], r.2))
        (checked-verdict (record { step = 2; user = c ∷ user }) (auth (c ∷ user) password s)),
  )
