-- ===== src/Config/Laws/Accounts.antt =====
-- A validated user can log in with the password of the file.
use smtp_store.Base.{
  ℕ, ◌+◌, ◌≡◌, refl, ◌∙◌, Bool, true, false, ◌||◌, some, List, [], ◌∷◌, ◌++◌, Text, Unicode,
  is_blank, text_eq, arith,
}
use smtp_store.Base.Strings.Equality.{text_eq_iff}
use smtp_store.Base.Dict.{Dict, lookup, lookup-insert}
use smtp_store.Base.Os.{Outcome, ok, err, fail_if, ◌>>=◌, ◌>>◌}
use smtp_store.Config.{UserCreds}
use smtp_store.Config.Validate.{key_of, is_seen, check_users}
use smtp_store.Config.Users.{add_users}

-- Inversion of a check that went well.
pub >>-eq-ok {ℓ} :
    {B : Type ℓ} (check : Outcome (Unit {0})) (rest : Outcome B) {out : B}
    → (check >> rest) ≡ ok out
    → (check ≡ ok tt) × (rest ≡ ok out)
>>-eq-ok (err failure) rest done = cc
>>-eq-ok (ok tt) rest done = (refl, done)

-- A step with a result that went well has one, and what comes behind it went well on it.
pub >>=-eq-ok {ℓ κ} :
    {A : Type ℓ} {B : Type κ} (step : Outcome A) (rest : A → Outcome B) {out : B}
    → (step >>= rest) ≡ ok out
    → (got : A) × (step ≡ ok got) × (rest got ≡ ok out)
>>=-eq-ok (err failure) rest done = cc
>>=-eq-ok (ok got) rest done = (got, refl, done)

pub fail_if-eq-ok : (b : Bool) (message : Text) → fail_if b message ≡ ok tt → b ≡ false
fail_if-eq-ok true message h = cc
fail_if-eq-ok false message h = refl

module _ ⦃u : Unicode⦄ (label duplicate : Text) where
  -- One round of the loop that goes well.
  check_users-cons :
      (i : ℕ) (seen : List Text) (c : UserCreds) (cs : List UserCreds)
      → check_users label duplicate i seen (c ∷ cs) ≡ ok tt
      → (is_blank c.username ≡ false)
        × (is_blank c.password ≡ false)
        × (is_seen (key_of c.username) seen ≡ false)
        × (check_users label duplicate (i + 1) (key_of c.username ∷ seen) cs ≡ ok tt)
  unfolding check_users
  check_users-cons i seen c cs h =
      let (a, h1) = >>-eq-ok _ _ h in
      let (b, h2) = >>-eq-ok _ _ h1 in
      let (d, h3) = >>-eq-ok _ _ h2 in
      (fail_if-eq-ok _ _ a, fail_if-eq-ok _ _ b, fail_if-eq-ok _ _ d, h3)

  -- Users behind do not touch a key that was seen.
  lookup-add_users_seen :
      (cs : List UserCreds) (i : ℕ) (seen : List Text) (k : Text) (out : Dict Text)
      → check_users label duplicate i seen cs ≡ ok tt
      → is_seen k seen ≡ true
      → lookup k (add_users out cs) ≡ lookup k out
  unfolding add_users
  lookup-add_users_seen [] i seen k out h known = refl
  lookup-add_users_seen (c ∷ cs) i seen k out h known =
      let (_, _, fresh, rest) = check_users-cons i seen c cs h in
      lookup-add_users_seen cs (i + 1) (key_of c.username ∷ seen) k _ rest
        (unfold is_seen in seen_later (text_eq (key_of c.username) k) _ known)
      ∙ ground (
        arith,
        lookup-insert (key_of c.username) k c.password out,
        text_eq_iff (key_of c.username) k,
        fresh,
        known,
      )
    where
      seen_later : (b c' : Bool) → c' ≡ true → (b || c') ≡ true
      seen_later true c' e = refl
      seen_later false c' e = e

  pub lookup-add_users :
      (before : List UserCreds) (c : UserCreds) (after : List UserCreds) (i : ℕ) (seen : List Text)
      (out : Dict Text)
      → check_users label duplicate i seen (before ++ c ∷ after) ≡ ok tt
      → lookup (key_of c.username) (add_users out (before ++ c ∷ after)) ≡ some c.password
  unfolding add_users
  lookup-add_users [] c after i seen out h =
      let (_, _, fresh, rest) = check_users-cons i seen c after h in
      lookup-add_users_seen after (i + 1) (key_of c.username ∷ seen) (key_of c.username) _ rest
        (unfold is_seen in ground (arith, text_eq_iff (key_of c.username) (key_of c.username)))
      ∙ ground (
        arith,
        lookup-insert (key_of c.username) (key_of c.username) c.password out,
        text_eq_iff (key_of c.username) (key_of c.username),
      )
  lookup-add_users (d ∷ before) c after i seen out h =
      let (_, _, fresh, rest) = check_users-cons i seen d (before ++ c ∷ after) h in
      lookup-add_users before c after (i + 1) (key_of d.username ∷ seen) _ rest
