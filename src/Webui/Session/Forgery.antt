-- ===== src/Webui/Session/Forgery.antt =====
-- What an accepted token proves, and which names cannot hold a session.
use smtp_store.Base.{
  ℕ, ◌+◌, ◌≤◌, ◌≡◌, ◌≢◌, refl, sym, ap, ◌∙◌, Bool, true, false, Option, none, some, List, [], ◌∷◌,
  ◌++◌, Text, Unicode, text_eq, trim_space, to_lower, arith, length, if◌then◌else◌,
}
use smtp_store.Base.Int.{ℤ}
use smtp_store.Base.Strings.Equality.{text_eq_sound}
use smtp_store.Base.Strings.Split.{split, put_first, split-ne-nil}
use smtp_store.Base.Strings.Hex.{hex, unhex}
use smtp_store.Base.Strings.Decimal.{decimal}
use smtp_store.Base.Strings.Number.{parse_int}
use smtp_store.Webui.Session.{
  Keys, bar, is_after, signed_payload, payload_of, create_session_token, verify_signature,
  verify_expiry, verify_parts, verify_decoded, verify_session_token,
}
use smtp_store.Webui.Session.Laws.{IsLawful}

module _ (k : Keys) ⦃u : Unicode⦄ (now : ℕ) where
  -- The server signed this name and this second, which is not over, and the user is that name.
  abbrev pub IsSigned : Text → Text → Text → Text → Type 0
  IsSigned user username expires signature =
      (seconds : ℤ) × (parse_int expires ≡ some seconds)
      × (is_after now seconds ≡ false)
      × (unhex signature ≡ some (k.sign (payload_of k username expires)))
      × (user ≡ to_lower (trim_space username))

  verify_signature-eq-some :
      (username expires : Text) (o : Option Text) {user : Text}
      → verify_signature k now username expires o ≡ some user
      → (o ≡ some (k.sign (payload_of k username expires)))
        × (user ≡ to_lower (trim_space username))
  unfolding verify_signature
  verify_signature-eq-some username expires none h = cc
  verify_signature-eq-some username expires (some provided) {user} h =
      by_test (text_eq (k.sign (payload_of k username expires)) provided) refl h
    where
      by_test :
          (b : Bool)
          → text_eq (k.sign (payload_of k username expires)) provided ≡ b
          → (if b then some (to_lower (trim_space username)) else none) ≡ some user
          → (some provided ≡ some (k.sign (payload_of k username expires)))
            × (user ≡ to_lower (trim_space username))
      by_test true e r = (ap some (sym (text_eq_sound _ _ e)), cc)
      by_test false e r = cc

  verify_expiry-eq-some :
      (username expires signature : Text) (o : Option ℤ) {user : Text}
      → parse_int expires ≡ o
      → verify_expiry k now username expires signature o ≡ some user
      → IsSigned user username expires signature
  unfolding verify_expiry
  verify_expiry-eq-some username expires signature none p h = cc
  verify_expiry-eq-some username expires signature (some seconds) {user} p h =
      by_test (is_after now seconds) refl h
    where
      by_test :
          (b : Bool)
          → is_after now seconds ≡ b
          → (if b then none else verify_signature k now username expires (unhex signature))
            ≡ some user
          → IsSigned user username expires signature
      by_test true e r = cc
      by_test false e r =
          let (signed, named) = verify_signature-eq-some username expires (unhex signature) r in
          (seconds, p, e, signed, named)

  verify_parts-eq-some :
      (parts : List Text) {user : Text}
      → verify_parts k now parts ≡ some user
      → (username expires signature : Text) × (parts ≡ username ∷ expires ∷ signature ∷ [])
        × IsSigned user username expires signature
  unfolding verify_parts
  verify_parts-eq-some [] h = cc
  verify_parts-eq-some (username ∷ []) h = cc
  verify_parts-eq-some (username ∷ expires ∷ []) h = cc
  verify_parts-eq-some (username ∷ expires ∷ signature ∷ []) h = (
    username,
    expires,
    signature,
    refl,
    verify_expiry-eq-some username expires signature (parse_int expires) refl h,
  )
  verify_parts-eq-some (username ∷ expires ∷ signature ∷ more ∷ rest) h = cc

  verify_decoded-eq-some :
      (o : Option Text) {user : Text}
      → verify_decoded k now o ≡ some user
      → (decoded username expires signature : Text) × (o ≡ some decoded)
        × (split bar decoded ≡ username ∷ expires ∷ signature ∷ [])
        × IsSigned user username expires signature
  unfolding verify_decoded
  verify_decoded-eq-some none h = cc
  verify_decoded-eq-some (some decoded) h =
      let (username, expires, signature, parts, signed) =
        verify_parts-eq-some (split bar decoded) h in
      (decoded, username, expires, signature, refl, parts, signed)

  -- A token that is accepted decodes to three parts, the last of which is the signature under the
  -- server's secret of the other two: a name, which is the user's but for case and outer space, and a
  -- second that is not over.
  pub verify_session_token-IsSigned :
      (token user : Text)
      → verify_session_token k now token ≡ some user
      → (decoded username expires signature : Text) × (k.decode token ≡ some decoded)
        × (split bar decoded ≡ username ∷ expires ∷ signature ∷ [])
        × IsSigned user username expires signature
  unfolding verify_session_token
  verify_session_token-IsSigned token user h = verify_decoded-eq-some (k.decode token) h

length-put_first : (c : ℕ) (ps : List Text) → ps ≢ [] → length (put_first c ps) ≡ length ps
unfolding put_first
length-put_first c [] h = absurd (h refl)
length-put_first c (p ∷ ps) h = refl

length-split-append :
    (sep : ℕ) (s t : Text)
    → length (split sep (s ++ sep ∷ t)) ≡ length (split sep s) + length (split sep t)
unfolding split
length-split-append sep [] t = ground arith
length-split-append sep (c ∷ s) t = ground (
  arith,
  length-split-append sep s t,
  length-put_first c (split sep s) (split-ne-nil sep s),
  length-put_first c (split sep (s ++ sep ∷ t)) (split-ne-nil sep (s ++ sep ∷ t)),
)

length-split-le : (sep : ℕ) (s : Text) → 1 ≤ length (split sep s)
unfolding split
length-split-le sep [] = omega arith
length-split-le sep (c ∷ s) =
    ground (arith, length-split-le sep s, length-put_first c (split sep s) (split-ne-nil sep s))

module _ (k : Keys) (L : IsLawful k) ⦃u : Unicode⦄ (now : ℕ) where
  verify_parts_long : (parts : List Text) → 4 ≤ length parts → verify_parts k now parts ≡ none
  unfolding verify_parts
  verify_parts_long [] h = absurd (omega arith)
  verify_parts_long (a ∷ []) h = absurd (omega arith)
  verify_parts_long (a ∷ b ∷ []) h = absurd (omega arith)
  verify_parts_long (a ∷ b ∷ c ∷ []) h = absurd (omega arith)
  verify_parts_long (a ∷ b ∷ c ∷ d ∷ rest) h = refl

  -- The token that is created for a name with a `|` is refused at any time.
  pub verify_session_token-bar :
      (before after : Text) (expires : ℕ)
      → verify_session_token k now (create_session_token k (before ++ bar ∷ after) expires) ≡ none
  unfolding verify_session_token verify_decoded create_session_token signed_payload
  verify_session_token-bar before after expires =
      let name = before ++ bar ∷ after in
      let payload = payload_of k name (decimal expires) in
      let signature = hex (k.sign payload) in
      ap (verify_decoded k now) (L.decode-encode _)
      ∙ verify_parts_long (split bar (payload ++ bar ∷ signature)) (
          omega (
            arith,
            length-split-append bar payload signature,
            length-split-append bar name (decimal expires),
            length-split-append bar before after,
            length-split-le bar before,
            length-split-le bar after,
            length-split-le bar (decimal expires),
            length-split-le bar signature,
          ))
