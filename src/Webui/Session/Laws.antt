-- ===== src/Webui/Session/Laws.antt =====
-- A session lasts until it expires, and nobody has one without a signature of the server.
use smtp_store.Base.{
  ℕ, ◌*◌, ◌≤◌, ◌<◌, ◌^◌, ◌≡◌, refl, ap, ◌∙◌, false, some, [], ◌∷◌, ◌++◌, Text, Unicode, All,
  trim_space, to_lower, ltb, arith, append_assoc,
}
use smtp_store.Base.Strings.Equality.{text_eq_refl}
use smtp_store.Base.Strings.Split.{split, Lacks}
use smtp_store.Base.Strings.Decimal.{decimal, decimal-IsDecimal, IsDecimal}
use smtp_store.Base.Strings.Hex.{hex, hex_digit, unhex, unhex-hex}
use smtp_store.Base.Strings.Number.{parse_int, parse_int-decimal}
use smtp_store.Base.Strings.FilePath.Plain.{split-plain}
use smtp_store.Base.Strings.FilePath.Clean.{split-part}
use smtp_store.Webui.Session.{
  Keys, bar, is_after, signed_payload, payload_of, create_session_token, verify_signature,
  verify_expiry, verify_parts, verify_decoded, verify_session_token,
}

-- What base64 and HMAC document: a text is decoded to what was encoded, and a digest is of bytes.
pub record IsLawful (k : Keys) : Type 0 where
  pub decode-encode : (s : Text) → k.decode (k.encode s) ≡ some s
  pub bytes : (s : Text) → All (λ b. b < 256) (k.sign s)

hex-Lacks : (s : Text) → All (λ b. b < 256) s → Lacks bar (hex s)
unfolding hex hex_digit
hex-Lacks [] h = tt
hex-Lacks (b ∷ s) h = (ground (arith, h.0), (ground (arith, h.0), hex-Lacks s h.1))

decimal-Lacks : (n : ℕ) → Lacks bar (decimal n)
decimal-Lacks n = by_digits (decimal n) (decimal-IsDecimal n)
  where
    by_digits : (s : Text) → All IsDecimal s → Lacks bar s
    by_digits [] h = tt
    by_digits (c ∷ s) h = (ground (arith, h.0), by_digits s h.1)

module _ (k : Keys) (L : IsLawful k) where
  split-signed :
      (username : Text) (expires : ℕ)
      → Lacks bar username
      → split bar (signed_payload k (payload_of k username (decimal expires)))
        ≡ username ∷ decimal expires ∷ hex (k.sign (payload_of k username (decimal expires))) ∷ []
  unfolding signed_payload
  split-signed username expires h =
      let digest = k.sign (payload_of k username (decimal expires)) in
      ap (split bar) (append_assoc username (bar ∷ decimal expires) (bar ∷ hex digest))
      ∙ (split-part bar username (decimal expires ++ bar ∷ hex digest) h
          ∙ ap (λ ps. username ∷ ps)
              (split-part bar (decimal expires) (hex digest) (decimal-Lacks expires)
                ∙ ap (λ ps. decimal expires ∷ ps)
                    (split-plain bar (hex digest) (hex-Lacks digest (L.bytes _)))))

  module _ ⦃u : Unicode⦄ (now : ℕ) where
    verify_signature_self :
        (username : Text) (expires : ℕ)
        → verify_signature k now username
            (decimal expires)
            (unhex (hex (k.sign (payload_of k username (decimal expires)))))
          ≡ some (to_lower (trim_space username))
    unfolding verify_signature
    verify_signature_self username expires =
        let digest = k.sign (payload_of k username (decimal expires)) in
        ap (verify_signature k now username (decimal expires)) (unhex-hex digest (L.bytes _))
        ∙ rw (text_eq_refl digest) refl

    verify_expiry_self :
        (username : Text) (expires : ℕ)
        → expires < 2 ^ 63
        → now ≤ expires * 1000000000
        → verify_expiry k now username
            (decimal expires)
            (hex (k.sign (payload_of k username (decimal expires))))
            (parse_int (decimal expires))
          ≡ some (to_lower (trim_space username))
    unfolding verify_expiry is_after
    verify_expiry_self username expires small fresh =
        let early : ltb (expires * 1000000000) now ≡ false = ground arith in
        ap
          (verify_expiry k now username (decimal expires)
            (hex (k.sign (payload_of k username (decimal expires)))))
          (parse_int-decimal expires small)
        ∙ rw early (verify_signature_self username expires)

    -- The token of a login is accepted until its second of expiry is over, as that of the user's
    -- lower-case trimmed name; the name holds no `|`, and the second fits 64 bits.
    pub verify_session_token-create :
        (username : Text) (expires : ℕ)
        → Lacks bar username
        → expires < 2 ^ 63
        → now ≤ expires * 1000000000
        → verify_session_token k now (create_session_token k username expires)
          ≡ some (to_lower (trim_space username))
    unfolding verify_session_token verify_decoded verify_parts create_session_token
    verify_session_token-create username expires h small fresh =
        ap (verify_decoded k now) (L.decode-encode _)
        ∙ (ap (verify_parts k now) (split-signed username expires h)
            ∙ verify_expiry_self username expires small fresh)
