-- ===== src/Mqtt/Cameras/Collide.antt =====
-- Users whose names become the same object identifier, in `NewWithClient` of
-- internal/mqttnotify/publisher.go.
use smtp_store.Base.{ℕ, false, List, [], ◌∷◌, ◌++◌, ◌≡◌, refl, arith, Text, codes, Unicode, text_eq}
use smtp_store.Base.Dict.{lookup, insert}
use smtp_store.Base.Strings.Equality.{text_eq_refl}
use smtp_store.Base.Strings.Decimal.{decimal}
use smtp_store.Config.{UserCreds}
use smtp_store.Mqtt.Names.{sanitize_object_id}
use smtp_store.Mqtt.Cameras.{Camera, count_seen, numbered, normal_name, cameras_from}

abbrev pub object_ids : List Camera → List Text
object_ids [] = []
object_ids (c ∷ cs) = c.object_id ∷ object_ids cs

-- A number behind makes a text another one.
longer-ne : (s t : Text) (d : ℕ) → text_eq s (s ++ (d ∷ t)) ≡ false
unfolding text_eq
longer-ne [] t d = refl
longer-ne (c ∷ s) t d = ground (arith, longer-ne s t d)

decimal_two : decimal 2 ≡ codes "2"
decimal_two = unfold decimal in refl

module _ ⦃u : Unicode⦄ where
  -- Three users whose names, trimmed and in lower case, are not empty and have one object identifier:
  -- the second and the third camera get the same identifier, the common one with `_2` behind.
  pub cameras_from-collide :
      (a b c : UserCreds) (base : Text)
      → text_eq (normal_name a.username) [] ≡ false
      → text_eq (normal_name b.username) [] ≡ false
      → text_eq (normal_name c.username) [] ≡ false
      → sanitize_object_id (normal_name a.username) ≡ base
      → sanitize_object_id (normal_name b.username) ≡ base
      → sanitize_object_id (normal_name c.username) ≡ base
      → object_ids (cameras_from [] (a ∷ b ∷ c ∷ []))
        ≡ base ∷ (base ++ codes "_2") ∷ (base ++ codes "_2") ∷ []
  unfolding cameras_from count_seen numbered lookup insert
  cameras_from-collide a b c base ha hb hc ea eb ec =
      rw (ha, hb, hc, ea, eb, ec, text_eq_refl base, decimal_two, longer-ne base (codes "2") b'_')
        (rw (text_eq_refl base, decimal_two) refl)
