-- ===== src/Mqtt/Publish/Types.antt =====
-- The types of the events that internal/mqttnotify/publisher.go publishes, and those that its discovery
-- documents list.
use smtp_store.Base.{
  Bool, true, false, ◌||◌, List, [], ◌∷◌, ◌≡◌, refl, arith, Text, codes, Unicode, text_eq, to_lower,
  trim_space, All,
}
use smtp_store.Base.Strings.Equality.{text_eq_iff}
use smtp_store.Base.Strings.Split.{join}
use smtp_store.Classify.{Detection, is_one_of}
use smtp_store.Mqtt.Names.{sees, event_name, event_type}
use smtp_store.Mqtt.Publish.{event_types, should_notify}

abbrev pub kinds : List Text
kinds = codes "person" ∷ codes "animal" ∷ codes "vehicle" ∷ []

one_of_trans :
    (s : Text) (ts us : List Text)
    → All (λ t. is_one_of t us ≡ true) ts
    → is_one_of s ts ≡ true
    → is_one_of s us ≡ true
unfolding is_one_of
one_of_trans s [] us h k = cc
one_of_trans s (t ∷ ts) us (h, hs) k = ground (arith, text_eq_iff s t, one_of_trans s ts us hs)

event_name-listed :
    (person animal vehicle : Bool)
    → (person || (animal || vehicle)) ≡ true
    → is_one_of (event_name person animal vehicle) event_types ≡ true
unfolding is_one_of event_name text_eq join
event_name-listed true true true h = refl
event_name-listed true true false h = refl
event_name-listed true false true h = refl
event_name-listed true false false h = refl
event_name-listed false true true h = refl
event_name-listed false true false h = refl
event_name-listed false false true h = refl
event_name-listed false false false h = cc

module _ ⦃u : Unicode⦄ {F : Type 0} where
  seen_if_notified :
      (categories : List Text)
      → All (λ t. is_one_of t kinds ≡ true) categories
      → (ds : List (Detection F)) → should_notify categories ds ≡ true
      → (sees (codes "person") ds || (sees (codes "animal") ds || sees (codes "vehicle") ds)) ≡ true
  unfolding should_notify sees is_one_of
  seen_if_notified categories h [] k = cc
  seen_if_notified categories h (d ∷ ds) k = ground (
    arith,
    seen_if_notified categories h ds,
    one_of_trans (to_lower (trim_space d.category)) categories kinds h,
  )

  -- If the configured categories are among person, animal and vehicle, every event that is published
  -- has a type that the discovery document lists.
  pub event_type-listed :
      (categories : List Text) (ds : List (Detection F))
      → All (λ t. is_one_of t kinds ≡ true) categories
      → should_notify categories ds ≡ true
      → is_one_of (event_type ds) event_types ≡ true
  unfolding event_type
  event_type-listed categories ds h k =
      event_name-listed (sees (codes "person") ds) (sees (codes "animal") ds)
        (sees (codes "vehicle") ds) (seen_if_notified categories h ds k)
