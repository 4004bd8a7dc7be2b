-- ===== src/Mqtt/Publish/Order.antt =====
-- In which order internal/mqttnotify/publisher.go publishes: the lists of what is to be published, and
-- that the functions go through them up to the first error.
use smtp_store.Base.{
  Bool, true, false, Option, none, some, List, [], ◌∷◌, ◌++◌, ◌≡◌, refl, sym, ap, ◌∙◌, Text, codes,
  Unicode, if◌then◌else◌,
}
use smtp_store.Base.Os.{Error, Outcome, ok, err, new_error}
use smtp_store.Classify.{Sidecar}
use smtp_store.Mqtt.Names.{topic}
use smtp_store.Mqtt.Cameras.{Camera, Publisher}
use smtp_store.Mqtt.Publish.{
  Answer, published, not_connected, refused, Broker, Library, message, deliver, publish,
  publish_encoded, then_do, on, off, status_topic, event_topic, motion_topic, unique_id,
  event_config, motion_config, publish_json, publish_discovery_for_camera, publish_discovery, start,
  should_notify, event_payload, announce, camera_of, publish_classification,
}

-- A topic, whether the broker retains the message, and the payload or the error of its encoding.
pub data Post : Type 0 where
  post : Text → Bool → Outcome Text → Post

abbrev not_taken : Error
not_taken = new_error (codes "mqtt client is not connected")

-- The posts are published in their order, each with the next of the broker's answers, which takes it
-- if there is none: all of them, or those before the first one that cannot be encoded, that finds the
-- client not connected, or that the broker refuses. The error is the one of this post.
pub data Announces (p : Publisher) : List Post → Broker → Option Error × Broker → Type 0 where
  done : (b : Broker) → Announces p [] b (none, b)
  unencoded :
      (to : Text) (retained : Bool) (e : Error) (posts : List Post) (b : Broker)
      → Announces p (post to retained (err e) ∷ posts) b (some e, b)
  offline :
      (to : Text) (retained : Bool) (payload : Text) (posts : List Post) (b : Broker)
      (more : List Answer)
      → b.answers ≡ not_connected ∷ more
      → Announces p
          (post to retained (ok payload) ∷ posts)
          b
          (some not_taken, record b { answers = more })
  refuses :
      (to : Text) (retained : Bool) (payload : Text) (posts : List Post) (b : Broker) (e : Error)
      (more : List Answer)
      → b.answers ≡ refused e ∷ more
      → Announces p (post to retained (ok payload) ∷ posts) b (some e, record b { answers = more })
  takes :
      (to : Text) (retained : Bool) (payload : Text) {posts : List Post} (b : Broker)
      {r : Option Error × Broker} (more : List Answer)
      → b.answers ≡ published ∷ more
      → Announces p posts
          (record b { sent = b.sent ++ message p to retained payload ∷ []; answers = more })
          r
      → Announces p (post to retained (ok payload) ∷ posts) b r
  takes_without :
      (to : Text) (retained : Bool) (payload : Text) {posts : List Post} (b : Broker)
      {r : Option Error × Broker}
      → b.answers ≡ []
      → Announces p posts (record b { sent = b.sent ++ message p to retained payload ∷ [] }) r
      → Announces p (post to retained (ok payload) ∷ posts) b r

run_posts : Publisher → List Post → Broker → Option Error × Broker
run_posts p [] b = (none, b)
run_posts p (post to retained encoded ∷ posts) b =
    then_do (run_posts p posts) (publish_encoded p to retained encoded b)

run_answered :
    (p : Publisher) (to : Text) (retained : Bool) (payload : Text) (posts : List Post)
    → ((b : Broker) → Announces p posts b (run_posts p posts b))
    → (answers : List Answer) (b : Broker) → b.answers ≡ answers
    → Announces p
        (post to retained (ok payload) ∷ posts)
        b
        (then_do (run_posts p posts) (deliver answers (message p to retained payload) b))
unfolding deliver then_do
run_answered p to retained payload posts rest [] b h =
    takes_without to retained payload b h (rest _)
run_answered p to retained payload posts rest (published ∷ more) b h =
    takes to retained payload b more h (rest _)
run_answered p to retained payload posts rest (not_connected ∷ more) b h =
    offline to retained payload posts b more h
run_answered p to retained payload posts rest (refused e ∷ more) b h =
    refuses to retained payload posts b e more h

run-Announces :
    (p : Publisher) (posts : List Post) (b : Broker) → Announces p posts b (run_posts p posts b)
unfolding run_posts publish_encoded publish
run-Announces p [] b = done b
run-Announces p (post to retained (ok payload) ∷ posts) b =
    run_answered p to retained payload posts (run-Announces p posts) b.answers b refl
run-Announces p (post to retained (err e) ∷ posts) b =
    unfold then_do in unencoded to retained e posts b

-- Doing a step, and then two, is doing all three.
then_do_assoc :
    (f g : Broker → Option Error × Broker) (r : Option Error × Broker)
    → then_do f (then_do g r) ≡ then_do (λ b. then_do f (g b)) r
unfolding then_do
then_do_assoc f g (none, b) = refl
then_do_assoc f g (some e, b) = refl

then_do-none : (r : Option Error × Broker) → then_do (λ b. (none, b)) r ≡ r
unfolding then_do
then_do-none (none, b) = refl
then_do-none (some e, b) = refl

-- A step may be put for one that does the same.
then_do_three :
    (f g off motion : Broker → Option Error × Broker)
    → ((b : Broker) → f b ≡ g b)
    → (r : Option Error × Broker)
    → then_do f (then_do off (then_do motion r))
      ≡ then_do (λ b. then_do (λ b'. then_do g (off b')) (motion b)) r
then_do_three f g off motion h r =
    ap (λ f'. then_do f' (then_do off (then_do motion r))) (λ i b. h b i)
    ∙ (then_do_assoc g off (then_do motion r) ∙ then_do_assoc (λ b. then_do g (off b)) motion r)

module _ {F : Type 0} (lib : Library F) (p : Publisher) where
  -- What discovery is to publish for the cameras.
  pub discovery : List Camera → List Post
  discovery [] = []
  discovery (camera ∷ cameras) =
      post (topic (p.discovery_prefix ∷ codes "event" ∷ unique_id camera [] ∷ codes "config" ∷ []))
        true (lib.marshal (event_config lib p camera))
      ∷ post
          (topic (
            p.discovery_prefix
            ∷ codes "binary_sensor"
            ∷ unique_id camera (codes "_motion")
            ∷ codes "config"
            ∷ []))
          true (lib.marshal (motion_config lib p camera))
      ∷ post (motion_topic p camera) true (ok off)
      ∷ discovery cameras

  discovery-run :
      (cameras : List Camera) (b : Broker)
      → publish_discovery lib p cameras b ≡ run_posts p (discovery cameras) b
  unfolding publish_discovery run_posts discovery
  discovery-run [] b = refl
  discovery-run (camera ∷ cameras) b =
      unfold publish_discovery_for_camera in
      unfold publish_json in
      unfold publish_encoded in
      then_do_three (publish_discovery lib p cameras) (run_posts p (discovery cameras))
        (publish p (motion_topic p camera) true off)
        (publish_encoded p
          (topic (
            p.discovery_prefix
            ∷ codes "binary_sensor"
            ∷ unique_id camera (codes "_motion")
            ∷ codes "config"
            ∷ []))
          true (lib.marshal (motion_config lib p camera)))
        (discovery-run cameras)
        (publish_encoded p
          (topic (p.discovery_prefix ∷ codes "event" ∷ unique_id camera [] ∷ codes "config" ∷ []))
          true (lib.marshal (event_config lib p camera)) b)

  start-run :
      (b : Broker)
      → start lib p (none, b)
        ≡ run_posts p (post (status_topic p) true (ok (codes "online")) ∷ discovery p.cameras) b
  unfolding start run_posts then_do publish_encoded
  start-run b =
      ap (λ f. then_do f (publish p (status_topic p) true (codes "online") b))
        (λ i b'. discovery-run p.cameras b' i)

  -- When the broker is connected, `Start` publishes that the program is online, and then for each
  -- camera, in the configuration's order, the two discovery documents and that there is no motion:
  -- all of it without an error, or up to the first message that cannot be encoded, that finds the
  -- client not connected, or that the broker refuses, and then the error is the one of this message.
  pub start-Announces :
      (b : Broker)
      → Announces p
          (post (status_topic p) true (ok (codes "online")) ∷ discovery p.cameras)
          b
          (start lib p (none, b))
  start-Announces b = rw (start-run b) (run-Announces p _ b)

module _ ⦃u : Unicode⦄ {F : Type 0} (lib : Library F) (p : Publisher) where
  -- What is to be published of a classified video.
  pub notification : Sidecar F → Bool → List Post
  notification s false = []
  notification s true =
      post (event_topic p (camera_of p s)) false
        (lib.marshal (event_payload lib p (camera_of p s) s))
      ∷ post (motion_topic p (camera_of p s)) true (ok on)
      ∷ []

  notified-run :
      (s : Sidecar F) (b : Broker)
      → announce p (camera_of p s) (lib.marshal (event_payload lib p (camera_of p s) s)) b
        ≡ run_posts p (notification s true) b
  unfolding announce notification run_posts publish_encoded
  notified-run s b =
      ap
        (λ f. then_do f (
          publish_encoded p (event_topic p (camera_of p s)) false
            (lib.marshal (event_payload lib p (camera_of p s) s)) b))
        (λ i b'. sym (then_do-none (publish p (motion_topic p (camera_of p s)) true on b')) i)

  by_notified :
      (s : Sidecar F) (b : Broker) (notified : Bool)
      → Announces p (notification s notified) b (
          if notified
          then announce p (camera_of p s) (lib.marshal (event_payload lib p (camera_of p s) s)) b
          else (none, b))
  unfolding notification
  by_notified s b false = done b
  by_notified s b true = rw (notified-run s b) (run-Announces p (notification s true) b)

  -- A classified video with a detection of a notified category is announced by its event and then by
  -- motion of its camera, in this order: the motion only after the broker has the event, and the error
  -- of the first of them that cannot be encoded, finds the client not connected or is refused is
  -- returned, or none. For other videos nothing is published, and there is no error.
  pub publish_classification-Announces :
      (s : Sidecar F) (b : Broker)
      → Announces p
          (notification s (should_notify p.notify_categories s.detections))
          b
          (publish_classification lib p s b)
  unfolding publish_classification
  publish_classification-Announces s b =
      by_notified s b (should_notify p.notify_categories s.detections)
