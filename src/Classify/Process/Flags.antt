-- ===== src/Classify/Process/Flags.antt =====
-- The flags of the sidecars that internal/classify/service.go writes.
use smtp_store.Base.{
  ℕ, zero, suc, ◌+◌, ◌≡◌, refl, Bool, true, false, Option, none, some, inl, inr, List, Text, codes,
  Unicode, All, Bool-cases,
}
use smtp_store.Base.Os.{Error, Outcome, ok, err}
use smtp_store.Classify.{Sidecar}
use smtp_store.Classify.Category.{has_category}
use smtp_store.Classify.Process.{
  Response, Tools, Progress, is_done, pending_at, stamped, sidecar_for_video, write_sidecar,
  write_now, notified, notify_if, success, succeed, classified, extracted, try_once, waited,
  back_off, attempts_from, process_base, process_with_retry,
}

module _ {F : Type 0} where
  -- The flags say which categories the detections have.
  abbrev pub IsConsistent : Sidecar F → Type 0
  IsConsistent s =
      (s.has_person ≡ has_category s.detections (codes "person"))
      × (s.has_animal ≡ has_category s.detections (codes "animal"))
      × (s.has_vehicle ≡ has_category s.detections (codes "vehicle"))

  abbrev pub AreConsistent : Progress F → Type 0
  AreConsistent p = All IsConsistent p.written

  module _ (tools : Tools F) where
    notified-AreConsistent :
        (s : Sidecar F) (p : Progress F) (o : Option Error)
        → IsConsistent s
        → AreConsistent p
        → AreConsistent (notified tools s o p)
    unfolding notified write_now stamped
    notified-AreConsistent s p none h k = (h, k)
    notified-AreConsistent s p (some e) h k = (h, k)

    notify_if-AreConsistent :
        (publish : Bool) (notifier : Option (Sidecar F → Option Error)) (s : Sidecar F)
        (p : Progress F)
        → IsConsistent s
        → AreConsistent p
        → AreConsistent (notify_if tools publish notifier s p)
    unfolding notify_if
    notify_if-AreConsistent publish none s p h k = k
    notify_if-AreConsistent false (some notifier) s p h k = k
    notify_if-AreConsistent true (some notifier) s p h k =
        notified-AreConsistent s p (notifier s) h k

    module _ ⦃u : Unicode⦄ (publish : Bool) (again : Error → Progress F → Progress F)
        (retries : (e : Error) (p : Progress F) → AreConsistent p → AreConsistent (again e p)) where
      classified-AreConsistent :
          (s : Sidecar F) (frames : List Text) (o : Outcome (Response F)) (p : Progress F)
          → AreConsistent p
          → AreConsistent (classified tools publish again s frames o p)
      unfolding classified succeed write_now stamped success
      classified-AreConsistent s frames (err e) p k = retries e p k
      classified-AreConsistent s frames (ok r) p k =
          notify_if-AreConsistent publish tools.notifier
            (stamped tools (success tools s frames r) p)
            (write_now tools (success tools s frames r) p) (refl, refl, refl)
            ((refl, refl, refl), k)

      extracted-AreConsistent :
          (n : ℕ) (s : Sidecar F) (o : Outcome (List Text)) (p : Progress F)
          → IsConsistent s
          → AreConsistent p
          → AreConsistent (extracted tools publish again n s o p)
      unfolding extracted write_now stamped
      extracted-AreConsistent n s (err e) p h k =
          elim (Bool-cases (tools.is_ffmpeg_unavailable e)) [
            | inl t ↦ rw t (h, k)
            | inr t ↦ rw t (retries e p k)
          ]
      extracted-AreConsistent n s (ok frames) p h k =
          classified-AreConsistent s frames (tools.classify_video n frames) p k

      try_once-AreConsistent :
          (base : Sidecar F) (n : ℕ) (d : Bool × List Bool) (p : Progress F)
          → IsConsistent base
          → AreConsistent p
          → AreConsistent (try_once tools base publish again n d p)
      unfolding try_once write_now stamped
      try_once-AreConsistent base n (true, rest) p h k = k
      try_once-AreConsistent base n (false, rest) p h k =
          extracted-AreConsistent n (stamped tools (pending_at base n) p) (tools.extract_frames n)
            (write_now tools (pending_at base n) (record p { cancels = rest })) h (h, k)

  waited-AreConsistent :
      (next : Progress F → Progress F)
      → ((p : Progress F) → AreConsistent p → AreConsistent (next p))
      → (d : Bool × List Bool) (p : Progress F) → AreConsistent p
      → AreConsistent (waited next d p)
  unfolding waited
  waited-AreConsistent next h (true, rest) p k = k
  waited-AreConsistent next h (false, rest) p k = h _ k

  back_off-AreConsistent :
      (more : ℕ) (next : Progress F → Progress F)
      → ((p : Progress F) → AreConsistent p → AreConsistent (next p))
      → (p : Progress F) → AreConsistent p
      → AreConsistent (back_off more next p)
  unfolding back_off
  back_off-AreConsistent zero next h p k = h p k
  back_off-AreConsistent (suc more) next h p k = waited-AreConsistent next h (is_done p.cancels) p k

  module _ (tools : Tools F) ⦃u : Unicode⦄ (base : Sidecar F) (consistent : IsConsistent base)
      (publish : Bool) where
    attempts_from-AreConsistent :
        (attempts more n : ℕ) (last : Option Error) (p : Progress F)
        → AreConsistent p
        → AreConsistent (attempts_from tools base publish attempts more n last p)
    unfolding attempts_from write_now stamped
    attempts_from-AreConsistent attempts zero n last p k = (consistent, k)
    attempts_from-AreConsistent attempts (suc more) n last p k =
        try_once-AreConsistent tools publish _
          (λ e.
            back_off-AreConsistent more
              (attempts_from tools base publish attempts more (n + 1) (some e))
              (attempts_from-AreConsistent attempts more (n + 1) (some e)))
          base n (is_done p.cancels) p consistent k

    process_base-AreConsistent :
        (retry_max : ℕ) (p : Progress F)
        → AreConsistent p
        → AreConsistent (process_base tools base publish retry_max p)
    unfolding process_base write_sidecar
    process_base-AreConsistent retry_max p k =
        attempts_from-AreConsistent (retry_max + 1) (retry_max + 1) 1 none _ (consistent, k)

  -- Whatever the extractor, the provider, the notifier, the file calls and the context do: if the flags
  -- of the sidecars written so far say which categories their detections have, so do those of all the
  -- sidecars that the work on one more video writes.
  pub process_with_retry-AreConsistent :
      (tools : Tools F) ⦃u : Unicode⦄ (rel : Text) (info : Option (ℕ × Text))
      (provider model : Text) (publish : Bool) (retry_max : ℕ) (p : Progress F)
      → AreConsistent p
      → AreConsistent (process_with_retry tools rel info provider model publish retry_max p)
  unfolding process_with_retry has_category sidecar_for_video
  process_with_retry-AreConsistent tools rel info provider model publish retry_max p k =
      process_base-AreConsistent tools
        (sidecar_for_video rel info provider model (tools.now p.ticks)) (refl, refl, refl) publish
        retry_max _ k
