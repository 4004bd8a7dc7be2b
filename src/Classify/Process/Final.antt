-- ===== src/Classify/Process/Final.antt =====
-- A video that internal/classify/service.go works on comes to a final state.
use smtp_store.Base.{
  ℕ, zero, suc, ◌+◌, ◌≤◌, ◌<◌, ◌≡◌, refl, arith, Bool, true, false, Option, none, some, ◌⊎◌, inl,
  inr, List, [], ◌∷◌, Text, codes, Unicode, Bool-cases, ltb, ltb→lt, ltb→le,
}
use smtp_store.Base.Int.{pos}
use smtp_store.Base.Os.{Error, Outcome, ok, err}
use smtp_store.Classify.{Sidecar}
use smtp_store.Classify.Process.{
  Response, Tools, Progress, is_done, stamped, sidecar_for_video, write_sidecar, write_now,
  notified, notify_if, success, succeed, classified, extracted, try_once, waited, back_off,
  pending_at, attempts_from, process_base, process_with_retry,
}

is_done-nil : (cancels : List Bool) → cancels ≡ [] → is_done cancels ≡ (false, [])
is_done-nil cancels c = rw c refl

module _ {F : Type 0} (tools : Tools F) where
  -- An attempt that fails: the frames cannot be extracted, and not for want of ffmpeg, or the provider
  -- has no response for them.
  abbrev pub Fails : ℕ → Type 0
  Fails n =
      ((e : Error) × (tools.extract_frames n ≡ err e) × (tools.is_ffmpeg_unavailable e ≡ false))
      ⊎ ((frames : List Text) × (e : Error) × (tools.extract_frames n ≡ ok frames)
          × (tools.classify_video n frames ≡ err e))

  -- An attempt with a response.
  abbrev pub Succeeds : ℕ → Type 0
  Succeeds n =
      (frames : List Text) × (r : Response F) × (tools.extract_frames n ≡ ok frames)
      × (tools.classify_video n frames ≡ ok r)

  -- An attempt that finds no ffmpeg.
  abbrev pub IsWithoutFfmpeg : ℕ → Type 0
  IsWithoutFfmpeg n =
      (e : Error) × (tools.extract_frames n ≡ err e) × (tools.is_ffmpeg_unavailable e ≡ true)

  abbrev pub HaveFailed : ℕ → Type 0
  HaveFailed n = (k : ℕ) → 1 ≤ k → k < n → Fails k

  -- The attempts up to the n-th were made, all but the n-th failed, and the state is what came of the
  -- n-th, which is the last that is allowed if it failed too.
  abbrev pub IsFinal : ℕ → Sidecar F → Type 0
  IsFinal attempts s =
      (n : ℕ) × (s.attempts ≡ pos n)
      × (1 ≤ n)
      × (n ≤ attempts)
      × HaveFailed n
      × (((s.state ≡ codes "success") × Succeeds n)
          ⊎ (((s.state ≡ codes "skipped") × IsWithoutFfmpeg n)
              ⊎ ((s.state ≡ codes "failed") × (n ≡ attempts) × Fails n)))

  -- The last sidecar that was written is final.
  abbrev pub Ends : ℕ → Progress F → Type 0
  Ends attempts p =
      (s : Sidecar F) × (older : List (Sidecar F)) × (p.written ≡ s ∷ older) × IsFinal attempts s

  HaveFailed-suc : (n : ℕ) → HaveFailed n → Fails n → HaveFailed (n + 1)
  HaveFailed-suc n prior fails k low high = elim (Bool-cases (ltb k n)) [
    | inl below ↦ prior k low (ltb→lt k n below)
    | inr above ↦ let same : k ≡ n = omega (arith, high, ltb→le k n above) in rw same fails
  ]

  module _ (attempts n : ℕ) (low : 1 ≤ n) (high : n ≤ attempts) (prior : HaveFailed n) where
    notified-Ends :
        (s : Sidecar F) (p : Progress F) (o : Option Error)
        → s.state ≡ codes "success"
        → s.attempts ≡ pos n
        → Succeeds n
        → Ends attempts (notified tools s o p)
    unfolding notified write_now stamped
    notified-Ends s p none h k good = (_, _, refl, (n, k, low, high, prior, inl (h, good)))
    notified-Ends s p (some e) h k good = (_, _, refl, (n, k, low, high, prior, inl (h, good)))

    notify_if-Ends :
        (publish : Bool) (notifier : Option (Sidecar F → Option Error)) (s : Sidecar F)
        (p : Progress F)
        → s.state ≡ codes "success"
        → s.attempts ≡ pos n
        → Succeeds n
        → Ends attempts (notify_if tools publish notifier (stamped tools s p) (write_now tools s p))
    unfolding notify_if write_now stamped
    notify_if-Ends publish none s p h k good = (_, _, refl, (n, k, low, high, prior, inl (h, good)))
    notify_if-Ends false (some notifier) s p h k good =
        (_, _, refl, (n, k, low, high, prior, inl (h, good)))
    notify_if-Ends true (some notifier) s p h k good =
        notified-Ends (stamped tools s p) (write_now tools s p) (notifier (stamped tools s p)) h k
          good

    module _ ⦃u : Unicode⦄ (publish : Bool) (again : Error → Progress F → Progress F)
        (retries : (e : Error) (p : Progress F)
          → Fails n
          → p.cancels ≡ []
          → Ends attempts (again e p)) where
      classified-Ends :
          (s : Sidecar F) (frames : List Text) (o : Outcome (Response F)) (p : Progress F)
          → s.attempts ≡ pos n
          → p.cancels ≡ []
          → tools.extract_frames n ≡ ok frames
          → tools.classify_video n frames ≡ o
          → Ends attempts (classified tools publish again s frames o p)
      unfolding classified succeed success
      classified-Ends s frames (err e) p h c there answer =
          retries e p (inr (frames, e, there, answer)) c
      classified-Ends s frames (ok r) p h c there answer =
          notify_if-Ends publish tools.notifier (success tools s frames r) p refl h
            (frames, r, there, answer)

      extracted-Ends :
          (s : Sidecar F) (o : Outcome (List Text)) (p : Progress F)
          → s.attempts ≡ pos n
          → p.cancels ≡ []
          → tools.extract_frames n ≡ o
          → Ends attempts (extracted tools publish again n s o p)
      unfolding extracted write_now stamped
      extracted-Ends s (err e) p h c there = elim (Bool-cases (tools.is_ffmpeg_unavailable e)) [
        | inl t ↦ rw t (_, _, refl, (n, h, low, high, prior, inr (inl (refl, (e, there, t)))))
        | inr t ↦ rw t (retries e p (inl (e, there, t)) c)
      ]
      extracted-Ends s (ok frames) p h c there =
          classified-Ends s frames (tools.classify_video n frames) p h c there refl

      try_once-Ends :
          (base : Sidecar F) (p : Progress F) (d : Bool × List Bool)
          → d ≡ (false, [])
          → Ends attempts (try_once tools base publish again n d p)
      unfolding try_once write_now stamped
      try_once-Ends base p d e =
          rw (e, try_once)
            (extracted-Ends (stamped tools (pending_at base n) p) (tools.extract_frames n)
              (write_now tools (pending_at base n) (record p { cancels = [] })) refl refl refl)

  waited-Ends :
      (attempts : ℕ) (next : Progress F → Progress F)
      → ((p : Progress F) → p.cancels ≡ [] → Ends attempts (next p))
      → (p : Progress F) (d : Bool × List Bool) → d ≡ (false, [])
      → Ends attempts (waited next d p)
  unfolding waited
  waited-Ends attempts next h p d e = rw (e, waited) (h _ refl)

  back_off-Ends :
      (attempts more : ℕ) (next : Progress F → Progress F)
      → ((p : Progress F) → p.cancels ≡ [] → Ends attempts (next p))
      → (p : Progress F) → p.cancels ≡ []
      → Ends attempts (back_off more next p)
  unfolding back_off
  back_off-Ends attempts zero next h p c = h p c
  back_off-Ends attempts (suc more) next h p c =
      waited-Ends attempts next h p (is_done p.cancels) (is_done-nil p.cancels c)

  module _ ⦃u : Unicode⦄ (base : Sidecar F) (publish : Bool) (attempts : ℕ)
      (some_attempt : 1 ≤ attempts) where
    attempts_from-Ends :
        (more n : ℕ) (last : Option Error) (p : Progress F)
        → 1 ≤ n
        → n + more ≡ attempts + 1
        → HaveFailed n
        → p.cancels ≡ []
        → Ends attempts (attempts_from tools base publish attempts more n last p)
    unfolding attempts_from write_now stamped
    attempts_from-Ends zero n last p low sum prior c = (
      _,
      _,
      refl,
      (
        attempts,
        refl,
        some_attempt,
        omega arith,
        (λ k from below. prior k from (omega (arith, sum))),
        inr (inr (refl, refl, prior attempts some_attempt (omega (arith, sum)))),
      ),
    )
    attempts_from-Ends (suc more) n last p low sum prior c =
        try_once-Ends attempts n low (omega (arith, sum)) prior publish _
          (λ e p fails c'.
            back_off-Ends attempts more
              (attempts_from tools base publish attempts more (n + 1) (some e))
              (λ p' c''.
                attempts_from-Ends more (n + 1) (some e) p' (omega arith) (omega (arith, sum))
                  (HaveFailed-suc n prior fails) c'')
              p c')
          base p (is_done p.cancels) (is_done-nil p.cancels c)

  process_base-Ends :
      ⦃u : Unicode⦄ (base : Sidecar F) (publish : Bool) (retry_max : ℕ) (p : Progress F)
      → p.cancels ≡ []
      → Ends (retry_max + 1) (process_base tools base publish retry_max p)
  unfolding process_base write_sidecar
  process_base-Ends base publish retry_max p c =
      attempts_from-Ends base publish (retry_max + 1) (omega arith) (retry_max + 1) 1 none _
        (omega arith) (omega arith) (λ k low high. absurd (omega (arith, low, high))) c

  -- When the context is never done, the work on a video makes one attempt after the other, as long as
  -- the extraction of the frames fails for another reason than that ffmpeg is not there or the
  -- provider answers with an error, and at most one more than the retries. It ends with the write of
  -- a sidecar that bears the number of the attempts and is a success if the last one had a response,
  -- skipped if it found no ffmpeg, and failed only if all the attempts, one more than the retries,
  -- have failed. The files, the notifier and the clock may answer anything.
  pub process_with_retry-Ends :
      ⦃u : Unicode⦄ (rel : Text) (info : Option (ℕ × Text)) (provider model : Text) (publish : Bool)
      (retry_max : ℕ) (p : Progress F)
      → p.cancels ≡ []
      → Ends (retry_max + 1) (process_with_retry tools rel info provider model publish retry_max p)
  unfolding process_with_retry
  process_with_retry-Ends rel info provider model publish retry_max p c =
      process_base-Ends (sidecar_for_video rel info provider model (tools.now p.ticks)) publish
        retry_max _ c
