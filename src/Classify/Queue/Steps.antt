-- ===== src/Classify/Queue/Steps.antt =====
-- The queue of internal/classify/service.go with any number of workers: calls of `Enqueue` and
-- `enqueueBackfill`, workers that take a job, and workers that are done with one, in any order. A path
-- is marked under the mutex before its job is sent, so both are one step.
use smtp_store.Base.{
  ℕ, suc, ◌+◌, ◌≤◌, ◌≡◌, refl, ap, arith, Bool, true, false, not, ◌&&◌, ◌||◌, List, [], ◌∷◌, ◌++◌,
  Text, Unicode, text_eq, if◌then◌else◌, ltb, ltb→lt, length, length-append,
}
use mathlib.Core.Path.{subst}
use smtp_store.Base.Strings.Equality.{text_eq_iff, text_eq_sound}
use smtp_store.Base.Os.{Outcome, ok, err}
use smtp_store.Classify.{is_one_of, is_video_path, is_detection_sidecar_path}
use smtp_store.Classify.Queue.{
  Job, Service, queue_size, without, is_below_root, send, add_path, add_abs, add_video,
}

-- The service, and the paths that workers are at.
pub record State : Type 0 where
  pub service : Service
  pub running : List Text

-- How often a path occurs.
pub count : Text → List Text → ℕ
count p [] = 0
count p (q ∷ qs) = let rest = count p qs in if text_eq q p then suc rest else rest

pub waiting : List Job → List Text
waiting [] = []
waiting (job ∷ jobs) = job.video_path ∷ waiting jobs

-- One for a marked path.
abbrev pub marked : Text → List Text → ℕ
marked p queued = if is_one_of p queued then 1 else 0

module _ ⦃u : Unicode⦄ (abs : Text → Outcome Text) where
  pub data Step (s : State) : State → Type 0 where
    add_step :
        (path : Text) (notify : Bool)
        → Step s (record s { service = (add_video abs path notify s.service).1 })
    take_step :
        (job : Job) (rest : List Job)
        → s.service.queue ≡ job ∷ rest
        → Step s (record {
          service = record (s.service) { queue = rest };
          running = job.video_path ∷ s.running;
        })
    done_step :
        (path : Text) (before after : List Text)
        → s.running ≡ before ++ path ∷ after
        → Step s (record {
          service = record (s.service) { queued = without path s.service.queued };
          running = before ++ after;
        })

  -- The states of a service that starts with an empty queue.
  pub data Reach : State → Type 0 where
    start :
        (root : Text)
        → Reach (record {
          service = record { storage_root_abs = root; queue = []; queued = [] };
          running = [];
        })
    next_step : {s t : State} → Reach s → Step s t → Reach t

-- Every path is with at most one worker or waits once, and not both, and then it is marked.
abbrev pub IsExclusive : State → Type 0
IsExclusive s =
    ((p : Text) → count p s.running + count p (waiting s.service.queue) ≤ marked p s.service.queued)
    × (length s.service.queue ≤ queue_size)

count-append : (p : Text) (xs ys : List Text) → count p (xs ++ ys) ≡ count p xs + count p ys
unfolding count
count-append p [] ys = omega arith
count-append p (x ∷ xs) ys = ground (arith, count-append p xs ys)

waiting-append : (js ks : List Job) → waiting (js ++ ks) ≡ waiting js ++ waiting ks
unfolding waiting
waiting-append [] ks = refl
waiting-append (j ∷ js) ks = ap (λ ps. j.video_path ∷ ps) (waiting-append js ks)

marked-without :
    (p q : Text) (queued : List Text)
    → marked p (without q queued) ≡ (if text_eq q p then 0 else marked p queued)
unfolding without is_one_of
marked-without p q [] = ground arith
marked-without p q (r ∷ rs) =
    ground (arith, text_eq_iff q p, text_eq_iff q r, text_eq_iff p r, marked-without p q rs)

marked-cons :
    (p q : Text) (queued : List Text)
    → marked p (q ∷ queued) ≡ (if text_eq q p then 1 else marked p queued)
unfolding is_one_of
marked-cons p q queued = ground (arith, text_eq_iff p q, text_eq_iff q p)

unmarked :
    (p q : Text) (queued : List Text)
    → is_one_of q queued ≡ false
    → text_eq q p ≡ true
    → marked p queued ≡ 0
unmarked p q queued h e =
    let same : is_one_of p queued ≡ false =
      subst (λ r. is_one_of r queued ≡ false) (text_eq_sound q p e) h in
    rw same refl

-- One more at the end.
count-snoc :
    (p q : Text) (jobs : List Job) (notify : Bool)
    → count p (waiting (jobs ++ record { video_path = q; notify = notify } ∷ []))
      ≡ count p (waiting jobs) + (if text_eq q p then 1 else 0)
unfolding waiting count
count-snoc p q [] notify = ground arith
count-snoc p q (j ∷ js) notify = ground (arith, count-snoc p q js notify)

module _ (running : List Text) where
  -- The invariant behind a call.
  abbrev Keeps : Bool × Service → Type 0
  Keeps r = IsExclusive (record { service = r.1; running = running })

  module _ (path : Text) (notify : Bool) (s : Service) (free : is_one_of path s.queued ≡ false)
      (h : IsExclusive (record { service = s; running = running })) where
    by_room :
        (room : Bool)
        → ltb (length s.queue) queue_size ≡ room
        → Keeps (
            if room
            then (
              true,
              record s {
                queue = s.queue ++ record { video_path = path; notify = notify } ∷ [];
                queued = path ∷ s.queued;
              },
            )
            else (false, record s { queued = without path (path ∷ s.queued) }))
    by_room true room = (
      λ p. ground (
        arith,
        h.0 p,
        count-snoc p path s.queue notify,
        marked-cons p path s.queued,
        unmarked p path s.queued free,
      ),
      omega (
        arith,
        length-append s.queue (record { video_path = path; notify = notify } ∷ []),
        ltb→lt (length s.queue) queue_size room,
      ),
    )
    by_room false room = (
      λ p. ground (
        arith,
        h.0 p,
        marked-without p path (path ∷ s.queued),
        marked-cons p path s.queued,
        unmarked p path s.queued free,
      ),
      h.1,
    )

  module _ (notify : Bool) (s : Service)
      (h : IsExclusive (record { service = s; running = running })) where
    by_tests :
        (path : Text) (below there : Bool)
        → is_one_of path s.queued ≡ there
        → Keeps (
            if below && not there
            then send path notify (record s { queued = path ∷ s.queued })
            else (false, s))
    unfolding send
    by_tests path true false free =
        by_room path notify s free h (ltb (length s.queue) queue_size) refl
    by_tests path true true free = h
    by_tests path false there free = h

    add_abs-Keeps : (o : Outcome Text) → Keeps (add_abs o notify s)
    unfolding add_abs add_path
    add_abs-Keeps (err e) = h
    add_abs-Keeps (ok path) =
        by_tests path (is_below_root s.storage_root_abs path) (is_one_of path s.queued) refl

    by_kind : (b : Bool) (o : Outcome Text) → Keeps (if b then (false, s) else add_abs o notify s)
    by_kind true o = h
    by_kind false o = add_abs-Keeps o

    add_video-Keeps :
        ⦃u : Unicode⦄ (abs : Text → Outcome Text) (path : Text)
        → Keeps (add_video abs path notify s)
    unfolding add_video
    add_video-Keeps abs path =
        by_kind (not (is_video_path path) || is_detection_sidecar_path path) (abs path)

take-IsExclusive :
    (s : Service) (running : List Text) (job : Job) (rest : List Job)
    → s.queue ≡ job ∷ rest
    → IsExclusive (record { service = s; running = running })
    → IsExclusive
        (record { service = record s { queue = rest }; running = job.video_path ∷ running })
unfolding count waiting
take-IsExclusive s running job rest e (h, k) = (
  λ p.
      ground
        (arith, subst (λ js. count p running + count p (waiting js) ≤ marked p s.queued) e (h p)),
  omega (arith, subst (λ js. length js ≤ queue_size) e k),
)

done-IsExclusive :
    (s : Service) (path : Text) (before after : List Text)
    → IsExclusive (record { service = s; running = before ++ path ∷ after })
    → IsExclusive (record {
      service = record s { queued = without path s.queued };
      running = before ++ after;
    })
unfolding count
done-IsExclusive s path before after (h, k) = (
  λ p. ground (
    arith,
    h p,
    count-append p before (path ∷ after),
    count-append p before after,
    marked-without p path s.queued,
  ),
  k,
)

module _ ⦃u : Unicode⦄ (abs : Text → Outcome Text) where
  Step-IsExclusive : {s t : State} → Step abs s t → IsExclusive s → IsExclusive t
  Step-IsExclusive {s} (add_step path notify) h =
      add_video-Keeps s.running notify s.service h abs path
  Step-IsExclusive {s} (take_step job rest e) h = take-IsExclusive s.service s.running job rest e h
  Step-IsExclusive {s} (done_step path before after e) h =
      done-IsExclusive s.service path before after
        (subst (λ ps. IsExclusive (record { service = s.service; running = ps })) e h)

  -- Under any calls of `Enqueue` and `enqueueBackfill` and any number of workers: a path is with at
  -- most one worker or waits once in the queue, and not both, and it is marked as queued as long; the
  -- queue holds at most 1024 jobs.
  pub Reach-IsExclusive : {s : State} → Reach abs s → IsExclusive s
  Reach-IsExclusive (start root) =
      unfold count in unfold waiting in (λ p. ground arith, omega arith)
  Reach-IsExclusive (next_step r t) = Step-IsExclusive t (Reach-IsExclusive r)
