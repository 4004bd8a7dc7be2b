-- ===== src/Spool/Tests.antt =====
-- The queue on concrete spools.
use mathlib.Core.List.{head?}
use smtp_store.Base.{
  ℕ, ◌+◌, ◌-◌, ◌≤◌, ◌≡◌, ◌≢◌, refl, false, ap, Option, none, some, List, [], ◌∷◌, ◌++◌, map, Text,
  codes, latin1, is_space, text_eq, trim_space, arith, inl, inr, length,
}
use smtp_store.Base.Strings.Split.{Lacks}
use smtp_store.Base.Strings.Space.{EndsOutside}
use smtp_store.Base.Strings.Sort.{sort_texts}
use smtp_store.Base.Strings.Decimal.{decimal}
use smtp_store.Base.Dict.{Dict, lookup, insert, keys}
use smtp_store.Base.Os.{Fault, Error, Outcome, ok, err, new_error}
use smtp_store.Storage.Result.{Result}
use smtp_store.Spool.{Spool, rename, plain_call, remove}
use smtp_store.Spool.Item.{
  read_item, cut_line, Codec, IsLawful, parse_item, meta_line, new_id, parse_item-meta_line,
}
use smtp_store.Spool.Enqueue.{enqueue}
use smtp_store.Spool.Enqueue.Bound.{Spooled, total, enqueue-Spooled, total-enqueue}
use smtp_store.Spool.Process.{items, claim, process_one, flush}
use smtp_store.Spool.Safety.{IsValid}
use smtp_store.Spool.Safety.Worker.{KeepsOrDelivers, process_one-KeepsOrDelivers}
use smtp_store.Spool.Safety.Retries.{failing_moves, flush-failing_moves}
use smtp_store.Spool.Safety.Drain.{IsDrained, flush-IsDrained}
use smtp_store.Storage.Errors.{is_unavailable_error}

abbrev unescape : Text → Outcome Text
unescape [] = err (new_error (codes "unexpected end of JSON input"))
unescape (c ∷ s) = ok (map (λ d. d - 200) s)

abbrev time_of : Text → Option ℕ
time_of [] = none
time_of (n ∷ s) = some n

-- A brace, then every character moved above the spaces.
abbrev codec : Codec
codec = record {
  marshal = λ t. 123 ∷ map (λ c. c + 200) t;
  unmarshal = unescape;
  format_nano = λ n. n ∷ [];
  parse_nano = time_of;
  format_id = λ n. n ∷ [];
}

moved_back : (t : Text) → map (λ d. d - 200) (map (λ c. c + 200) t) ≡ t
moved_back [] = refl
moved_back (c ∷ t) = ground (arith, moved_back t)

moved-Lacks : (t : Text) → Lacks 10 (map (λ c. c + 200) t)
moved-Lacks [] = tt
moved-Lacks (c ∷ t) = (ground arith, moved-Lacks t)

tail-EndsOutside :
    (c : ℕ) (t : Text) → EndsOutside (is_space ⦃u = latin1⦄) (map (λ d. d + 200) (c ∷ t))
unfolding is_space
tail-EndsOutside c [] = ground arith
tail-EndsOutside c (d ∷ t) = tail-EndsOutside d t

moved-EndsOutside : (t : Text) → EndsOutside (is_space ⦃u = latin1⦄) (123 ∷ map (λ c. c + 200) t)
unfolding is_space
moved-EndsOutside [] = refl
moved-EndsOutside (c ∷ t) = tail-EndsOutside c t

codec-IsLawful : IsLawful ⦃u = latin1⦄ codec
unfolding is_space
codec-IsLawful = record {
  unmarshal-marshal = λ t. ap ok (moved_back t);
  one_line = λ t. (ground arith, moved-Lacks t);
  not_empty = λ t h. cc;
  starts = λ t. refl;
  ends = moved-EndsOutside;
  parse-format = λ n. refl;
}

-- A store that keeps what it is given, and one that cannot be reached.
abbrev keep : Text → ℕ → List Text → Outcome Result × List Text
keep raw received_at store = (
  ok (record { recipient = []; directory = []; body_path = raw; attachment_paths = [] }),
  raw ∷ store,
)

abbrev spool : Dict Text → Spool (List Text)
spool pending = record {
  pending = pending;
  processing = [];
  failed = [];
  tmp = [];
  store = [];
  posted = [];
  now = 7;
  faults = [];
  cancels = [];
}

abbrev one_item : Spool (List Text)
one_item = spool ((codes "a.eml", meta_line codec 5 ++ codes "hi") ∷ [])

one_item-IsValid : IsValid one_item
unfolding lookup
one_item-IsValid n = (inr refl, (inr refl, inl refl))

parse_item-meta_line_example :
    parse_item codec ⦃u = latin1⦄ (meta_line codec 5 ++ codes "hi") ≡ ok (5 ∷ [], codes "hi")
parse_item-meta_line_example = parse_item-meta_line codec ⦃u = latin1⦄ codec-IsLawful 5 (codes "hi")

process_one-KeepsOrDelivers_example :
    KeepsOrDelivers codec ⦃u = latin1⦄ keep
      (codes "a.eml")
      one_item
      (process_one codec ⦃u = latin1⦄ keep (codes "a.eml") one_item).1
process_one-KeepsOrDelivers_example =
    process_one-KeepsOrDelivers codec ⦃u = latin1⦄ keep (codes "a.eml") one_item one_item-IsValid

one_item-first : head? (sort_texts (items (keys one_item.pending))) ≡ some (codes "a.eml")
unfolding sort_texts items keys smtp_store.Base.has_suffix text_eq
one_item-first = refl

abbrev busy : Fault
busy = record { error = new_error (codes "device or resource busy"); written = 0 }

flush-failing_moves_example :
    (flush codec ⦃u = latin1⦄ keep
        (length (busy ∷ busy ∷ []) + 2)
        (record one_item { faults = failing_moves (busy ∷ busy ∷ []) one_item.faults })
      ≡ flush codec ⦃u = latin1⦄ keep 2 one_item)
    × (flush codec ⦃u = latin1⦄ keep
          (length (busy ∷ busy ∷ []))
          (record one_item { faults = failing_moves (busy ∷ busy ∷ []) one_item.faults })
        ≡ none)
flush-failing_moves_example =
    flush-failing_moves codec ⦃u = latin1⦄ keep one_item (codes "a.eml") one_item-first refl
      (busy ∷ busy ∷ []) 2

keep-reachable :
    (raw : Text) (at : ℕ) (s : List Text) (e : Error)
    → (keep raw at s).0 ≡ err e
    → is_unavailable_error ⦃u = latin1⦄ (some e) ≡ false
keep-reachable raw at s e h = cc

flush-IsDrained_example :
    (w' : Spool (List Text)) × (flush codec ⦃u = latin1⦄ keep 2 one_item ≡ some w') × IsDrained w'
flush-IsDrained_example =
    flush-IsDrained codec ⦃u = latin1⦄ keep keep-reachable 2 one_item (refl, refl) (omega arith)

enqueue-Spooled_example :
    Spooled codec 100 5 none (codes "hi") one_item (enqueue codec 100 5 none (codes "hi") one_item)
enqueue-Spooled_example = enqueue-Spooled codec 100 5 none (codes "hi") one_item

abbrev accepted : Outcome Text × Spool (List Text)
accepted = enqueue codec 100 5 none (codes "hi") (spool [])

enqueue_accepts : accepted.0 ≡ ok (new_id codec 5 none 7)
unfolding enqueue lookup insert text_eq new_id decimal
enqueue_accepts = refl

total-enqueue_example :
    total accepted.1.pending + total accepted.1.processing ≤ 100 + length (meta_line codec 5)
unfolding lookup
total-enqueue_example =
    total-enqueue codec 100 5 none (codes "hi") (spool []) (omega arith) refl enqueue_accepts

-- The item is stored with its time of receipt and handed on, and its file is gone.
process_one_stores :
    (process_one codec ⦃u = latin1⦄ keep (codes "a.eml") one_item).1.store ≡ codes "hi" ∷ []
unfolding process_one lookup insert text_eq claim rename read_item plain_call cut_line meta_line
    trim_space remove
process_one_stores = refl
