-- ===== src/Base/Strings/FilePath/Clean.antt =====
-- Rooted paths that are clean already: plain names behind the root, joined by slashes.
use Prim.Native.Nat.{ℕ}
use mathlib.Core.Path.{◌≡◌, refl, ap, sym, ◌∙◌}
use mathlib.Core.Logic.{inl, inr}
use mathlib.Core.Bool.{Bool, true, false, ◌||◌}
use mathlib.Core.List.{List, [], ◌∷◌, ◌++◌, reverse, reverse-append, append_assoc, append-nil}
use native.Mathlib.Omega.{arith}
use smtp_store.Base.Tests.{if◌then◌else◌, Bool-cases}
use smtp_store.Base.Lists.{All, All-append}
use smtp_store.Base.Strings.{Text, text_eq}
use smtp_store.Base.Strings.Equality.{text_eq_iff, text_eq_sound}
use smtp_store.Base.Strings.Split.{split, put_first, join, Lacks, split-Lacks}
use smtp_store.Base.Strings.FilePath.{slash, dot, go_up, clean_step, clean_segments, clean}
use smtp_store.Base.Strings.FilePath.Plain.{IsPlain, split-plain, clean_step-plain}

pub split-part : (sep : ℕ) (s t : Text) → Lacks sep s → split sep (s ++ sep ∷ t) ≡ s ∷ split sep t
unfolding split put_first
split-part sep [] t h = ground arith
split-part sep (c ∷ s) t h = ground (arith, split-part sep s t h.1)

pub split-join :
    (sep : ℕ) (p : Text) (ps : List Text)
    → All (Lacks sep) (p ∷ ps)
    → split sep (join (sep ∷ []) (p ∷ ps)) ≡ p ∷ ps
unfolding join
split-join sep p [] h = split-plain sep p h.0
split-join sep p (q ∷ ps) h =
    split-part sep p (join (sep ∷ []) (q ∷ ps)) h.0 ∙ ap (λ r. p ∷ r) (split-join sep q ps h.1)

pub join-append :
    (sep : Text) (p : Text) (ps : List Text) (q : Text) (qs : List Text)
    → join sep ((p ∷ ps) ++ q ∷ qs) ≡ join sep (p ∷ ps) ++ (sep ++ join sep (q ∷ qs))
unfolding join
join-append sep p [] q qs = refl
join-append sep p (r ∷ ps) q qs =
    ap (λ x. p ++ (sep ++ x)) (join-append sep r ps q qs)
    ∙ (ap (λ x. p ++ x) (sym (append_assoc sep (join sep (r ∷ ps)) (sep ++ join sep (q ∷ qs))))
        ∙ sym (append_assoc p (sep ++ join sep (r ∷ ps)) (sep ++ join sep (q ∷ qs))))

pub All-reverse {ℓ κ} : {A : Type ℓ} (P : A → Type κ) (xs : List A) → All P xs → All P (reverse xs)
All-reverse P [] h = tt
All-reverse P (x ∷ xs) h =
    rw (reverse-append (x ∷ []) xs)
      (All-append P (reverse xs) (x ∷ []) (All-reverse P xs h.1) (h.0, tt))

pub All-Lacks : (ns : List Text) → All IsPlain ns → All (Lacks slash) ns
All-Lacks [] h = tt
All-Lacks (n ∷ ns) h = (h.0.one_element, All-Lacks ns h.1)

clean_segments-plain :
    (stack ns : List Text)
    → All IsPlain ns
    → reverse (clean_segments true stack ns) ≡ reverse stack ++ ns
unfolding clean_segments
clean_segments-plain stack [] h = sym (append-nil (reverse stack))
clean_segments-plain stack (n ∷ ns) h = rw (clean_step-plain true stack n h.0) (
    clean_segments-plain (n ∷ stack) ns h.1
    ∙ (ap (λ x. x ++ ns) (reverse-append (n ∷ []) stack)
        ∙ append_assoc (reverse stack) (n ∷ []) ns))

-- A rooted path of plain names is its own cleaning.
pub clean-plain :
    (n : Text) (ns : List Text)
    → All IsPlain (n ∷ ns)
    → clean (slash ∷ join (slash ∷ []) (n ∷ ns)) ≡ slash ∷ join (slash ∷ []) (n ∷ ns)
unfolding clean split clean_segments clean_step
clean-plain n ns h =
    ap (λ x. slash ∷ join (slash ∷ []) (reverse (clean_segments true [] x)))
      (split-join slash n ns (All-Lacks (n ∷ ns) h))
    ∙ ap (λ x. slash ∷ join (slash ∷ []) x) (clean_segments-plain [] (n ∷ ns) h)

go_up-IsPlain : (stack : List Text) → All IsPlain stack → All IsPlain (go_up true stack)
unfolding go_up
go_up-IsPlain [] h = tt
go_up-IsPlain (top ∷ stack) h = elim (Bool-cases (text_eq top (dot ∷ dot ∷ []))) [
  | inl dots ↦ absurd (h.0.not_dots (text_eq_sound _ _ dots))
  | inr other ↦ rw (other, go_up) h.1
]

clean_step-IsPlain :
    (stack : List Text) (s : Text)
    → All IsPlain stack
    → Lacks slash s
    → All IsPlain (clean_step true stack s)
unfolding clean_step
clean_step-IsPlain stack s h lacks =
    by_tests (text_eq s []) (text_eq s (dot ∷ [])) (text_eq s (dot ∷ dot ∷ [])) refl refl refl
  where
    by_tests :
        (a b c : Bool)
        → text_eq s [] ≡ a
        → text_eq s (dot ∷ []) ≡ b
        → text_eq s (dot ∷ dot ∷ []) ≡ c
        → All IsPlain (if a || b then stack else if c then go_up true stack else s ∷ stack)
    by_tests true b c p q r = h
    by_tests false true c p q r = h
    by_tests false false true p q r = go_up-IsPlain stack h
    by_tests false false false p q r = (
      record {
        non_empty = λ e. cc ((text_eq_iff s []).1 e);
        one_element = lacks;
        not_dot = λ e. cc ((text_eq_iff s (dot ∷ [])).1 e);
        not_dots = λ e. cc ((text_eq_iff s (dot ∷ dot ∷ [])).1 e);
      },
      h,
    )

-- Cleaning a rooted path leaves plain names only: nothing goes up and nothing stands still.
pub clean_segments-IsPlain :
    (stack ss : List Text)
    → All IsPlain stack
    → All (Lacks slash) ss
    → All IsPlain (clean_segments true stack ss)
unfolding clean_segments
clean_segments-IsPlain stack [] h k = h
clean_segments-IsPlain stack (s ∷ ss) h k =
    clean_segments-IsPlain (clean_step true stack s) ss (clean_step-IsPlain stack s h k.0) k.1

pub clean-IsPlain :
    (s : Text)
    → (ns : List Text) × All IsPlain ns × (clean (slash ∷ s) ≡ slash ∷ join (slash ∷ []) ns)
unfolding clean
clean-IsPlain s = (
  reverse (clean_segments true [] (split slash (slash ∷ s))),
  All-reverse IsPlain _
      (clean_segments-IsPlain [] (split slash (slash ∷ s)) tt (split-Lacks slash (slash ∷ s))),
  refl,
)
