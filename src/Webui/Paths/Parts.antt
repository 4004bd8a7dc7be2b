-- ===== src/Webui/Paths/Parts.antt =====
-- The parts of a path that is asked for in internal/webui/server.go: a `..` among them, and what
-- `path.Clean` leaves of the others.
use mathlib.Core.List.{reverse, reverse-append}
use smtp_store.Base.{
  ◌||◌, if◌then◌else◌, ◌≡◌, ◌≢◌, refl, sym, ap, ◌∙◌, true, false, ◌⊎◌, inl, inr, List, [], ◌∷◌,
  ◌++◌, Text, All, text_eq, has_prefix, Bool-cases, arith, append-nil, append_assoc,
}
use smtp_store.Base.Strings.Equality.{text_eq_refl, text_eq_sound, text_eq_iff}
use smtp_store.Base.Strings.Split.{join, split, Lacks}
use smtp_store.Base.Strings.FilePath.{slash, dot, clean, clean_step, clean_segments}
use smtp_store.Base.Strings.FilePath.Plain.{IsPlain}
use smtp_store.Webui.Paths.{has_dots}

abbrev pub dots : Text
dots = dot ∷ dot ∷ []

abbrev pub HasDots : List Text → Type 0
HasDots parts = (before after : List Text) × (parts ≡ before ++ (dots ∷ after))

pub has_dots-true : (parts : List Text) → has_dots parts ≡ true → HasDots parts
unfolding has_dots
has_dots-true [] h = cc
has_dots-true (part ∷ parts) h = elim (Bool-cases (text_eq part dots)) [
  | inl e ↦ ([], parts, ap (λ x. x ∷ parts) (text_eq_sound part dots e))
  | inr e ↦
      let (before, after, same) = has_dots-true parts (ground (arith, h, e)) in
      (part ∷ before, after, ap (λ x. part ∷ x) same)
]

pub has_dots-false : (parts : List Text) → has_dots parts ≡ false → All (λ part. part ≢ dots) parts
unfolding has_dots
has_dots-false [] h = tt
has_dots-false (part ∷ parts) h = elim (Bool-cases (text_eq part dots)) [
  | inl e ↦ absurd (ground (arith, h, e))
  | inr e ↦ ((λ same. absurd (differs part e same)), has_dots-false parts (ground (arith, h, e)))
]
  where
    differs : (s : Text) → text_eq s dots ≡ false → s ≢ dots
    differs s e same = let t : text_eq s dots ≡ true = rw same (text_eq_refl dots) in cc

-- The parts of a path that name something: all but the empty ones and `.`.
abbrev pub names_of : List Text → List Text
names_of [] = []
names_of (part ∷ parts) =
    let rest = names_of parts in
    if text_eq part [] || text_eq part (dot ∷ []) then rest else part ∷ rest

clean_step-names_of :
    (stack : List Text) (part : Text) (parts : List Text)
    → part ≢ dots
    → ((clean_step true stack part ≡ stack) × (names_of (part ∷ parts) ≡ names_of parts))
      ⊎ ((clean_step true stack part ≡ part ∷ stack)
          × (names_of (part ∷ parts) ≡ part ∷ names_of parts))
unfolding clean_step
clean_step-names_of stack part parts h =
    elim (Bool-cases (text_eq part [] || text_eq part (dot ∷ []))) [
      | inl idle ↦ inl (rw idle refl, rw idle refl)
      | inr named ↦ elim (Bool-cases (text_eq part dots)) [
        | inl up ↦ absurd (h (text_eq_sound part dots up))
        | inr other ↦ inr (rw (named, other) refl, rw named refl)
      ]
    ]

clean_segments-names_of :
    (stack parts : List Text)
    → All (λ part. part ≢ dots) parts
    → reverse (clean_segments true stack parts) ≡ reverse stack ++ names_of parts
unfolding clean_segments
clean_segments-names_of stack [] h = sym (append-nil (reverse stack))
clean_segments-names_of stack (part ∷ parts) (h, hs) =
    elim (clean_step-names_of stack part parts h) [
      | inl (kept, same) ↦ rw (kept, same) (clean_segments-names_of stack parts hs)
      | inr (grown, named) ↦
          rw (grown, named)
            (clean_segments-names_of (part ∷ stack) parts hs
              ∙ (ap (λ x. x ++ names_of parts) (reverse-append (part ∷ []) stack)
                  ∙ append_assoc (reverse stack) (part ∷ []) (names_of parts)))
    ]

pub names_of-IsPlain :
    (parts : List Text)
    → All (λ part. part ≢ dots) parts
    → All (Lacks slash) parts
    → All IsPlain (names_of parts)
names_of-IsPlain [] h k = tt
names_of-IsPlain (part ∷ parts) (h, hs) (k, ks) =
    elim (Bool-cases (text_eq part [] || text_eq part (dot ∷ []))) [
      | inl idle ↦ rw idle (names_of-IsPlain parts hs ks)
      | inr named ↦ rw named (
        record {
          non_empty = λ e. ground (arith, named, text_eq_iff part [], e);
          one_element = k;
          not_dot = λ e. ground (arith, named, text_eq_iff part (dot ∷ []), e);
          not_dots = h;
        },
        names_of-IsPlain parts hs ks,
      )
    ]

pub join-ne-dot : (below : List Text) → All IsPlain below → join (slash ∷ []) below ≢ dot ∷ []
unfolding join
join-ne-dot [] h e = cc
join-ne-dot (name ∷ []) (h, hs) e = h.not_dot e
join-ne-dot ([] ∷ other ∷ below) (h, hs) e = h.non_empty refl
join-ne-dot ((c ∷ []) ∷ other ∷ below) (h, hs) e = cc
join-ne-dot ((c ∷ d ∷ name) ∷ other ∷ below) (h, hs) e = cc

pub clean_names :
    (rel : Text)
    → All (λ part. part ≢ dots) (split slash rel)
    → clean (slash ∷ rel) ≡ slash ∷ join (slash ∷ []) (names_of (split slash rel))
unfolding clean split clean_segments clean_step has_prefix text_eq
clean_names rel h =
    ap (λ parts. slash ∷ join (slash ∷ []) parts) (clean_segments-names_of [] (split slash rel) h)
