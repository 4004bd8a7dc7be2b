-- ===== src/Storage/Errors/Exact.antt =====
-- Which errors `IsUnavailableError` of internal/storage/storage.go takes for a storage that is gone.
use smtp_store.Base.{
  ◌≡◌, refl, ap, ◌∙◌, ◌↔◌, Bool, true, false, ◌||◌, ◌⊎◌, inl, inr, some, List, [], ◌∷◌, ◌++◌, arith,
  Text, codes, Unicode, contains, has_prefix, to_lower, ◌==◌, ==_iff, Bool-cases, if◌then◌else◌,
}
use smtp_store.Base.Strings.Equality.{has_prefix-append}
use smtp_store.Base.Os.{Error, Errno, errors_is, has_errno}
use smtp_store.Storage.Errors.{is_any_of, contains_any, is_unavailable_error}

-- The number is in the chain of the error.
abbrev pub HasNumber : List Errno → Errno → Type 0
HasNumber chain n = (before after : List Errno) × (chain ≡ before ++ (n ∷ after))

-- The second text stands somewhere in the first.
abbrev pub Mentions : Text → Text → Type 0
Mentions s p = (before after : Text) × (s ≡ before ++ (p ++ after))

has_errno-HasNumber : (ms : List Errno) (n : Errno) → has_errno ms n ≡ true → HasNumber ms n
unfolding has_errno
has_errno-HasNumber [] n h = cc
has_errno-HasNumber (m ∷ ms) n h = elim (Bool-cases (m == n)) [
  | inl same ↦ ([], ms, ap (λ k. k ∷ ms) ((==_iff m n).0 same))
  | inr other ↦
      let (before, after, at) = has_errno-HasNumber ms n (ground (arith, h, other)) in
      (m ∷ before, after, ap (λ ks. m ∷ ks) at)
]

has_errno-append :
    (before : List Errno) (n : Errno) (after : List Errno)
    → has_errno (before ++ (n ∷ after)) n ≡ true
unfolding has_errno
has_errno-append [] n after = ground arith
has_errno-append (m ∷ before) n after = ground (arith, has_errno-append before n after)

has_errno_iff : (ms : List Errno) (n : Errno) → (has_errno ms n ≡ true) ↔ HasNumber ms n
has_errno_iff ms n =
    (has_errno-HasNumber ms n, λ (before, after, at). rw at (has_errno-append before n after))

has_prefix-split : (s p : Text) → has_prefix s p ≡ true → (after : Text) × (s ≡ p ++ after)
unfolding has_prefix
has_prefix-split s [] h = (s, refl)
has_prefix-split [] (d ∷ p) h = cc
has_prefix-split (c ∷ s) (d ∷ p) h =
    let (after, at) = has_prefix-split s p (ground (arith, h)) in
    let same : c ≡ d = ground (arith, h) in (after, ap (λ k. k ∷ s) same ∙ ap (λ t. d ∷ t) at)

contains-Mentions : (s p : Text) → contains s p ≡ true → Mentions s p
unfolding contains
contains-Mentions [] p h = let (after, at) = has_prefix-split [] p h in ([], after, at)
contains-Mentions (c ∷ s) p h = elim (Bool-cases (has_prefix (c ∷ s) p)) [
  | inl here ↦ let (after, at) = has_prefix-split (c ∷ s) p here in ([], after, at)
  | inr later ↦
      let (before, after, at) = contains-Mentions s p (ground (arith, h, later)) in
      (c ∷ before, after, ap (λ t. c ∷ t) at)
]

contains-append : (before p after : Text) → contains (before ++ (p ++ after)) p ≡ true
unfolding contains
contains-append [] [] [] = unfold has_prefix in refl
contains-append [] [] (c ∷ after) = unfold has_prefix in refl
contains-append [] (c ∷ p) after = ground (arith, has_prefix-append (c ∷ p) after)
contains-append (c ∷ before) p after = ground (arith, contains-append before p after)

contains_iff : (s p : Text) → (contains s p ≡ true) ↔ Mentions s p
contains_iff s p =
    (contains-Mentions s p, λ (before, after, at). rw at (contains-append before p after))

-- A disjunction of tests that stand for propositions.
or_iff : (a b : Bool) (P Q : Type 0) → (a ≡ true) ↔ P → (b ≡ true) ↔ Q → ((a || b) ≡ true) ↔ (P ⊎ Q)
or_iff true b P Q p q = (λ h. inl (p.0 refl), λ h. refl)
or_iff false b P Q p q =
    (λ h. inr (q.0 h), λ h. elim h [ inl x ↦ let no : false ≡ true = p.1 x in cc | inr y ↦ q.1 y ])

or_false_iff : (a : Bool) (P : Type 0) → (a ≡ true) ↔ P → ((a || false) ≡ true) ↔ P
or_false_iff true P p = (λ h. p.0 refl, λ x. refl)
or_false_iff false P p = p

if_iff :
    (a b : Bool) (P Q : Type 0)
    → (a ≡ true) ↔ P
    → (b ≡ true) ↔ Q
    → ((if a then true else b) ≡ true) ↔ (P ⊎ Q)
if_iff true b P Q p q = or_iff true b P Q p q
if_iff false b P Q p q = or_iff false b P Q p q

-- EROFS, ESTALE, ENOTCONN, ENODEV, ENXIO, EHOSTDOWN or EHOSTUNREACH.
abbrev pub HasUnavailableNumber : List Errno → Type 0
HasUnavailableNumber chain =
    HasNumber chain 30
    ⊎ (HasNumber chain 116
        ⊎ (HasNumber chain 107
            ⊎ (HasNumber chain 19
                ⊎ (HasNumber chain 6 ⊎ (HasNumber chain 112 ⊎ HasNumber chain 113)))))

abbrev pub MentionsUnavailable : Text → Type 0
MentionsUnavailable s =
    Mentions s (codes "read-only file system")
    ⊎ (Mentions s (codes "stale file handle")
        ⊎ (Mentions s (codes "transport endpoint is not connected")
            ⊎ (Mentions s (codes "host is down") ⊎ Mentions s (codes "no route to host"))))

module _ ⦃u : Unicode⦄ where
  -- An error is seen as unavailable storage exactly when one of the seven numbers EROFS, ESTALE,
  -- ENOTCONN, ENODEV, ENXIO, EHOSTDOWN and EHOSTUNREACH is in its chain, or its text in lower case
  -- has one of the five phrases somewhere in it.
  pub is_unavailable_error_iff :
      (e : Error)
      → (is_unavailable_error (some e) ≡ true)
        ↔ (HasUnavailableNumber e.chain ⊎ MentionsUnavailable (to_lower e.message))
  unfolding is_unavailable_error is_any_of errors_is contains_any
  is_unavailable_error_iff e =
      let chain = e.chain in
      let s = to_lower e.message in
      if_iff _ _ _ _
        (or_iff _ _ _ _ (has_errno_iff chain 30) (
          or_iff _ _ _ _ (has_errno_iff chain 116) (
            or_iff _ _ _ _ (has_errno_iff chain 107) (
              or_iff _ _ _ _ (has_errno_iff chain 19) (
                or_iff _ _ _ _ (has_errno_iff chain 6) (
                  or_iff _ _ _ _ (has_errno_iff chain 112)
                    (or_false_iff _ _ (has_errno_iff chain 113))))))))
        (or_iff _ _ _ _ (contains_iff s _) (
          or_iff _ _ _ _ (contains_iff s _) (
            or_iff _ _ _ _ (contains_iff s _)
              (or_iff _ _ _ _ (contains_iff s _) (or_false_iff _ _ (contains_iff s _))))))
