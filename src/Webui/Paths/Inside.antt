-- ===== src/Webui/Paths/Inside.antt =====
-- Whatever a request asks for, the path that is served lies below the storage root.
use smtp_store.Base.{
  ◌≡◌, ◌≢◌, refl, sym, ap, ◌∙◌, true, false, ◌⊎◌, inl, inr, List, [], ◌∷◌, ◌++◌, Text, All,
  All-append, text_eq, has_prefix, trim_prefix, Bool-cases, arith, append-nil, append_assoc,
}
use smtp_store.Base.Strings.Equality.{
  text_eq_refl, text_eq_sound, has_prefix-append, trim_prefix-append,
}
use smtp_store.Base.Strings.Split.{join, split, split-Lacks}
use smtp_store.Base.Strings.FilePath.{slash, dot, clean, join_path}
use smtp_store.Base.Strings.FilePath.Plain.{IsPlain}
use smtp_store.Base.Strings.FilePath.Clean.{clean-plain, join-append}
use smtp_store.Base.Os.{Outcome, ok, err}
use smtp_store.Webui.Paths.{
  absolute, has_dots, traversal, guard_root, resolve_clean, drop_dot, resolve_rel, resolve_path,
  requested,
}
use smtp_store.Webui.Paths.Parts.{
  dots, HasDots, has_dots-true, has_dots-false, names_of, names_of-IsPlain, join-ne-dot,
  clean_names,
}

-- A rooted path by its names.
abbrev pub rooted : List Text → Text
rooted names = slash ∷ join (slash ∷ []) names

-- The relative path has plain names only, and the absolute path is the root with these names behind.
abbrev pub IsInside : List Text → Text × Text → Type 0
IsInside names p =
    (below : List Text) × All IsPlain below
    × (p.0 ≡ join (slash ∷ []) below)
    × (p.1 ≡ rooted (names ++ below))

pub text_eq-join :
    (b : Text) (bs : List Text) → b ≢ [] → text_eq (join (slash ∷ []) (b ∷ bs)) [] ≡ false
unfolding join text_eq
text_eq-join [] bs h = absurd (h refl)
text_eq-join (c ∷ b) [] h = refl
text_eq-join (c ∷ b) (q ∷ bs) h = refl

join_path-pair :
    (s t : Text)
    → text_eq t [] ≡ false
    → join_path ((slash ∷ s) ∷ t ∷ []) ≡ clean (slash ∷ (s ++ slash ∷ t))
unfolding join_path join text_eq
join_path-pair s [] h = cc
join_path-pair s (c ∷ t) h = refl

join_path-names :
    (n : Text) (ns below : List Text)
    → All IsPlain (n ∷ ns)
    → All IsPlain below
    → join_path (rooted (n ∷ ns) ∷ join (slash ∷ []) below ∷ []) ≡ rooted ((n ∷ ns) ++ below)
unfolding join_path join text_eq
join_path-names n ns [] plain h = clean-plain n ns plain ∙ ap rooted (sym (append-nil (n ∷ ns)))
join_path-names n ns (b ∷ bs) plain h =
    join_path-pair (join (slash ∷ []) (n ∷ ns)) (join (slash ∷ []) (b ∷ bs))
      (text_eq-join b bs h.0.non_empty)
    ∙ (ap (λ x. clean (slash ∷ x)) (sym (join-append (slash ∷ []) n ns b bs))
        ∙ clean-plain n (ns ++ b ∷ bs) (All-append IsPlain (n ∷ ns) (b ∷ bs) plain h))

has_prefix-rooted :
    (n : Text) (ns below : List Text)
    → (text_eq (rooted ((n ∷ ns) ++ below)) (rooted (n ∷ ns)) ≡ true)
      ⊎ (has_prefix (rooted ((n ∷ ns) ++ below)) (rooted (n ∷ ns) ++ slash ∷ []) ≡ true)
has_prefix-rooted n ns [] = inl (rw (append-nil (n ∷ ns)) (text_eq_refl (rooted (n ∷ ns))))
has_prefix-rooted n ns (b ∷ bs) = inr (
    rw (join-append (slash ∷ []) n ns b bs) (
      rw (← append_assoc (rooted (n ∷ ns)) (slash ∷ []) (join (slash ∷ []) (b ∷ bs)))
        (has_prefix-append (rooted (n ∷ ns) ++ slash ∷ []) (join (slash ∷ []) (b ∷ bs)))))

guard_root-passes :
    (root rel resolved : Text)
    → (text_eq resolved root ≡ true) ⊎ (has_prefix resolved (root ++ slash ∷ []) ≡ true)
    → guard_root root rel (ok resolved) ≡ ok (rel, resolved)
unfolding guard_root
guard_root-passes root rel resolved (inl e) = ground (arith, e)
guard_root-passes root rel resolved (inr e) = ground (arith, e)

module _ (cwd : Outcome Text) (n : Text) (ns : List Text) (plain : All IsPlain (n ∷ ns)) where
  absolute-plain :
      (below : List Text)
      → All IsPlain below
      → absolute cwd (rooted ((n ∷ ns) ++ below)) ≡ ok (rooted ((n ∷ ns) ++ below))
  unfolding absolute has_prefix
  absolute-plain below h =
      ap ok (clean-plain n (ns ++ below) (All-append IsPlain (n ∷ ns) below plain h))

  resolve_clean-plain :
      (below : List Text)
      → All IsPlain below
      → resolve_clean cwd (rooted (n ∷ ns)) (join (slash ∷ []) below)
        ≡ ok (join (slash ∷ []) below, rooted ((n ∷ ns) ++ below))
  unfolding resolve_clean
  resolve_clean-plain below h =
      ap (λ p. guard_root (rooted (n ∷ ns)) (join (slash ∷ []) below) (absolute cwd p))
        (join_path-names n ns below plain h)
      ∙ (ap (guard_root (rooted (n ∷ ns)) (join (slash ∷ []) below)) (absolute-plain below h)
          ∙ guard_root-passes (rooted (n ∷ ns)) (join (slash ∷ []) below)
              (rooted ((n ∷ ns) ++ below)) (has_prefix-rooted n ns below))

  -- The relative path of names, and the root with these names behind.
  abbrev pub at : List Text → Text × Text
  at below = (join (slash ∷ []) below, rooted ((n ∷ ns) ++ below))

  -- The path has a part `..` and the answer is the refusal of it, or it has none and the answer is the
  -- path inside the root that its parts name.
  abbrev pub IsResolved : Text → Outcome (Text × Text) → Type 0
  IsResolved asked r =
      (HasDots (split slash asked) × (r ≡ err traversal))
      ⊎ (All (λ part. part ≢ dots) (split slash asked)
          × ((p : Text × Text) × (r ≡ ok p)
              × IsInside (n ∷ ns) p
              × (p ≡ at (names_of (split slash asked)))))

  drop_dot-names :
      (below : List Text)
      → All IsPlain below
      → drop_dot cwd (rooted (n ∷ ns)) (join (slash ∷ []) below) ≡ join (slash ∷ []) below
  drop_dot-names below h = elim (Bool-cases (text_eq (join (slash ∷ []) below) (dot ∷ []))) [
    | inl e ↦ absurd (join-ne-dot below h (text_eq_sound _ _ e))
    | inr e ↦ rw e refl
  ]

  resolve_rel-names :
      (rel : Text)
      → has_dots (split slash rel) ≡ false
      → All IsPlain (names_of (split slash rel))
      → resolve_rel cwd (rooted (n ∷ ns)) rel ≡ ok (at (names_of (split slash rel)))
  unfolding resolve_rel
  resolve_rel-names rel e h =
      let below = names_of (split slash rel) in
      rw (e, resolve_rel)
        (ap
            (λ p.
              resolve_clean cwd (rooted (n ∷ ns))
                (drop_dot cwd (rooted (n ∷ ns)) (trim_prefix p (slash ∷ []))))
            (clean_names rel (has_dots-false (split slash rel) e))
          ∙ (ap (λ p. resolve_clean cwd (rooted (n ∷ ns)) (drop_dot cwd (rooted (n ∷ ns)) p))
                (trim_prefix-append (slash ∷ []) (join (slash ∷ []) below))
              ∙ (ap (resolve_clean cwd (rooted (n ∷ ns))) (drop_dot-names below h)
                  ∙ resolve_clean-plain below h)))

  resolve_rel-IsResolved : (rel : Text) → IsResolved rel (resolve_rel cwd (rooted (n ∷ ns)) rel)
  unfolding resolve_rel
  resolve_rel-IsResolved rel = elim (Bool-cases (has_dots (split slash rel))) [
    | inl e ↦ inl (has_dots-true (split slash rel) e, rw (e, resolve_rel))
    | inr e ↦
        let h = names_of-IsPlain _ (has_dots-false (split slash rel) e) (split-Lacks slash rel) in
        inr (
          has_dots-false (split slash rel) e,
          (
            at (names_of (split slash rel)),
            resolve_rel-names rel e h,
            (names_of (split slash rel), h, refl, refl),
            refl,
          ),
        )
  ]

  -- For a root of plain names, whatever the working directory, the unescaping and the request: the
  -- unescaped path, with slashes for its backslashes, is refused as a traversal if one of its parts
  -- is `..`, and only then; any other resolves to the root with its parts behind that are not empty
  -- and not `.`, in their order, and the same parts make up the relative path. The check that the
  -- path does not leave the root never has to refuse one.
  pub resolve_path-IsResolved :
      (path_unescape : Text → Outcome Text) (url_path prefix : Text)
      → IsResolved
          (requested path_unescape url_path prefix)
          (resolve_path cwd (rooted (n ∷ ns)) path_unescape url_path prefix)
  unfolding resolve_path
  resolve_path-IsResolved path_unescape url_path prefix = resolve_rel-IsResolved _
