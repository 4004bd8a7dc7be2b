-- ===== src/Base/Strings/FilePath/Plain.antt =====
-- A plain name behind a directory: `filepath.Join` keeps it as the last element.
use mathlib.Core.List.{reverse, reverse-append}
use smtp_store.Base.Tests.{if◌then◌else◌}
use smtp_store.Base.Strings.{Text, text_eq, elem, has_prefix}
use smtp_store.Base.Strings.Equality.{text_eq_iff}
use smtp_store.Base.Strings.Split.{split, split-ne-nil, put_first, join, Lacks}
use smtp_store.Base.Strings.FilePath.{
  slash, dot, clean_step, clean_segments, clean, join_path, last_element,
}
use Prim.Native.Nat.{ℕ}
use mathlib.Core.Path.{◌≡◌, refl, ◌∙◌, sym}
use mathlib.Core.Logic.{◌≢◌}
use mathlib.Core.Bool.{Bool, true, false}
use mathlib.Core.List.{List, [], ◌∷◌, ◌++◌}
use native.Mathlib.Omega.{arith}

-- A name of one element that is neither `.` nor `..`.
pub record IsPlain (name : Text) : Type 0 where
  pub non_empty : name ≢ []
  pub one_element : Lacks slash name
  pub not_dot : name ≢ dot ∷ []
  pub not_dots : name ≢ dot ∷ dot ∷ []

put_first-append :
    (c : ℕ) (ps qs : List Text) → ps ≢ [] → put_first c (ps ++ qs) ≡ put_first c ps ++ qs
unfolding put_first
put_first-append c [] qs h = absurd (h refl)
put_first-append c (p ∷ ps) qs h = refl

pub split-plain : (sep : ℕ) (name : Text) → Lacks sep name → split sep name ≡ name ∷ []
unfolding split put_first
split-plain sep [] h = refl
split-plain sep (c ∷ s) (h, k) = ground (arith, split-plain sep s k)

split-append :
    (sep : ℕ) (s name : Text)
    → Lacks sep name
    → split sep (s ++ sep ∷ name) ≡ split sep s ++ name ∷ []
unfolding split
split-append sep [] name h = ground (arith, split-plain sep name h)
split-append sep (c ∷ s) name h = ground (
  arith,
  split-append sep s name h,
  put_first-append c (split sep s) (name ∷ []) (split-ne-nil sep s),
)

pub clean_step-plain :
    (rooted : Bool) (stack : List Text) (name : Text)
    → IsPlain name
    → clean_step rooted stack name ≡ name ∷ stack
unfolding clean_step
clean_step-plain rooted stack name plain =
    ground
      (arith, text_eq_iff name [], text_eq_iff name (dot ∷ []), text_eq_iff name (dot ∷ dot ∷ []))

clean_segments-append :
    (rooted : Bool) (stack ss : List Text) (name : Text)
    → IsPlain name
    → clean_segments rooted stack (ss ++ name ∷ []) ≡ name ∷ clean_segments rooted stack ss
unfolding clean_segments
clean_segments-append rooted stack [] name plain = clean_step-plain rooted stack name plain
clean_segments-append rooted stack (s ∷ ss) name plain =
    clean_segments-append rooted (clean_step rooted stack s) ss name plain

last_element-plain : (name : Text) → Lacks slash name → last_element name ≡ name
unfolding last_element elem
last_element-plain [] h = refl
last_element-plain (c ∷ s) (h, k) = ground (arith, elem-Lacks s k)
  where
    elem-Lacks : (t : Text) → Lacks slash t → elem slash t ≡ false
    elem-Lacks [] h = refl
    elem-Lacks (d ∷ t) h = ground (arith, elem-Lacks t h.1)

elem-append : (c : ℕ) (s t : Text) → elem c (s ++ c ∷ t) ≡ true
unfolding elem
elem-append c [] t = ground arith
elem-append c (d ∷ s) t = ground (arith, elem-append c s t)

last_element-append : (s r : Text) → last_element (s ++ slash ∷ r) ≡ last_element r
unfolding last_element
last_element-append [] r = ground (arith, elem-append slash [] r)
last_element-append (c ∷ s) r = ground (arith, elem-append slash (c ∷ s) r, last_element-append s r)

last_element-join :
    (ss : List Text) (name : Text)
    → Lacks slash name
    → last_element (join (slash ∷ []) (ss ++ name ∷ [])) ≡ name
unfolding join
last_element-join [] name h = last_element-plain name h
last_element-join (s ∷ []) name h = last_element-append s name ∙ last_element-plain name h
last_element-join (s ∷ t ∷ ss) name h =
    last_element-append s (join (slash ∷ []) (t ∷ (ss ++ name ∷ [])))
    ∙ last_element-join (t ∷ ss) name h

-- The segments of a directory and a plain name, cleaned: the name stands last.
last_segment :
    (rooted : Bool) (ss : List Text) (name : Text)
    → IsPlain name
    → last_element (join (slash ∷ []) (reverse (clean_segments rooted [] (ss ++ name ∷ [])))) ≡ name
last_segment rooted ss name plain =
    rw
      (
        clean_segments-append rooted [] ss name plain,
        reverse-append (name ∷ []) (clean_segments rooted [] ss),
      )
      (last_element-join (reverse (clean_segments rooted [] ss)) name plain.one_element)

last_element-finish :
    (rooted : Bool) (out name : Text)
    → name ≢ []
    → last_element out ≡ name
    → last_element (if rooted then slash ∷ out else if text_eq out [] then dot ∷ [] else out) ≡ name
unfolding last_element
last_element-finish true out name h k = last_element-append [] out ∙ k
last_element-finish false [] name h k = absurd (h (sym k))
last_element-finish false (c ∷ out) name h k = unfold text_eq in k

last_element-clean :
    (p : Text) (ss : List Text) (name : Text)
    → IsPlain name
    → split slash p ≡ ss ++ name ∷ []
    → last_element (clean p) ≡ name
unfolding clean
last_element-clean p ss name plain e =
    last_element-finish (has_prefix p (slash ∷ [])) _ name plain.non_empty
      (rw e (last_segment (has_prefix p (slash ∷ [])) ss name plain))

-- The last element of `filepath.Join(dir, name)` is the name.
pub last_element-join_path :
    (dir name : Text) → IsPlain name → last_element (join_path (dir ∷ name ∷ [])) ≡ name
unfolding join_path
last_element-join_path [] [] plain = absurd (plain.non_empty refl)
last_element-join_path [] (c ∷ name) plain =
    unfold text_eq join in
    last_element-clean (c ∷ name) [] (c ∷ name) plain
      (split-plain slash (c ∷ name) plain.one_element)
last_element-join_path (d ∷ dir) [] plain = absurd (plain.non_empty refl)
last_element-join_path (d ∷ dir) (c ∷ name) plain =
    unfold text_eq join in
    last_element-clean (d ∷ dir ++ slash ∷ c ∷ name) (split slash (d ∷ dir)) (c ∷ name) plain
      (split-append slash (d ∷ dir) (c ∷ name) plain.one_element)
