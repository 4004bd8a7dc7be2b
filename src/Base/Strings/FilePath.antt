-- ===== src/Base/Strings/FilePath.antt =====
-- `path` and `path/filepath` on a system whose separator is the slash.
pub mod Plain
pub mod Clean
use Prim.Native.Nat.{ℕ, zero, suc}
use mathlib.Core.Path.{◌≡◌, refl}
use mathlib.Core.Bool.{Bool, true, false, ◌||◌, ◌&&◌}
use mathlib.Core.List.{List, [], ◌∷◌, ◌++◌, reverse}
use smtp_store.Base.Tests.{◌==◌, if◌then◌else◌}
use smtp_store.Base.Strings.{Text, codes, text_eq, has_prefix, elem}
use smtp_store.Base.Strings.Split.{split, join}

abbrev pub slash : ℕ
slash = b'/'

abbrev pub dot : ℕ
dot = b'.'

-- `..` goes up, unless there is nothing to leave: at the root it is dropped, and in a relative path
-- it stays.
unfoldable pub go_up : Bool → List Text → List Text
go_up rooted [] = if rooted then [] else (dot ∷ dot ∷ []) ∷ []
go_up rooted (top ∷ stack) =
    if text_eq top (dot ∷ dot ∷ []) then (dot ∷ dot ∷ []) ∷ top ∷ stack else stack

-- One segment, on the reversed segments before it.
unfoldable pub clean_step : Bool → List Text → Text → List Text
unfolding go_up text_eq
clean_step rooted stack s =
    if text_eq s [] || text_eq s (dot ∷ [])
    then stack
    else if text_eq s (dot ∷ dot ∷ [])
    then go_up rooted stack
    else s ∷ stack

unfoldable pub clean_segments : Bool → List Text → List Text → List Text
unfolding clean_step
clean_segments rooted stack [] = stack
clean_segments rooted stack (s ∷ ss) = clean_segments rooted (clean_step rooted stack s) ss

-- `filepath.Clean`.
unfoldable pub clean : Text → Text
unfolding clean_segments split join has_prefix
clean p =
    let rooted = has_prefix p (slash ∷ []) in
    let out = join (slash ∷ []) (reverse (clean_segments rooted [] (split slash p))) in
    if rooted then slash ∷ out else if text_eq out [] then dot ∷ [] else out

unfoldable pub non_empty : List Text → List Text
non_empty [] = []
non_empty (p ∷ ps) = let rest = non_empty ps in if text_eq p [] then rest else p ∷ rest

-- `filepath.Join`: empty elements are left out, and the result is clean.
unfoldable pub join_path : List Text → Text
unfolding non_empty
join_path ps =
    let parts = non_empty ps in
    if text_eq (join (slash ∷ []) parts) [] then [] else clean (join (slash ∷ []) parts)

-- What follows the last slash.
unfoldable pub last_element : Text → Text
last_element [] = []
last_element (c ∷ s) = if elem slash (c ∷ s) then last_element s else c ∷ s

unfoldable pub trim_slashes : Text → Text
trim_slashes [] = []
trim_slashes (c ∷ s) =
    let rest = trim_slashes s in if c == slash && text_eq rest [] then [] else c ∷ rest

-- `filepath.Base`.
unfoldable pub base_name : Text → Text
unfolding last_element trim_slashes
base_name p =
    if text_eq p []
    then dot ∷ []
    else if text_eq (trim_slashes p) []
    then slash ∷ []
    else last_element (trim_slashes p)

unfoldable pub last_dot : Text → Text
last_dot [] = []
last_dot (c ∷ s) = if c == dot && (if elem dot s then false else true) then c ∷ s else last_dot s

-- `filepath.Ext`: from the last dot of the last element.
unfoldable pub ext : Text → Text
unfolding last_element last_dot elem
ext p = last_dot (last_element p)

clean_test : clean (codes "/a//b/../c/.") ≡ codes "/a/c"
unfolding clean
clean_test = refl

clean_up_test : clean (codes "../../x/..") ≡ codes "../.."
unfolding clean
clean_up_test = refl

ext_test : ext (codes "dir.d/clip.tar.MP4") ≡ codes ".MP4"
unfolding ext
ext_test = refl

base_test : base_name (codes "/srv/mail//") ≡ codes "mail"
unfolding base_name elem text_eq
base_test = refl
