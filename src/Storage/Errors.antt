-- ===== src/Storage/Errors.antt =====
-- `IsUnavailableError` of internal/storage/storage.go.
pub mod Exact
use smtp_store.Base.{Bool, true, false, ◌||◌, Option, none, some, List, [], ◌∷◌}
use smtp_store.Base.{Text, codes, Unicode, contains, to_lower, if◌then◌else◌}
use smtp_store.Base.Os.{Error, Errno, errors_is}

-- EROFS, ESTALE, ENOTCONN, ENODEV, ENXIO, EHOSTDOWN, EHOSTUNREACH
abbrev pub unavailable_errnos : List Errno
unavailable_errnos = 30 ∷ 116 ∷ 107 ∷ 19 ∷ 6 ∷ 112 ∷ 113 ∷ []

abbrev pub unavailable_needles : List Text
unavailable_needles =
    codes "read-only file system"
    ∷ codes "stale file handle"
    ∷ codes "transport endpoint is not connected"
    ∷ codes "host is down"
    ∷ codes "no route to host"
    ∷ []

unfoldable pub is_any_of : Error → List Errno → Bool
is_any_of e [] = false
is_any_of e (n ∷ ns) = errors_is e n || is_any_of e ns

unfoldable pub contains_any : Text → List Text → Bool
contains_any s [] = false
contains_any s (p ∷ ps) = contains s p || contains_any s ps

module _ ⦃u : Unicode⦄ where
  unfoldable pub is_unavailable_error : Option Error → Bool
  unfolding is_any_of contains_any
  is_unavailable_error none = false
  is_unavailable_error (some e) =
      if is_any_of e unavailable_errnos
      then true
      else contains_any (to_lower e.message) unavailable_needles
