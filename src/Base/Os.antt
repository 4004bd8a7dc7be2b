-- ===== src/Base/Os.antt =====
-- Errors of Go, and the operating system's calls: each takes the next entry of a script of faults,
-- which says whether the call fails for a reason outside the program.
use Prim.Native.Nat.{ℕ}
use mathlib.Core.Bool.{Bool, true, false, ◌||◌}
use mathlib.Core.Option.{Option, none}
use mathlib.Core.List.{List, [], ◌∷◌, ◌++◌}
use smtp_store.Base.Tests.{◌==◌}
use smtp_store.Base.Strings.{Text, codes}

-- Error numbers of Linux, in the numbering of `syscall`.
abbrev pub Errno : Type 0
Errno = ℕ

abbrev pub enoent : Errno
enoent = 2

abbrev pub eexist : Errno
eexist = 17

-- An error value: the numbers in its chain, which `errors.Is` looks for, and its `Error()` text.
pub record Error : Type 0 where
  pub chain : List Errno
  pub message : Text

unfoldable pub has_errno : List Errno → Errno → Bool
has_errno [] n = false
has_errno (m ∷ ms) n = m == n || has_errno ms n

-- `errors.Is(err, errno)`.
unfoldable pub errors_is : Error → Errno → Bool
unfolding has_errno
errors_is e n = has_errno e.chain n

-- `errors.New` and `fmt.Errorf` with no `%w`.
abbrev pub new_error : Text → Error
new_error m = record { chain = []; message = m }

abbrev pub not_exist : Error
not_exist = record { chain = enoent ∷ []; message = codes "no such file or directory" }

abbrev pub already_exists : Error
already_exists = record { chain = eexist ∷ []; message = codes "file exists" }

-- What the next call meets: `none` is no fault. A write that fails may have written a part.
pub record Fault : Type 0 where
  pub error : Error
  pub written : ℕ

abbrev pub Faults : Type 0
Faults = List (Option Fault)

-- A Go result `(a, err)` with one of the two.
pub data Outcome {ℓ} (A : Type ℓ) : Type ℓ where
  ok : A → Outcome A
  err : Error → Outcome A

infixl 5 ◌>>=◌
abbrev pub ◌>>=◌ {ℓ κ} : {A : Type ℓ} {B : Type κ} → Outcome A → (A → Outcome B) → Outcome B
ok a >>= f = f a
err e >>= f = err e

-- `fmt.Errorf("<text>: %w", err)`.
unfoldable pub wrap : Text → Error → Error
wrap t e = record { chain = e.chain; message = t ++ codes ": " ++ e.message }

-- The fault that the next call meets, and the script behind it.
unfoldable pub next_fault : Faults → Option Fault × Faults
next_fault [] = (none, [])
next_fault (f ∷ fs) = (f, fs)

-- A check that returns with an error or goes on.
infixl 5 ◌>>◌
abbrev pub ◌>>◌ {ℓ} : {B : Type ℓ} → Outcome (Unit {0}) → Outcome B → Outcome B
ok tt >> k = k
err e >> k = err e

-- `if failing { return errors.New(message) }`.
abbrev pub fail_if : Bool → Text → Outcome (Unit {0})
fail_if true message = err (new_error message)
fail_if false message = ok tt
