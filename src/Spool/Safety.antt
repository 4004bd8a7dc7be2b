-- ===== src/Spool/Safety.antt =====
-- Where a spooled message is: the invariant of the three directories, and that no step of the worker
-- loses a message.
pub mod Moves
pub mod Worker
pub mod Ends
pub mod Retries
pub mod Drain
use smtp_store.Base.{ℕ, ◌≡◌, none, some, ◌⊎◌, Option, Text}
use smtp_store.Base.Dict.{lookup}
use smtp_store.Spool.{Spool}

-- At most one of three places is taken.
abbrev pub AtMostOne : Option Text → Option Text → Option Text → Type 0
AtMostOne a b c =
    ((a ≡ none) ⊎ (b ≡ none)) × (((a ≡ none) ⊎ (c ≡ none)) × ((b ≡ none) ⊎ (c ≡ none)))

module _ {S : Type 0} where
  -- No name stands in two of the directories.
  abbrev pub IsValid : Spool S → Type 0
  IsValid w =
      (n : Text) → AtMostOne (lookup n w.pending) (lookup n w.processing) (lookup n w.failed)

  -- The item `n` is spooled, with its content.
  abbrev pub Holds : Text → Text → Spool S → Type 0
  Holds n content w =
      (lookup n w.pending ≡ some content)
      ⊎ ((lookup n w.processing ≡ some content) ⊎ (lookup n w.failed ≡ some content))

  -- From one state to another the invariant holds on and no item is lost.
  abbrev pub Carries : Spool S → Spool S → Type 0
  Carries w w' =
      IsValid w → IsValid w' × ((n content : Text) → Holds n content w → Holds n content w')
