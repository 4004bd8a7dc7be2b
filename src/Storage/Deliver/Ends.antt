-- ===== src/Storage/Deliver/Ends.antt =====
-- `ProcessAndStore` returns: the search for a free name ends.
use smtp_store.Base.{ℕ, ◌≢◌, refl, Option, none, some, Text, Unicode}
use smtp_store.Base.Strings.Split.{Lacks}
use smtp_store.Base.Strings.FilePath.{slash}
use smtp_store.Base.Os.{Error, Outcome, ok, err}
use smtp_store.Storage.Body.{Disk, write_body, plain_call}
use smtp_store.Storage.Body.Laws.{write_body-ne-none}
use smtp_store.Storage.Message.{Library, Message, parse_message}
use smtp_store.Storage.Deliver.{
  Calendar, after_body, after_mkdir, after_parse, message_dir, process_and_store,
}

after_body-ne-none :
    (m : Message) (dir : Text) (o : Option (Outcome (Text × Text) × Disk))
    → o ≢ none
    → after_body m dir o ≢ none
unfolding after_body
after_body-ne-none m dir none h = absurd (h refl)
after_body-ne-none m dir (some (err e, d)) h = λ k. cc
after_body-ne-none m dir (some (ok (prefix, path), d)) h = λ k. cc

after_mkdir-ne-none :
    (m : Message) (dir timestamp : Text) (r : Option Error × Disk)
    → Lacks slash timestamp
    → after_mkdir m dir timestamp r ≢ none
unfolding after_mkdir
after_mkdir-ne-none m dir timestamp (some e, d) plain = λ k. cc
after_mkdir-ne-none m dir timestamp (none, d) plain =
    after_body-ne-none m dir (write_body dir timestamp m.body d)
      (write_body-ne-none dir timestamp m.body d plain)

module _ ⦃u : Unicode⦄ (calendar : Calendar) where
  after_parse-ne-none :
      (root : Text) (received_at : ℕ) (o : Outcome Message) (d : Disk)
      → Lacks slash (calendar.clock received_at)
      → after_parse calendar root received_at o d ≢ none
  unfolding after_parse
  after_parse-ne-none root received_at (err e) d plain = λ k. cc
  after_parse-ne-none root received_at (ok m) d plain =
      after_mkdir-ne-none m (message_dir calendar root m.recipient received_at)
        (calendar.clock received_at) (plain_call d) plain

  -- Where the time of day is printed with no slash, storing a message returns, whatever the mail
  -- holds, whatever files there are and whatever calls fail: it never looks for a free name for ever.
  pub process_and_store-ne-none :
      (lib : Library) (root raw : Text) (received_at : ℕ) (d : Disk)
      → Lacks slash (calendar.clock received_at)
      → process_and_store calendar lib root raw received_at d ≢ none
  unfolding process_and_store
  process_and_store-ne-none lib root raw received_at d plain =
      after_parse-ne-none root received_at (parse_message lib raw) d plain
