-- ===== src/Storage/Result.antt =====
-- `Result` of internal/storage/storage.go: where a message was written.
use smtp_store.Base.{List, Text}

pub record Result : Type 0 where
  pub recipient : Text
  pub directory : Text
  pub body_path : Text
  pub attachment_paths : List Text
