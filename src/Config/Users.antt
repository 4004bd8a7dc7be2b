-- ===== src/Config/Users.antt =====
-- `UserMap` and `UIUserMap` of internal/config/config.go.
use smtp_store.Base.{List, [], ◌∷◌, Text, Unicode}
use smtp_store.Base.Dict.{Dict, insert}
use smtp_store.Config.{Config, UserCreds}
use smtp_store.Config.Validate.{key_of}

module _ ⦃u : Unicode⦄ where
  -- A later user of the same key replaces an earlier one.
  unfoldable pub add_users : Dict Text → List UserCreds → Dict Text
  add_users out [] = out
  add_users out (c ∷ cs) = add_users (insert (key_of c.username) c.password out) cs

  module _ {F : Type 0} where
    unfoldable pub user_map : Config F → Dict Text
    unfolding add_users
    user_map c = add_users [] c.users

    unfoldable pub ui_user_map : Config F → Dict Text
    unfolding add_users
    ui_user_map c = add_users [] c.ui_users
