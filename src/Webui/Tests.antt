-- ===== src/Webui/Tests.antt =====
-- A web server with one user and one stored file.
use smtp_store.Base.{
  ℕ, ◌+◌, ◌*◌, ◌^◌, ◌/◌, ◌≤◌, ◌<◌, ◌≡◌, refl, arith, true, false, none, some, ◌⊎◌, [], ◌∷◌, ◌++◌,
  Text, codes, latin1, All, text_eq, to_lower, trim_space, has_prefix, is_blank, trim_prefix,
}
use smtp_store.Base.Os.{ok, err, not_exist}
use smtp_store.Base.Dict.{lookup}
use smtp_store.Base.Strings.Split.{split, Lacks, join}
use smtp_store.Base.Strings.FilePath.{slash, join_path, clean}
use smtp_store.Base.Strings.FilePath.Plain.{IsPlain}
use smtp_store.Base.Strings.Decimal.{decimal}
use smtp_store.Webui.Paths.{requested, absolute, resolve_path, breadcrumbs, root_crumb}
use smtp_store.Webui.Paths.Inside.{rooted, IsResolved, resolve_path-IsResolved}
use smtp_store.Webui.Paths.Crumbs.{links_behind, breadcrumbs-links}
use smtp_store.Webui.Session.{
  Keys, bar, create_session_token, verify_session_token, authenticated_user,
}
use smtp_store.Webui.Session.Laws.{IsLawful, verify_session_token-create}
use smtp_store.Webui.Session.Forgery.{IsSigned, verify_session_token-IsSigned}
use smtp_store.Webui.Files.{Info, Disk, nth, human_size, detect_content_type}
use smtp_store.Webui.Files.Size.{human_size_lem}
use smtp_store.Webui.Handlers.{get, App, Request, start_session, login_with, route}
use smtp_store.Webui.Handlers.Guarded.{IsAllowed, is_content, route-IsAllowed}
use smtp_store.Webui.Handlers.Inside.{route-AtInside}
use smtp_store.Webui.Handlers.Answers.{AtInside}
use smtp_store.Webui.Handlers.Login.{login_with-authenticated_user, login_with-bar}

-- A toy signature.
abbrev keys : Keys
keys = record { sign = λ s. 7 ∷ []; encode = λ s. s; decode = λ s. some s }

keys-IsLawful : IsLawful keys
keys-IsLawful = record { decode-encode = λ s. refl; bytes = λ s. (omega arith, tt) }

srv-IsPlain : IsPlain (codes "srv")
srv-IsPlain = record {
  non_empty = cc;
  one_element = (omega arith, (omega arith, (omega arith, tt)));
  not_dot = cc;
  not_dots = cc;
}

m-IsPlain : IsPlain (codes "m")
m-IsPlain = record { non_empty = cc; one_element = (omega arith, tt); not_dot = cc; not_dots = cc }

names-IsPlain : All IsPlain (codes "srv" ∷ codes "m" ∷ [])
names-IsPlain = (srv-IsPlain, (m-IsPlain, tt))

resolve_path-IsResolved_example :
    IsResolved
      (err not_exist)
      (codes "srv")
      (codes "m" ∷ [])
      names-IsPlain
      (requested (λ s. ok s) (codes "/view/../x") (codes "/view/"))
      (resolve_path
        (err not_exist)
        (rooted (codes "srv" ∷ codes "m" ∷ []))
        (λ s. ok s)
        (codes "/view/../x")
        (codes "/view/"))
resolve_path-IsResolved_example =
    resolve_path-IsResolved (err not_exist) (codes "srv") (codes "m" ∷ []) names-IsPlain (λ s. ok s)
      (codes "/view/../x") (codes "/view/")

breadcrumbs-links_example :
    breadcrumbs (λ s. s) (join (slash ∷ []) (codes "srv" ∷ codes "m" ∷ []))
    ≡ root_crumb (λ s. s) ∷ links_behind (λ s. s) [] (codes "srv" ∷ codes "m" ∷ [])
breadcrumbs-links_example = breadcrumbs-links (λ s. s) (codes "srv") (codes "m" ∷ []) names-IsPlain

srv-Lacks : Lacks bar (codes "srv")
srv-Lacks = (omega arith, (omega arith, (omega arith, tt)))

verify_session_token-create_example :
    verify_session_token keys ⦃u = latin1⦄ 0 (create_session_token keys (codes "srv") 9)
    ≡ some (to_lower ⦃u = latin1⦄ (trim_space ⦃u = latin1⦄ (codes "srv")))
verify_session_token-create_example =
    verify_session_token-create keys keys-IsLawful ⦃u = latin1⦄ 0 (codes "srv") 9 srv-Lacks
      (omega arith) (omega arith)

accepted_token :
    verify_session_token keys ⦃u = latin1⦄ 0 (create_session_token keys (codes "srv") 9)
    ≡ some (to_lower ⦃u = latin1⦄ (trim_space ⦃u = latin1⦄ (codes "srv")))
accepted_token =
    verify_session_token-create keys keys-IsLawful ⦃u = latin1⦄ 0 (codes "srv") 9 srv-Lacks
      (omega arith) (omega arith)

verify_session_token-IsSigned_example :
    (decoded username expires signature : Text) × (keys.decode
        (create_session_token keys (codes "srv") 9)
      ≡ some decoded)
    × (split bar decoded ≡ username ∷ expires ∷ signature ∷ [])
    × IsSigned keys ⦃u = latin1⦄ 0
        (to_lower ⦃u = latin1⦄ (trim_space ⦃u = latin1⦄ (codes "srv")))
        username
        expires
        signature
verify_session_token-IsSigned_example =
    verify_session_token-IsSigned keys ⦃u = latin1⦄ 0 (create_session_token keys (codes "srv") 9)
      (to_lower ⦃u = latin1⦄ (trim_space ⦃u = latin1⦄ (codes "srv"))) accepted_token

abbrev format_tenth : ℕ → ℕ → Text
format_tenth n div = codes "1.5"

abbrev info : Info
info = record { name = codes "a.txt"; is_dir = false; size = 3; modified = 0 }

abbrev disk : Disk ℕ
disk = record {
  stat = λ p. ok info;
  read_dir = λ p. err not_exist;
  read_file = λ p. err not_exist;
  sniff = λ p. ok (codes "text/plain");
  load_sidecar = λ p. none;
  walk = [];
  type_by_extension = λ e. codes "text/plain";
  format_time = λ t. [];
  format_tenth = format_tenth;
}

abbrev app : App ℕ
app = record {
  root_abs = rooted (codes "srv" ∷ codes "m" ∷ []);
  ui_users = (codes "admin", codes "secret") ∷ [];
  session_ttl = 3600000000000;
  media_token = codes "t";
  keys = keys;
  index = none;
  disk = disk;
  cwd = err not_exist;
  path_unescape = λ s. ok s;
  path_escape = λ s. s;
}

abbrev request : Request
request = record {
  method = get;
  url_path = codes "/media/a.txt";
  token = codes "t";
  cookie = none;
  form = none;
  tls = false;
  forwarded_proto = [];
}

human_size_lem_example :
    ((1536 < 1024) × (human_size format_tenth 1536 ≡ some (decimal 1536 ++ codes " B")))
    ⊎ ((exp letter : ℕ) × (1024 ^ (exp + 1) ≤ 1536)
        × (1536 < 1024 ^ (exp + 1) * 1024)
        × (nth (codes "KMGTPE") exp ≡ some letter)
        × (human_size format_tenth 1536
            ≡ some (format_tenth 1536 (1024 ^ (exp + 1)) ++ (codes " " ++ (letter ∷ codes "iB")))))
human_size_lem_example = human_size_lem format_tenth 1536 (omega arith)

request-is_content : is_content (route ⦃u = latin1⦄ app 0 request) ≡ true
unfolding is_content route text_eq has_prefix is_blank resolve_path split trim_prefix absolute
    join_path join clean detect_content_type
request-is_content = refl

route-IsAllowed_example : IsAllowed ⦃u = latin1⦄ app 0 request
route-IsAllowed_example = route-IsAllowed ⦃u = latin1⦄ app 0 request request-is_content

route-AtInside_example :
    AtInside ⦃u = latin1⦄ app (codes "srv" ∷ codes "m" ∷ []) (route ⦃u = latin1⦄ app 0 request)
route-AtInside_example =
    route-AtInside ⦃u = latin1⦄ app (codes "srv") (codes "m" ∷ []) names-IsPlain refl 0 request

admin_name : to_lower ⦃u = latin1⦄ (trim_space ⦃u = latin1⦄ (codes " Admin")) ≡ codes "admin"
unfolding to_lower trim_space
admin_name = refl

admin-lookup : lookup (codes "admin") app.ui_users ≡ some (codes "secret")
unfolding lookup text_eq
admin-lookup = refl

login_with-authenticated_user_example :
    (token : Text) × (login_with ⦃u = latin1⦄ app 0 false (some (codes "admin", codes "secret"))
      ≡ start_session token ((0 + app.session_ttl) / 1000000000) false)
    × (authenticated_user keys ⦃u = latin1⦄ 5 app.ui_users (some token)
        ≡ some (to_lower ⦃u = latin1⦄ (trim_space ⦃u = latin1⦄ (codes "admin"))))
unfolding to_lower trim_space lookup text_eq
login_with-authenticated_user_example =
    login_with-authenticated_user ⦃u = latin1⦄ app 0 5 false (codes "admin") (codes "secret")
      keys-IsLawful refl
      (omega arith, (omega arith, (omega arith, (omega arith, (omega arith, tt))))) refl
      (omega arith) (omega arith)

-- A user whose name holds a `|`.
abbrev barred : App ℕ
barred = record app { ui_users = (codes "a" ++ bar ∷ codes "b", codes "secret") ∷ [] }

barred_name :
    to_lower ⦃u = latin1⦄ (trim_space ⦃u = latin1⦄ (codes " A|b")) ≡ codes "a" ++ bar ∷ codes "b"
unfolding to_lower trim_space
barred_name = refl

barred_password :
    lookup (to_lower ⦃u = latin1⦄ (trim_space ⦃u = latin1⦄ (codes " A|b"))) barred.ui_users
    ≡ some (codes "secret")
unfolding lookup text_eq to_lower trim_space
barred_password = refl

login_with-bar_example :
    (token : Text) × (login_with ⦃u = latin1⦄ barred 0 true (some (codes " A|b", codes "secret"))
      ≡ start_session token ((0 + barred.session_ttl) / 1000000000) true)
    × ((later : ℕ) → authenticated_user keys ⦃u = latin1⦄ later barred.ui_users (some token) ≡ none)
login_with-bar_example =
    login_with-bar ⦃u = latin1⦄ barred 0 true (codes " A|b") (codes "secret") (codes "a")
      (codes "b") keys-IsLawful barred_name barred_password
