-- ===== src/Http/Static.antt =====
-- serve_static of src/http_server.c: the files of the browser part.
pub mod Types
pub mod Directory
use sshpad.Prelude.{
  ℕ, Bool, true, false, Option, none, some, List, [], ◌∷◌, ◌++◌, Bytes, codes, if◌then◌else◌,
  str_eq,
}
use sshpad.Config.Host.{copy}
use sshpad.Http.{
  App, Response, World, File, no_file, no_memory, read_error, content, Outcome, reply,
}
use sshpad.Http.Tunnel.{occurs}

-- The tests, in their order, and what each one answers.
abbrev pub content_types : List (Bytes × Bytes)
content_types =
    (codes ".html", codes "text/html; charset=utf-8")
    ∷ (codes ".css", codes "text/css; charset=utf-8")
    ∷ (codes ".js", codes "application/javascript; charset=utf-8")
    ∷ (codes ".svg", codes "image/svg+xml")
    ∷ (codes ".png", codes "image/png")
    ∷ (codes ".woff2", codes "font/woff2")
    ∷ (codes ".woff", codes "font/woff")
    ∷ (codes ".json", codes "application/json")
    ∷ []

unfoldable pub first_type : Bytes → List (Bytes × Bytes) → Bytes
first_type path [] = codes "application/octet-stream"
first_type path ((ending, type) ∷ rest) = if occurs ending path then type else first_type path rest

unfoldable pub get_content_type : Bytes → Bytes
get_content_type path = first_type path content_types

unfoldable pub file_path : Bytes → Bytes → Bytes
file_path ui_dir url =
    if str_eq url (codes "/")
    then copy 1024 (ui_dir ++ codes "/index.html")
    else copy 1024 (ui_dir ++ url)

-- The two answers of status 500 are given no content type.
abbrev pub served : App → Bytes → File → Outcome
served app path no_file =
    reply app
      (record { status = 404; content_type = codes "text/plain"; body = codes "404 Not Found" }) []
served app path no_memory =
    reply app (record { status = 500; content_type = []; body = codes "500 Internal Server Error" })
      []
served app path read_error =
    reply app (record { status = 500; content_type = []; body = codes "500 Read Error" }) []
served app path (content bytes) =
    reply app (record { status = 200; content_type = get_content_type path; body = bytes }) []

unfoldable pub serve_static : World → App → Bytes → Outcome
serve_static w app url = served app (file_path w.ui_dir url) (w.open_file (file_path w.ui_dir url))
