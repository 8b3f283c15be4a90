-- ===== src/Http/Static/Types.antt =====
-- The content types of src/http_server.c.
use sshpad.Prelude.{true, [], ◌∷◌, ◌≡◌, ◌≢◌, Bytes, arith, codes}
use sshpad.Text.{starts_with, find_text}
use sshpad.Http.Tunnel.{occurs}
use sshpad.Http.Static.{first_type, get_content_type}

starts_with_json :
    (s : Bytes) → starts_with (codes ".json") s ≡ true → starts_with (codes ".js") s ≡ true
unfolding starts_with
starts_with_json s h = ground arith

occurs_json : (s : Bytes) → occurs (codes ".json") s ≡ true → occurs (codes ".js") s ≡ true
unfolding occurs find_text
occurs_json [] h = ground (arith, starts_with_json [])
occurs_json (x ∷ s) h = ground (arith, starts_with_json (x ∷ s), occurs_json s)

-- No file is served as JSON: a path with ".json" in it has ".js" in it, which is looked for before.
pub get_content_type_json : (path : Bytes) → get_content_type path ≢ codes "application/json"
unfolding get_content_type first_type
get_content_type_json path bad = ground (arith, occurs_json path)
