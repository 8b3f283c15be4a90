-- ===== src/Http/Tunnel.antt =====
-- The handlers of src/http_server.c for tunnels, terminals and passwords.
pub mod Sequence
use sshpad.Prelude.{
  ℕ, Bool, true, false, ◌&&◌, ◌||◌, not, Option, none, some, List, [], ◌∷◌, ◌++◌, pos, Bytes, codes,
  if◌then◌else◌, str_eq,
}
use sshpad.Json.{JsonC, spaced}
use sshpad.Text.{print_int, find_text}
use sshpad.Config.Host.{SshHost, copy}
use sshpad.Config.Fields.{is_empty}
use sshpad.Tunnels.{Started, start_tunnel, stop_tunnel}
use sshpad.Askpass.{Requests, begin_wait, deliver_password, end_wait}
use sshpad.Http.{
  App, Response, World, Sent, terminate, starting_notice, event, Outcome, reply, wait, undefined,
  json_response, refuse, ok_text, with_json,
}

abbrev pub plain_text : Bytes → Response
plain_text text = record { status = 200; content_type = codes "text/plain"; body = text }

abbrev found_at : Option ℕ → Bool
found_at none = false
found_at (some i) = true

-- strstr(text, needle) is not null.
unfoldable pub occurs : Bytes → Bytes → Bool
occurs needle text = found_at (find_text needle text)

-- The search of handle_tunnel_start, which passes the name to strcmp for every host it meets.
unfoldable pub find_host : Bytes → List SshHost → Option SshHost
find_host name [] = none
find_host name (h ∷ hs) = if str_eq h.name name then some h else find_host name hs

abbrev pub started : App → Bytes → Started → Outcome
started app name s =
    if s.succeeded
    then reply (record app { tunnels = s.table }) (json_response 200 ok_text)
        (starting_notice name ∷ [])
    else reply (record app { tunnels = s.table })
        (json_response 500 (codes "{\"error\":\"failed to start tunnel\"}")) []

abbrev pub start_found : World → App → Option SshHost → Outcome
start_found w app none = refuse app 404 (codes "{\"error\":\"host not found\"}")
start_found w app (some h) = started app h.name (start_tunnel h.name w.stderr_fd w.pid app.tunnels)

abbrev pub start_any : World → App → List SshHost → Outcome
start_any w app [] = start_found w app none
start_any w app (h ∷ hs) = undefined

abbrev pub start_named : World → App → Option Bytes → Outcome
start_named w app none = start_any w app app.manager.hosts
start_named w app (some name) = start_found w app (find_host name app.manager.hosts)

abbrev pub stopped : App → Option ℕ → Outcome
stopped app none = refuse app 404 (codes "{\"error\":\"tunnel not running\"}")
stopped app (some pid) = reply app (json_response 200 ok_text) (terminate pid ∷ [])

abbrev pub stop_named : App → Option Bytes → Outcome
stop_named app none = stopped app none
stop_named app (some name) = stopped app (stop_tunnel name app.tunnels)

-- The answer, with `buf` of 64 bytes.
abbrev pub launched : App → Option ℕ → Outcome
launched app none = refuse app 500 (codes "{\"error\":\"failed to launch terminal\"}")
launched app (some pid) =
    refuse app 200 (copy 64 (codes "{\"ok\":true,\"pid\":" ++ print_int (pos pid) ++ codes "}"))

-- launch_terminal_with_ssh refuses a name that is null or empty.
abbrev pub launch_named : World → App → Option Bytes → Outcome
launch_named w app none = launched app none
launch_named w app (some name) =
    launched app (if is_empty name then none else w.launch_terminal name)

abbrev pub delivered : App → Option Requests → Outcome
delivered app none = refuse app 404 (codes "{\"error\":\"no pending request with that id\"}")
delivered app (some rs) = reply (record app { requests = rs }) (json_response 200 ok_text) []

-- A null id or password is refused by askpass_deliver_password.
abbrev pub deliver_named : App → Option Bytes → Option Bytes → Outcome
deliver_named app (some id) (some password) =
    delivered app (deliver_password id password app.requests)
deliver_named app _ _ = delivered app none

module _ (c : JsonC) where
  open c use {Json, new_string, new_object, object_get_ex, get_string, to_json_string}

  abbrev with_host : App → Option Json → (Option Bytes → Outcome) → Outcome
  with_host app none handle = refuse app 400 (codes "{\"error\":\"missing field: host\"}")
  with_host app (some j) handle = handle (get_string j)

  unfoldable pub handle_tunnel_start : World → App → Bytes → Outcome
  handle_tunnel_start w app body =
      with_json c app body (λ j. with_host app (object_get_ex j (codes "host")) (start_named w app))

  unfoldable pub handle_tunnel_stop : App → Bytes → Outcome
  handle_tunnel_stop app body =
      with_json c app body (λ j. with_host app (object_get_ex j (codes "host")) (stop_named app))

  unfoldable pub handle_terminal_open : World → App → Bytes → Outcome
  handle_terminal_open w app body =
      with_json c app body
        (λ j. with_host app (object_get_ex j (codes "host")) (launch_named w app))

  abbrev with_password : App → Option Json → Option Json → Outcome
  with_password app (some id) (some password) =
      deliver_named app (get_string id) (get_string password)
  with_password app _ _ =
      refuse app 400 (codes "{\"error\":\"missing field: requestId or password\"}")

  unfoldable pub handle_password : App → Bytes → Outcome
  handle_password app body = with_json c app body (λ j.
      with_password app (object_get_ex j (codes "requestId")) (object_get_ex j (codes "password")))

  -- The loop over the hosts: is the host meant by the prompt.
  unfoldable pub is_prompted : Bytes → SshHost → Bool
  is_prompted prompt h =
      (not (is_empty h.hostname) && occurs h.hostname prompt) || occurs h.name prompt

  unfoldable pub host_alias : Bytes → List SshHost → Bytes
  host_alias prompt [] = []
  host_alias prompt (h ∷ hs) = if is_prompted prompt h then h.name else host_alias prompt hs

  abbrev alias_of : Option Bytes → List SshHost → Bytes
  alias_of none hosts = []
  alias_of (some prompt) hosts = host_alias prompt hosts

  abbrev prompt_text : Option Bytes → Bytes
  prompt_text none = codes "Password:"
  prompt_text (some prompt) = prompt

  -- The data of the event `password_request`.
  unfoldable pub password_request : Bytes → Option Bytes → List SshHost → Bytes
  password_request id prompt hosts = to_json_string spaced (
      new_object (
        (codes "requestId", new_string id)
        ∷ (codes "host", new_string (alias_of prompt hosts))
        ∷ (codes "prompt", new_string (prompt_text prompt))
        ∷ []))

  abbrev waiting : App → List Sent → Option (Requests × ℕ) → Outcome
  waiting app sent none = reply app (plain_text []) sent
  waiting app sent (some (rs, slot)) = wait (record app { requests = rs }) slot sent

  -- handle_internal_askpass up to the wait; `id` and `prompt` are the arguments of the request.
  unfoldable pub handle_internal_askpass : App → Option Bytes → Option Bytes → Outcome
  handle_internal_askpass app none prompt =
      refuse app 400 (codes "{\"error\":\"missing id parameter\"}")
  handle_internal_askpass app (some id) prompt =
      if is_empty id
      then refuse app 400 (codes "{\"error\":\"missing id parameter\"}")
      else waiting app
          (event (codes "password_request") (password_request id prompt app.manager.hosts) ∷ [])
          (begin_wait id app.requests)

abbrev pub answer_text : Option Bytes → Bytes
answer_text none = []
answer_text (some password) = password

-- handle_internal_askpass after the wait, by delivery or by timeout.
unfoldable pub end_internal_askpass : App → ℕ → Outcome
end_internal_askpass app slot =
    reply (record app { requests = (end_wait slot app.requests).1 })
      (plain_text (answer_text (end_wait slot app.requests).0)) []
