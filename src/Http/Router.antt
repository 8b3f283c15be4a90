-- ===== src/Http/Router.antt =====
-- request_handler of src/http_server.c, which the web server calls several times for one request: first
-- to begin it, then for each piece of a body, and once more to answer it.
pub mod Body
pub mod Rejected
pub mod Locked
use sshpad.Prelude.{
  ℕ, Bool, true, false, Option, none, some, List, [], ◌∷◌, ◌++◌, Bytes, codes, if◌then◌else◌,
  str_eq,
}
use sshpad.Json.{JsonC}
use sshpad.Text.{c_str}
use sshpad.Config.Fields.{is_empty}
use sshpad.Sse.{add_client}
use sshpad.Http.{App, World, Outcome, stream, refuse}
use sshpad.Http.Tunnel.{
  handle_tunnel_start, handle_tunnel_stop, handle_terminal_open, handle_password,
  handle_internal_askpass,
}
use sshpad.Http.Config.{
  handle_config_status, handle_config_setup, handle_config_unlock, handle_config_use_local,
  handle_config_change_password, handle_config_r2_settings_get, handle_config_r2_settings_post,
  handle_config_r2_test,
}
use sshpad.Http.Host.{handle_get_hosts, handle_get_status, handle_host_save, handle_host_delete}
use sshpad.Http.Static.{serve_static}

-- The line of a request, and its arguments `id` and `prompt`.
pub record Query : Type 0 where
  pub method : Bytes
  pub url : Bytes
  pub id : Option Bytes
  pub prompt : Option Bytes

-- What *con_cls holds: nothing, the body that has arrived so far, or the mark of another method. A body
-- whose `data` is null is an empty one.
pub data Conn : Type 0 where
  fresh : Conn
  posted : Bytes → Conn
  marked : Conn

-- One call: MHD_NO for lack of memory, MHD_YES to be called again, or the answer.
pub data Call : Type 0 where
  fails : Conn → Call
  goes_on : Conn → Call
  answers : Conn → Outcome → Call

abbrev handle_sse : World → App → Outcome
handle_sse w app =
    stream (record app { clients = (add_client w.sse_pipe w.sse_made app.clients).0 })
      (add_client w.sse_pipe w.sse_made app.clients).1

abbrev pub is_post : Query → Bool
is_post q = str_eq q.method (codes "POST")

abbrev is_get : Query → Bool
is_get q = str_eq q.method (codes "GET")

module _ (c : JsonC) where
  unfoldable pub route_post : World → App → Bytes → Bytes → Outcome
  route_post w app url body =
      if str_eq url (codes "/api/tunnel/start")
      then handle_tunnel_start c w app body
      else if str_eq url (codes "/api/tunnel/stop")
      then handle_tunnel_stop c app body
      else if str_eq url (codes "/api/terminal/open")
      then handle_terminal_open c w app body
      else if str_eq url (codes "/api/password")
      then handle_password c app body
      else if str_eq url (codes "/api/config/setup")
      then handle_config_setup c w app body
      else if str_eq url (codes "/api/config/unlock")
      then handle_config_unlock c w app body
      else if str_eq url (codes "/api/host/save")
      then handle_host_save c w app body
      else if str_eq url (codes "/api/host/delete")
      then handle_host_delete c w app body
      else if str_eq url (codes "/api/config/use-local")
      then handle_config_use_local c w app
      else if str_eq url (codes "/api/config/change-password")
      then handle_config_change_password c w app body
      else if str_eq url (codes "/api/config/r2-settings")
      then handle_config_r2_settings_post c w app body
      else if str_eq url (codes "/api/config/r2-test")
      then handle_config_r2_test c w app body
      else refuse app 404 (codes "{\"error\":\"unknown endpoint\"}")

  unfoldable pub route_get : World → App → Query → Outcome
  route_get w app q =
      if str_eq q.url (codes "/api/hosts")
      then handle_get_hosts c app
      else if str_eq q.url (codes "/api/events")
      then handle_sse w app
      else if str_eq q.url (codes "/api/status")
      then handle_get_status app
      else if str_eq q.url (codes "/api/internal/askpass")
      then handle_internal_askpass c app q.id q.prompt
      else if str_eq q.url (codes "/api/config/status")
      then handle_config_status app
      else if str_eq q.url (codes "/api/config/r2-settings")
      then handle_config_r2_settings_get c app
      else serve_static w app q.url

  abbrev answer_other : World → App → Query → Conn → Call
  answer_other w app q conn =
      if is_get q
      then answers conn (route_get w app q)
      else answers conn (refuse app 405 (codes "{\"error\":\"method not allowed\"}"))

  -- A piece of the body, whose every byte is taken; none is the end of it.
  abbrev take_body : World → App → Query → Bytes → Bytes → Bool → Call
  take_body w app q so_far piece memory =
      if is_empty piece
      then answers fresh (route_post w app q.url (c_str so_far))
      else if memory
      then goes_on (posted (so_far ++ piece))
      else fails (posted so_far)

  -- A POST request never holds the mark: its first call made it a body.
  abbrev called_again : World → App → Query → Bytes → Bool → Conn → Call
  called_again w app q piece memory (posted so_far) =
      if is_post q
      then take_body w app q so_far piece memory
      else answer_other w app q (posted so_far)
  called_again w app q piece memory conn =
      if is_post q then fails conn else answer_other w app q conn

  abbrev called_first : Query → Bool → Call
  called_first q memory =
      if is_post q then (if memory then goes_on (posted []) else fails fresh) else goes_on marked

  -- `piece` is upload_data, `memory` says whether calloc or realloc succeeds.
  unfoldable pub request_handler : World → App → Query → Bytes → Bool → Conn → Call
  request_handler w app q piece memory fresh = called_first q memory
  request_handler w app q piece memory (posted so_far) =
      called_again w app q piece memory (posted so_far)
  request_handler w app q piece memory marked = called_again w app q piece memory marked
