-- ===== src/Http/Host.antt =====
-- The handlers of src/http_server.c for the hosts.
pub mod Listed
use sshpad.Prelude.{
  ℕ, Bool, true, false, not, ◌&&◌, Option, none, some, List, [], ◌∷◌, ◌++◌, map, pos, Bytes, codes,
  if◌then◌else◌, length,
}
use sshpad.Json.{JsonC, spaced}
use sshpad.Text.{print_int}
use sshpad.Config.Host.{SshHost, copy}
use sshpad.Config.Fields.{is_empty}
use sshpad.Config.Json.{forward_json, dynamic_json, port_or_default, ssh_hosts_from_json}
use sshpad.Tunnels.{
  Table, Status, starting, active_status, error_status, inactive_status, get_tunnel_status,
}
use sshpad.Manager.{
  Mode, first_run, locked, cloud, local, Code, done, refused, network, Result, save_host,
  delete_host,
}
use sshpad.Http.{App, World, Outcome, refuse, ok_text, managed, with_json}
use sshpad.Http.Config.{settled, not_called}

-- The words of process_manager.c.
abbrev status_text : Status → Bytes
status_text starting = codes "starting"
status_text active_status = codes "active"
status_text error_status = codes "error"
status_text inactive_status = codes "inactive"

-- The checks of the mode, before anything else is looked at.
abbrev pub when_open : Mode → App → Outcome → Outcome
when_open locked app o = refuse app 403 (codes "{\"error\":\"config not unlocked\"}")
when_open first_run app o = refuse app 403 (codes "{\"error\":\"setup not completed\"}")
when_open cloud app o = o
when_open local app o = o

unfoldable pub handle_get_status : App → Outcome
handle_get_status app = refuse app 200 (
    copy 128 (
      codes "{\"status\":\"ok\",\"numHosts\":"
      ++ print_int (pos (length app.manager.hosts))
      ++ codes ",\"port\":"
      ++ print_int app.port
      ++ codes "}"))

abbrev pub save_first : World → App → Option (List SshHost) → Outcome
save_first w app none = refuse app 400 (codes "{\"error\":\"invalid host JSON\"}")
save_first w app (some []) = refuse app 400 (codes "{\"error\":\"invalid host JSON\"}")
save_first w app (some (h ∷ hs)) =
    if is_empty h.name
    then refuse app 400 (codes "{\"error\":\"missing field: name\"}")
    else settled app (codes "{\"error\":\"save failed\"}")
        (save_host w.services app.manager h w.answers)

-- Only the result -1 of cm_delete_host is an error.
abbrev pub deleted : App → Result → Outcome
deleted app r = elim r.code [
  | done ↦ managed app r 200 ok_text
  | refused ↦ managed app r 404 (codes "{\"error\":\"host not found\"}")
  | network ↦ managed app r 200 ok_text
]

abbrev pub delete_named : World → App → Option Bytes → Outcome
delete_named w app none = deleted app (not_called app)
delete_named w app (some name) = deleted app (delete_host w.services app.manager name w.answers)

module _ (c : JsonC) where
  open c use {
    Json, new_string, new_int, new_array, new_object, object_get_ex, get_string, to_json_string,
  }

  -- A host as the browser gets it, with the state of its tunnel.
  unfoldable pub listed_host : Table → SshHost → Json
  listed_host ts h = new_object (
      (codes "name", new_string h.name)
      ∷ (codes "hostname", new_string h.hostname)
      ∷ (codes "user", new_string h.user)
      ∷ (codes "port", new_int (port_or_default c h.port))
      ∷ (codes "identityFile", new_string h.identity_file)
      ∷ (codes "proxyJump", new_string h.proxy_jump)
      ∷ (codes "localForward", new_array (map (forward_json c) h.local_forward))
      ∷ (codes "remoteForward", new_array (map (forward_json c) h.remote_forward))
      ∷ (codes "dynamicForward", new_array (map (dynamic_json c) h.dynamic_forward))
      ∷ (codes "tunnelStatus", new_string (status_text (get_tunnel_status h.name ts)))
      ∷ [])

  unfoldable pub handle_get_hosts : App → Outcome
  handle_get_hosts app =
      refuse app 200
        (to_json_string spaced (new_array (map (listed_host app.tunnels) app.manager.hosts)))

  abbrev save_body : World → App → Bytes → Outcome
  save_body w app body =
      if is_empty body
      then refuse app 400 (codes "{\"error\":\"empty body\"}")
      else save_first w app (ssh_hosts_from_json c (codes "[" ++ body ++ codes "]"))

  unfoldable pub handle_host_save : World → App → Bytes → Outcome
  handle_host_save w app body = when_open app.manager.mode app (save_body w app body)

  abbrev delete_member : World → App → Option Json → Outcome
  delete_member w app none = refuse app 400 (codes "{\"error\":\"missing field: name\"}")
  delete_member w app (some name) = delete_named w app (get_string name)

  unfoldable pub handle_host_delete : World → App → Bytes → Outcome
  handle_host_delete w app body =
      when_open app.manager.mode app
        (with_json c app body (λ j. delete_member w app (object_get_ex j (codes "name"))))
