-- ===== src/Tests/Http.antt =====
-- src/http_server.c, and src/config_manager.c over the encrypted JSON form, at concrete inputs.
use sshpad.Prelude.{
  suc, true, false, none, some, List, [], ◌∷◌, map, ◌≡◌, refl, ◌≢◌, arith, Bytes, ◌<◌, length,
  codes, pos, cat, str_eq, replicate, ap,
}
use sshpad.Text.{c_str, is_alnum}
use sshpad.Config.Host.{SshHost, copy}
use sshpad.Config.Fields.{is_empty}
use sshpad.Json.{assoc}
use sshpad.Crypto.{cs_encrypt, plaintext_of, be32, frame}
use sshpad.Config.Json.{ssh_hosts_to_json, host_json, forward_json}
use sshpad.Config.Json.RoundTrip.{stored}
use sshpad.Manager.{
  Manager, Mode, locked, cloud, local, Answers, done, put, sync, unlock, create, use_local,
  config_changed,
}
use sshpad.Manager.Store.{services, unlock-stored}
use sshpad.Tunnels.{
  start_tunnel, is_valid_host_alias, all_alias_bytes, reserve, has_active, take_slot, find_inactive,
}
use sshpad.Askpass.{
  zero_request, new_request, begin_wait, find_slot, find_free, is_request, init_table,
}
use sshpad.Http.{
  App, Response, World, no_file, Sent, starting_notice, event, reply, wait, json_response, ok_text,
  with_json, manager_effect,
}
use sshpad.Http.Tunnel.{
  plain_text, find_host, handle_tunnel_start, handle_password, handle_internal_askpass,
  end_internal_askpass, password_request,
}
use sshpad.Http.Tunnel.Sequence.{HasText, password-askpass}
use sshpad.Http.Config.{handle_config_setup, handle_config_use_local}
use sshpad.Http.Host.{handle_host_save}
use sshpad.Http.Router.{Query, fresh, answers, route_post}
use sshpad.Http.Router.Body.{serve, serve_lem}
use sshpad.Http.Router.Locked.{is_shut, opens, route_post_shut}
use sshpad.Http.Program.{start, Surroundings, hosts_read, world_of, post, here, next}
use sshpad.Http.Program.Post.{IsSafe}
use sshpad.Http.Program.Safe.{Reach-start-IsSafe}
use sshpad.Tests.Outside.{json_c, openssl, draws, tag, frames, members}
use sshpad.Config.Parser.{parse_ssh_config}
use sshpad.Config.Writer.{write_text}
use sshpad.Config.Writer.RoundTrip.{parse_text-write_text}
use sshpad.Tests.Config.{env, grow, web-IsWritable}
use sshpad.Tests.Cloud.{web, r2, web-Fits}

abbrev outside : Answers
outside = record {
  put_ok = true;
  write_ok = true;
  save_r2_ok = true;
  save_mode_ok = true;
  status = 0;
  blob = none;
  config_file = [];
}

abbrev world : World
world = record {
  services = services json_c openssl draws;
  answers = outside;
  stderr_fd = some 9;
  pid = some 4242;
  launch_terminal = λ name. none;
  sse_pipe = none;
  sse_made = some true;
  settings_file = none;
  accepts = λ cfg. false;
  ui_dir = codes "./ui";
  open_file = λ path. no_file;
}

abbrev manager_in : Mode → Manager
manager_in mode = record {
  hosts = web ∷ [];
  mode = mode;
  r2_cfg = r2;
  r2_configured = true;
  password = codes "pw";
}

abbrev app_in : Mode → App
app_in mode = record {
  manager = manager_in mode;
  tunnels = [];
  requests = zero_request ∷ [];
  clients = [];
  port = pos 8080;
}

-- The text of an object in the concrete JSON.
abbrev object_text : List (Bytes × Bytes) → Bytes
object_text ps = map suc (4 ∷ frames (members ps))

abbrev host_body : Bytes
host_body = object_text ((codes "host", 1 ∷ codes "web") ∷ [])

abbrev save_query : Query
save_query = record {
  method = codes "POST";
  url = codes "/api/host/save";
  id = none;
  prompt = none;
}

serve_lem_example :
    serve json_c world (app_in cloud) save_query (codes "{}" ∷ codes "{}" ∷ [])
    ≡ answers fresh (
        route_post json_c world
          (app_in cloud)
          (codes "/api/host/save")
          (c_str (cat (codes "{}" ∷ codes "{}" ∷ []))))
unfolding str_eq
serve_lem_example =
    serve_lem json_c world (app_in cloud) save_query (codes "{}" ∷ codes "{}" ∷ []) refl
      (cc, (cc, tt))

abbrev not_unlocked : Response
not_unlocked = json_response 403 (codes "{\"error\":\"config not unlocked\"}")

save_refused :
    route_post json_c world (app_in locked) (codes "/api/host/save") (codes "{}")
    ≡ reply (app_in locked) not_unlocked []
unfolding route_post str_eq handle_host_save is_empty
save_refused = refl

abbrev nothing_sent : List Sent
nothing_sent = []

route_post_shut_example :
    ((app_in locked).manager.hosts ≡ (app_in locked).manager.hosts)
    × ((app_in locked).manager.mode ≡ (app_in locked).manager.mode)
unfolding is_shut opens str_eq
route_post_shut_example =
    route_post_shut json_c world (app_in locked) (app_in locked) (codes "{}") not_unlocked [] refl
      (codes "/api/host/save") refl save_refused

abbrev empty_body : Response
empty_body = json_response 400 (codes "{\"error\":\"empty body\"}")

setup_refused :
    handle_config_setup json_c world (app_in local) [] ≡ reply (app_in local) empty_body []
unfolding handle_config_setup with_json is_empty
setup_refused = refl

host_is_web : HasText json_c host_body (codes "host") (codes "web")
unfolding is_empty assoc str_eq
host_is_web = record {
  object = 4 ∷ frames (codes "host" ∷ (1 ∷ codes "web") ∷ []);
  value = 1 ∷ codes "web";
  parsed = refl;
  member = refl;
  is_text = refl;
}

abbrev with_tunnel : App
unfolding start_tunnel
with_tunnel = record (app_in cloud) {
  tunnels = (start_tunnel (codes "web") (some 9) (some 4242) []).table;
}

web_starts :
    handle_tunnel_start json_c world (app_in cloud) host_body
    ≡ reply with_tunnel (json_response 200 ok_text) (starting_notice (codes "web") ∷ [])
unfolding handle_tunnel_start with_json find_host start_tunnel is_empty assoc str_eq
    is_valid_host_alias all_alias_bytes is_alnum reserve has_active take_slot find_inactive
web_starts = refl

abbrev password_body : Bytes
password_body =
    object_text ((codes "requestId", 1 ∷ codes "a1") ∷ (codes "password", 1 ∷ codes "pw") ∷ [])

body_has_id : HasText json_c password_body (codes "requestId") (codes "a1")
unfolding is_empty assoc str_eq
body_has_id = record {
  object =
      4 ∷ frames (codes "requestId" ∷ (1 ∷ codes "a1") ∷ codes "password" ∷ (1 ∷ codes "pw") ∷ []);
  value = 1 ∷ codes "a1";
  parsed = refl;
  member = refl;
  is_text = refl;
}

body_has_password : HasText json_c password_body (codes "password") (codes "pw")
unfolding is_empty assoc str_eq
body_has_password = record {
  object =
      4 ∷ frames (codes "requestId" ∷ (1 ∷ codes "a1") ∷ codes "password" ∷ (1 ∷ codes "pw") ∷ []);
  value = 1 ∷ codes "pw";
  parsed = refl;
  member = refl;
  is_text = refl;
}

abbrev app_waiting : App
app_waiting = record (app_in cloud) { requests = new_request (codes "a1") ∷ [] }

abbrev asked : List Sent
unfolding password_request is_empty
asked = event (codes "password_request") (password_request json_c (codes "a1") none (web ∷ [])) ∷ []

waits :
    handle_internal_askpass json_c (app_in cloud) (some (codes "a1")) none
    ≡ wait app_waiting 0 asked
unfolding handle_internal_askpass begin_wait is_empty find_free copy password_request
waits = refl

a1_fresh : find_slot (codes "a1") (app_in cloud).requests ≡ none
unfolding find_slot is_request
a1_fresh = refl

password_filled : codes "pw" ≢ []
password_filled = cc

password-askpass_example :
    (mid : App) × (handle_password json_c app_waiting password_body
      ≡ reply mid (json_response 200 ok_text) [])
    × ((after : App) × (end_internal_askpass mid 0 ≡ reply after (plain_text (codes "pw")) []))
unfolding is_empty
password-askpass_example =
    password-askpass json_c (app_in cloud) app_waiting password_body (codes "a1") (codes "pw") none
      0 asked refl body_has_id body_has_password (omega arith) password_filled (omega arith)
      a1_fresh waits

abbrev uploaded : Bytes
unfolding ssh_hosts_to_json host_json forward_json be32 is_empty
uploaded = frame (replicate 32 5) (replicate 12 6) (ssh_hosts_to_json json_c (web ∷ [])) tag

abbrev downloaded : Answers
downloaded = record outside { status = 200; blob = some uploaded }

json_short : length (ssh_hosts_to_json json_c (web ∷ [])) < 2147483648
unfolding ssh_hosts_to_json host_json forward_json is_empty
json_short = omega arith

uploads :
    sync (services json_c openssl draws) (manager_in cloud) outside ≡ (true, put r2 uploaded ∷ [])
unfolding sync cs_encrypt plaintext_of ssh_hosts_to_json host_json forward_json be32 is_empty
uploads = refl

unlock-stored_example :
    unlock (services json_c openssl draws) (manager_in locked) (codes "pw") downloaded ≡ record {
      manager = record (manager_in locked) {
        hosts = map stored (web ∷ []);
        mode = cloud;
        password = codes "pw";
      };
      code = done;
      effects = [];
    }
unfolding is_empty
unlock-stored_example =
    unlock-stored json_c openssl draws draws (manager_in cloud) (manager_in locked) outside
      downloaded r2 uploaded refl refl (omega arith) web-Fits json_short uploads refl refl

-- The hosts of ~/.ssh/config are chosen, and a tunnel is started.
abbrev home_host : SshHost
home_host = sshpad.Tests.Config.web

abbrev home_surroundings : Surroundings
home_surroundings = record {
  world = world;
  openssl = openssl;
  draws = draws;
  env = env;
  grow = grow;
  read = λ path. some (write_text (home_host ∷ []));
}

abbrev started : App
unfolding start create init_table
started = start r2 none (pos 8080)

abbrev at_home : App
unfolding start create init_table
at_home = record started {
  manager = record started.manager { hosts = home_host ∷ []; mode = local };
}

abbrev home_tunnel : App
unfolding start_tunnel start create init_table
home_tunnel = record at_home {
  tunnels = (start_tunnel (codes "web") (some 9) (some 4242) []).table;
}

file_read : hosts_read (parse_ssh_config env grow home_surroundings.read []) ≡ home_host ∷ []
unfolding parse_ssh_config
file_read = (parse_text-write_text env grow (home_host ∷ []) (λ n. refl) (web-IsWritable, tt))

local_chosen :
    route_post json_c (world_of json_c home_surroundings) started (codes "/api/config/use-local") []
    ≡ reply at_home (json_response 200 ok_text) (manager_effect config_changed ∷ [])
unfolding route_post handle_config_use_local use_local world_of start create init_table str_eq
local_chosen =
    ap
      (λ (hosts : List SshHost).
        reply (record started { manager = record started.manager { hosts = hosts; mode = local } })
          (json_response 200 ok_text) (manager_effect config_changed ∷ []))
      file_read

web_posted :
    route_post json_c
      (world_of json_c home_surroundings)
      at_home
      (codes "/api/tunnel/start")
      host_body
    ≡ reply home_tunnel (json_response 200 ok_text) (starting_notice (codes "web") ∷ [])
unfolding route_post handle_tunnel_start with_json find_host start_tunnel is_empty assoc str_eq
    is_valid_host_alias all_alias_bytes is_alnum reserve has_active take_slot find_inactive start
    create init_table world_of
web_posted = refl

Reach-start-IsSafe_example : IsSafe home_tunnel
unfolding start create init_table is_empty start_tunnel
Reach-start-IsSafe_example = Reach-start-IsSafe json_c r2 none (pos 8080) (
    next
      (next here (
        post home_surroundings (codes "/api/config/use-local") [] (json_response 200 ok_text)
          (manager_effect config_changed ∷ []) local_chosen))
      (post home_surroundings (codes "/api/tunnel/start") host_body (json_response 200 ok_text)
        (starting_notice (codes "web") ∷ []) web_posted))
