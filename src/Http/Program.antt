-- ===== src/Http/Program.antt =====
-- The program as a state machine: what src/http_server.c and the monitor threads of
-- src/process_manager.c do to the state that they share, one at a time.
pub mod Names
pub mod Post
pub mod Safe
use sshpad.Prelude.{
  ℕ, Bool, true, false, ◌&&◌, Option, none, some, List, [], ◌∷◌, ◌≡◌, ltb, if◌then◌else◌, Bytes,
  length, ℤ,
}
use sshpad.Json.{JsonC}
use sshpad.Crypto.{OpenSsl, Draws}
use sshpad.Config.Host.{SshHost}
use sshpad.Config.Fields.{Env}
use sshpad.Config.Parser.{parse_ssh_config}
use sshpad.R2.{R2Config}
use sshpad.Manager.{create}
use sshpad.Manager.Store.{services}
use sshpad.Askpass.{init_table}
use sshpad.Tunnels.{release_slot}
use sshpad.Http.{App, Response, World, Sent, Outcome, reply, stream, wait}
use sshpad.Http.Tunnel.{end_internal_askpass}
use sshpad.Http.Router.{Query, route_post, route_get}

-- main of src/main.c up to the start of the web server. `left` is what r2_config_load leaves when it
-- fails, and `saved` what it loads.
unfoldable pub start : R2Config → Option R2Config → ℤ → App
start left saved port = record {
  manager = create left saved;
  tunnels = [];
  requests = init_table;
  clients = [];
  port = port;
}

-- Every name fits its array.
unfoldable pub names_fit : List SshHost → Bool
names_fit [] = true
names_fit (h ∷ hs) = ltb (length h.name) 128 && names_fit hs

-- What the outside is while one request is handled, beside the answers of the system in World: OpenSSL
-- and its random numbers, and the files that parse_ssh_config reads.
pub record Surroundings : Type 0 where
  pub world : World
  pub openssl : OpenSsl
  pub draws : Draws
  pub env : Env
  pub grow : ℕ → Bool
  pub read : Bytes → Option Bytes

abbrev pub hosts_read : Option (List SshHost) → List SshHost
hosts_read none = []
hosts_read (some hosts) = hosts

-- The world of a request: the encryption is that of crypto_store.c over the JSON form, and the hosts of
-- ~/.ssh/config are those that parse_ssh_config returns.
unfoldable pub world_of : JsonC → Surroundings → World
world_of c u = record (u.world) {
  services = services c u.openssl u.draws;
  answers = record (u.world.answers) {
    config_file = hosts_read (parse_ssh_config u.env u.grow u.read []);
  };
}

-- A POST request that is answered; a GET request that is answered, becomes a stream or starts to wait;
-- the end of a wait; and the end of a process, which frees its slot.
pub data Step (c : JsonC) : App → App → Type 0 where
  post :
      (u : Surroundings) (url body : Bytes) {app left : App} (r : Response) (sent : List Sent)
      → route_post c (world_of c u) app url body ≡ reply left r sent
      → Step c app left
  get :
      (w : World) (q : Query) {app left : App} (r : Response) (sent : List Sent)
      → route_get c w app q ≡ reply left r sent
      → Step c app left
  get_stream :
      (w : World) (q : Query) {app left : App} (accepted : Bool)
      → route_get c w app q ≡ stream left accepted
      → Step c app left
  get_wait :
      (w : World) (q : Query) {app left : App} (slot : ℕ) (sent : List Sent)
      → route_get c w app q ≡ wait left slot sent
      → Step c app left
  wake :
      (slot : ℕ) {app left : App} (r : Response) (sent : List Sent)
      → end_internal_askpass app slot ≡ reply left r sent
      → Step c app left
  process_ends :
      (slot : ℕ) {app : App} → Step c app (record app { tunnels = release_slot slot app.tunnels })

pub data Reach (c : JsonC) (first : App) : App → Type 0 where
  here : Reach c first first
  next : {app left : App} → Reach c first app → Step c app left → Reach c first left
