-- ===== src/Startup/Run.antt =====
-- main and cleanup of src/main.c: in which order the parts are started and ended, and what is left when one
-- of them fails. The requests and the window in between are not part of it.
use sshpad.Prelude.{
  ℕ, Bool, true, false, Option, none, some, List, [], ◌++◌, ◌≡◌, ◌⊎◌, if◌then◌else◌, Bytes, ℤ, pos,
  codes,
}
use sshpad.Text.{print_int}
use sshpad.Config.Host.{copy}
use sshpad.R2.{R2Config}
use sshpad.Manager.{Manager, create}
use sshpad.Output
use sshpad.Askpass.Script.{Made, askpass_init, askpass_cleanup}
use sshpad.Http.{App}
use sshpad.Http.Program.{start}
use sshpad.Ports.{Network, find_free_port}
use sshpad.Proxy.Certificates.{Outside, lp_check_mkcert}
use sshpad.Proxy.Create.{Contexts, lp_create}
use sshpad.Proxy.Listen.{LocalProxy, System, Act, life}

-- What the outside answers. `left` and `saved` are what r2_config_load gives, as in `start`; `manager` is the
-- config manager when main asks it for the hosts of the proxy, which a request may have changed since it
-- was created, as the web server runs already; `mkcert` what popen gives for lp_check_mkcert; `status`
-- what g_application_run returns.
pub record Machine : Type 0 where
  pub net : Network
  pub left : R2Config
  pub saved : Option R2Config
  pub manager : Manager
  pub tmp : Option Bytes
  pub answers : List Output.Answer
  pub chmod_ok : Bool
  pub serves : Bool
  pub mkcert : Option (Bool × ℕ)
  pub outside : Outside
  pub contexts : Contexts
  pub system : System
  pub status : ℕ

-- The exit status; the script that is left in /tmp; what lp_start, lp_stop and lp_free did; and the state that the requests
-- began with, none if the web server did not start.
pub record Ran : Type 0 where
  pub status : ℕ
  pub script : Option Bytes
  pub proxy : List Act
  pub app : Option App

abbrev proxy_life : System → Option LocalProxy → List Act
proxy_life sys none = []
proxy_life sys (some lp) = life sys lp

-- lp_create is given the hosts that the config manager then has. What it does to mkcert and the directory
-- of the certificates is in its own model.
unfoldable pub proxy_of : Machine → Option LocalProxy
unfolding lp_create
proxy_of m =
    if lp_check_mkcert m.mkcert then lp_create m.outside m.contexts true m.manager.hosts else none

abbrev removed : Option Bytes → Option Bytes → Option Bytes
removed none script = script
removed (some path) script = none

abbrev stopped : Option Bytes → Ran
stopped script = record { status = 1; script = script; proxy = []; app = none }

-- From the start of the web server to the end of cleanup, where unlink removes the script.
unfoldable pub run_server : Machine → ℕ → Bytes → Ran
unfolding proxy_of
run_server m port path =
    if m.serves
    then record {
      status = m.status;
      script = removed (askpass_cleanup (some path)) (some path);
      proxy = proxy_life m.system (proxy_of m);
      app = some (start m.left m.saved (pos port));
    }
    else stopped (some path)

abbrev with_script : Machine → ℕ → Option Made → Option Ran
with_script m port none = none
with_script m port (some (none, file)) = some (stopped none)
with_script m port (some (some path, file)) = some (run_server m port path)

abbrev with_port : Machine → Option ℕ → Option Ran
with_port m none = some (stopped none)
with_port m (some port) = with_script m port (askpass_init m.tmp m.answers m.chmod_ok (pos port))

-- none while the script is being written.
unfoldable pub main : Machine → Option Ran
unfolding run_server
main m = with_port m (find_free_port m.net).0

-- The address that on_activate opens in the window.
unfoldable pub uri : ℤ → Bytes
unfolding copy print_int
uri port = copy 64 (codes "http://127.0.0.1:" ++ print_int port)

-- The config manager is still as cm_create made it.
abbrev pub IsFresh : Machine → Type 0
IsFresh m = m.manager ≡ create m.left m.saved

-- How main ended: the proxy that lp_create gives, if any, was neither started nor stopped; and no script of askpass_init is left, or the web server did not
-- start.
abbrev pub IsEnded : Machine → Ran → Type 0
IsEnded m r =
    (r.proxy ≡ []) × ((r.script ≡ none) ⊎ ((m.serves ≡ false) × (r.status ≡ 1) × (r.app ≡ none)))

abbrev Ended : Machine → Option Ran → Type 0
Ended m none = Unit
Ended m (some r) = IsEnded m r
