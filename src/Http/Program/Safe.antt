-- ===== src/Http/Program/Safe.antt =====
-- What holds in every state that the program can reach.
use sshpad.Prelude.{
  ℕ, ◌≤◌, Bool, List, ◌≡◌, sym, ap, subst, ◌∙◌, arith, length, ℤ, Option, none, some, refl,
}
use sshpad.Json.{JsonC}
use sshpad.Tunnels.Unique.{count_active, IsWf, release_slot-IsWf}
use sshpad.Sse.{max_sse_clients, add_client}
use sshpad.Http.{App, Response, World, Sent, reply, stream, wait}
use sshpad.Http.Tunnel.{handle_internal_askpass, end_internal_askpass}
use sshpad.Http.Config.{handle_config_status, handle_config_r2_settings_get}
use sshpad.Http.Host.{handle_get_hosts, handle_get_status}
use sshpad.Http.Static.{serve_static}
use sshpad.Http.Router.{Query, route_get}
use sshpad.R2.{R2Config}
use sshpad.Manager.{create}
use sshpad.Http.Program.Names.{world_of-IsHonest}
use sshpad.Http.Program.{
  world_of, start, names_fit, Step, post, get, get_stream, get_wait, wake, process_ends, Reach,
  here, next,
}
use sshpad.Sse.Slots.{length-add_client}
use sshpad.Http.Program.Post.{IsSafe, post-IsSafe}

module _ (app left : App) (safe : IsSafe app) where
  -- A state with the tunnels, the hosts and no more clients than allowed.
  same-IsSafe :
      left.tunnels ≡ app.tunnels
      → left.manager.hosts ≡ app.manager.hosts
      → length left.clients ≤ max_sse_clients
      → IsSafe left
  same-IsSafe tunnels hosts few = record {
    tunnels = subst IsWf (sym tunnels) safe.tunnels;
    names = ap names_fit hosts ∙ safe.names;
    clients = few;
  }

  wake-IsSafe :
      (slot : ℕ) (r : Response) (sent : List Sent)
      → end_internal_askpass app slot ≡ reply left r sent
      → IsSafe left
  unfolding end_internal_askpass
  wake-IsSafe slot r sent e =
      let few : length app.clients ≤ max_sse_clients = safe.clients in
      same-IsSafe (ground arith) (ground arith) (ground arith)

module _ (c : JsonC) (w : World) (app left : App) (q : Query) (safe : IsSafe app) where
  get-IsSafe :
      (r : Response) (sent : List Sent) → route_get c w app q ≡ reply left r sent → IsSafe left
  unfolding route_get handle_get_hosts handle_get_status handle_internal_askpass
      handle_config_status handle_config_r2_settings_get serve_static
  get-IsSafe r sent e =
      let few : length app.clients ≤ max_sse_clients = safe.clients in
      same-IsSafe app left safe (ground arith) (ground arith) (ground arith)

  get_wait-IsSafe :
      (slot : ℕ) (sent : List Sent) → route_get c w app q ≡ wait left slot sent → IsSafe left
  unfolding route_get handle_get_hosts handle_get_status handle_internal_askpass
      handle_config_status handle_config_r2_settings_get serve_static
  get_wait-IsSafe slot sent e =
      let few : length app.clients ≤ max_sse_clients = safe.clients in
      same-IsSafe app left safe (ground arith) (ground arith) (ground arith)

  get_stream-IsSafe : (accepted : Bool) → route_get c w app q ≡ stream left accepted → IsSafe left
  unfolding route_get handle_get_hosts handle_get_status handle_internal_askpass
      handle_config_status handle_config_r2_settings_get serve_static
  get_stream-IsSafe accepted e =
      let few : length (add_client w.sse_pipe w.sse_made app.clients).0 ≤ max_sse_clients =
        (length-add_client w.sse_pipe w.sse_made app.clients safe.clients).1 in
      same-IsSafe app left safe (ground arith) (ground arith) (ground arith)

Step-IsSafe : (c : JsonC) {app left : App} → Step c app left → IsSafe app → IsSafe left
Step-IsSafe c (post u url body r sent e) safe =
    post-IsSafe c (world_of c u) _ _ body r sent safe (world_of-IsHonest c u) url e
Step-IsSafe c (get w q r sent e) safe = get-IsSafe c w _ _ q safe r sent e
Step-IsSafe c (get_stream w q accepted e) safe = get_stream-IsSafe c w _ _ q safe accepted e
Step-IsSafe c (get_wait w q slot sent e) safe = get_wait-IsSafe c w _ _ q safe slot sent e
Step-IsSafe c (wake slot r sent e) safe = wake-IsSafe _ _ safe slot r sent e
Step-IsSafe c (process_ends slot {app}) safe = record {
  tunnels = release_slot-IsWf slot app.tunnels safe.tunnels;
  names = safe.names;
  clients = safe.clients;
}

Reach-IsSafe : (c : JsonC) {first app : App} → IsSafe first → Reach c first app → IsSafe app
Reach-IsSafe c safe here = safe
Reach-IsSafe c safe (next before step) = Step-IsSafe c step (Reach-IsSafe c safe before)

start-IsSafe :
    (left : R2Config) (saved : Option R2Config) (port : ℤ) → IsSafe (start left saved port)
unfolding start create count_active names_fit
start-IsSafe left none port = record {
  tunnels = record { single = λ name. omega arith; bounded = omega arith };
  names = refl;
  clients = omega arith;
}
start-IsSafe left (some cfg) port = record {
  tunnels = record { single = λ name. omega arith; bounded = omega arith };
  names = refl;
  clients = omega arith;
}

-- In every state that the program reaches from its start, by requests of the browser and of the askpass
-- script, by waits that end and by processes that end, one at a time, in any order, and whatever the
-- outside answers, each host has at most one active tunnel, the tables of tunnels and of clients are
-- in their bounds, and the names of the hosts fit their arrays.
pub Reach-start-IsSafe :
    (c : JsonC) (left : R2Config) (saved : Option R2Config) (port : ℤ) {app : App}
    → Reach c (start left saved port) app
    → IsSafe app
Reach-start-IsSafe c left saved port reached = Reach-IsSafe c (start-IsSafe left saved port) reached
