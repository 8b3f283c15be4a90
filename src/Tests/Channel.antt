-- ===== src/Tests/Channel.antt =====
-- The connections, the start and the end of the proxy of src/local_proxy.c, main of src/main.c, and the
-- settings of src/r2_client.c on the disk, at concrete inputs.
use sshpad.Prelude.{
  All, ◌++◌, true, false, none, some, List, [], ◌∷◌, ◌≡◌, refl, arith, codes, pos, ◌==◌,
}
use sshpad.Config.Host.{zero_host}
use sshpad.Output.{wrote, interrupted}
use sshpad.Proxy.Pipe.{Round, pending, no_event, events, Flow, finished, pipe_data}
use sshpad.Proxy.Pipe.Order.{InOrder, is_broken, pipe_data-InOrder}
use sshpad.Config.Host.{copy}
use sshpad.Proxy.Connection.{
  Peer, Call, open_backend, ssl_new, connect, carry, ssl_shutdown, ssl_free, close_client,
  close_backend, connection_handler,
}
use sshpad.Proxy.Connection.Closes.{
  count_calls, is_close_client, is_ssl_free, is_ssl_new, is_close_backend, is_open_backend,
  connection_handler-closes,
}
use sshpad.Proxy.Pipe.Returns.{Enough, has_last}
use sshpad.Output.{progress}
use sshpad.Sse.{enter, undo, free_client}
use sshpad.Sse.Descriptors.{
  Act, come, fail, leave, act, acts, AreInTime, bag, all_closed, all_opened, broadcaster_free,
  all_closed-all_opened,
}
use sshpad.Proxy.Listen.{LocalProxy, System, life}
use sshpad.Proxy.Listen.Life.{closed, joined, opened, count, tries_thread, life-closed}
use sshpad.Proxy.Vhosts.{make_vhosts}
use sshpad.Proxy.Certificates.{Outside}
use sshpad.Proxy.Create.{Contexts, lp_create, IsReady, lp_create-IsReady}
use sshpad.R2.Settings.{zero_config}
use sshpad.Manager.{create}
use sshpad.Startup.Run.{Machine, Ran}
use sshpad.Tests.Cloud.{web}
use sshpad.Tests.Proxy.{vhosts}

-- A list of answers is as long as the bytes could need.
abbrev rounds : List Round
rounds =
    pending (some (codes "GET ")) (wrote 3 ∷ interrupted ∷ wrote 1 ∷ wrote 1 ∷ wrote 1 ∷ [])
    ∷ events (some (some (codes "/\r\n"), wrote 3 ∷ wrote 1 ∷ wrote 1 ∷ []))
        (some (some (codes "200"), 2 ∷ 1 ∷ 1 ∷ []))
    ∷ no_event
    ∷ []

abbrev carried_flow : Flow
carried_flow = record {
  up = record { received = codes "GET /\r\n"; sent = codes "GET /\r\n" };
  down = record { received = codes "200"; sent = codes "200" };
}

rounds_run : pipe_data rounds ≡ some (carried_flow, finished)
unfolding pipe_data
rounds_run = refl

pipe_data-InOrder_example :
    InOrder carried_flow.up (is_broken finished) × InOrder carried_flow.down (is_broken finished)
pipe_data-InOrder_example = pipe_data-InOrder rounds carried_flow finished rounds_run

abbrev peer : Peer
peer = record {
  ssl_created = true;
  accepted = true;
  servername = some (codes "b.local");
  backend_socket = some 6;
  connects = λ port. port == 9090;
  rounds = rounds;
}

abbrev peer_calls : List Call
peer_calls =
    ssl_new
    ∷ open_backend
    ∷ connect 9090
    ∷ carry carried_flow finished
    ∷ ssl_shutdown
    ∷ ssl_free
    ∷ close_client
    ∷ close_backend
    ∷ []

rounds-Enough : All Enough rounds
unfolding progress
rounds-Enough = (omega arith, ((omega arith, omega arith), (tt, tt)))

rounds_end : has_last rounds ≡ true
unfolding has_last
rounds_end = refl

connection_handler-closes_example :
    (calls : List Call) × (connection_handler vhosts peer ≡ some calls)
    × (count_calls is_close_client calls ≡ 1)
    × (count_calls is_ssl_free calls ≡ count_calls is_ssl_new calls)
    × (count_calls is_close_backend calls ≡ count_calls is_open_backend calls)
connection_handler-closes_example = connection_handler-closes vhosts peer rounds-Enough rounds_end

-- Port 443 is taken, and the thread cannot be made.
abbrev system : System
system = record {
  socket = some 5;
  binds = λ port. port == 8443;
  listens = true;
  creates_thread = false;
}

abbrev proxy : LocalProxy
proxy = record {
  listen_fd = none;
  port = 0;
  running = false;
  vhosts = vhosts;
  dispatcher_ctx = some 9;
  has_sse = true;
}

life-closed_example :
    (closed (life system proxy) ≡ opened (some 5))
    × (joined (life system proxy) ≡ count (tries_thread system))
life-closed_example = life-closed system proxy refl

abbrev outside : Outside
outside = record {
  env = λ name. some (codes "/home/ada");
  readable = λ path. true;
  writable = λ path. true;
  installs = true;
  runs_mkcert = λ argv. true;
}

abbrev contexts : Contexts
contexts = record {
  new_ctx = λ name. some 3;
  loads_cert = λ path. true;
  loads_key = λ path. true;
  allocated = true;
  dispatcher = some 4;
}

abbrev web_proxy : LocalProxy
web_proxy = record {
  listen_fd = none;
  port = 0;
  running = false;
  vhosts = record { hostname = codes "web"; backend_port = pos 8080; ssl_ctx = 3 } ∷ [];
  dispatcher_ctx = some 4;
  has_sse = true;
}

web_created : lp_create outside contexts true (web ∷ zero_host ∷ []) ≡ some web_proxy
unfolding lp_create make_vhosts copy
web_created = refl

lp_create-IsReady_example : IsReady outside contexts (web ∷ zero_host ∷ []) web_proxy (codes "WEB")
lp_create-IsReady_example =
    lp_create-IsReady outside contexts true (web ∷ zero_host ∷ []) web_proxy (codes "WEB")
      (omega arith) web_created

abbrev machine : Machine
machine = record {
  net = record { socket = some 3; binds = true; port = some 4242 };
  left = zero_config;
  saved = none;
  manager = create zero_config none;
  tmp = some (codes "/tmp/sshpad-askpass-a1b2c3");
  answers = wrote 100 ∷ wrote 4000 ∷ [];
  chmod_ok = true;
  serves = false;
  mkcert = some (true, 0);
  outside = outside;
  contexts = contexts;
  system = system;
  status = 0;
}

abbrev failed_run : Ran
failed_run = record {
  status = 1;
  script = some (codes "/tmp/sshpad-askpass-a1b2c3");
  proxy = [];
  app = none;
}

-- A client comes; while the response of a second one fails, the first one leaves.
abbrev acts_of_clients : List Act
acts_of_clients = come (some (4, 5)) ∷ come (some (6, 7)) ∷ leave 0 ∷ fail 1 ∷ []

in_time : AreInTime [] acts_of_clients
unfolding AreInTime act enter undo free_client
in_time = (tt, (tt, (tt, (refl, tt))))

all_closed-all_opened_example :
    bag (all_closed [] acts_of_clients ++ broadcaster_free (acts [] acts_of_clients))
    ≡ bag (all_opened [] acts_of_clients)
all_closed-all_opened_example = all_closed-all_opened acts_of_clients in_time
