-- ===== src/Proxy/Connection.antt =====
-- connection_handler of src/local_proxy.c: what the thread of one connection does, call by call.
pub mod Backend
pub mod Closes
use sshpad.Prelude.{
  ℕ, ◌+◌, ◌-◌, Bool, true, false, Option, none, some, List, [], ◌∷◌, ◌++◌, ◌≡◌, refl, subst, arith,
  inl, inr, Bool-cases, Bytes, ℤ, negsuc, pos, ◌%◌, cat, codes, if◌then◌else◌,
}
use sshpad.Proxy.{Vhost, find_backend_port}
use sshpad.Proxy.Pipe.{Round, Flow, State, going, finished, broken, pipe_data}

-- What the thread asks of the outside: whether SSL_new and SSL_accept succeed, the name the client sent,
-- the socket for the backend and the ports of 127.0.0.1 that connect reaches, and the rounds of
-- pipe_data.
pub record Peer : Type 0 where
  pub ssl_created : Bool
  pub accepted : Bool
  pub servername : Option Bytes
  pub backend_socket : Option ℕ
  pub connects : ℕ → Bool
  pub rounds : List Round

pub data Call : Type 0 where
  open_backend close_client close_backend ssl_new ssl_free ssl_shutdown : Call
  connect : ℕ → Call
  ssl_write : Bytes → Call
  carry : Flow → State → Call

abbrev pub bad_gateway : Bytes
bad_gateway = cat (
    codes "HTTP/1.1 502 Bad Gateway\r\n"
    ∷ codes "Content-Type: text/plain\r\n"
    ∷ codes "Content-Length: 30\r\n"
    ∷ codes "Connection: close\r\n\r\n"
    ∷ codes "Tunnel non attivo per questo host"
    ∷ [])

-- pipe_data and the calls after it, which are made once the loop is left.
abbrev pub carried : Option (Flow × State) → Option (List Call)
carried none = none
carried (some (f, going)) = none
carried (some (f, finished)) =
    some (carry f finished ∷ ssl_shutdown ∷ ssl_free ∷ close_client ∷ close_backend ∷ [])
carried (some (f, broken)) =
    some (carry f broken ∷ ssl_shutdown ∷ ssl_free ∷ close_client ∷ close_backend ∷ [])

abbrev pub prefixed : List Call → Option (List Call) → Option (List Call)
prefixed calls none = none
prefixed calls (some later) = some (calls ++ later)

-- The calls, and whether there is a connection. A socket that does not connect is closed again; connect
-- takes the lower 16 bits of the port.
unfoldable pub connect_backend : Peer → ℕ → List Call × Bool
connect_backend p port = elim p.backend_socket [
  | none ↦ ([], false)
  | some fd ↦
      if p.connects (port % 65536)
      then (open_backend ∷ connect port ∷ [], true)
      else (open_backend ∷ connect port ∷ close_backend ∷ [], false)
]

abbrev pub after_connect : Peer → List Call × Bool → Option (List Call)
after_connect p (calls, true) = prefixed calls (carried (pipe_data p.rounds))
after_connect p (calls, false) =
    some (calls ++ (ssl_write bad_gateway ∷ ssl_shutdown ∷ ssl_free ∷ close_client ∷ []))

-- A port below zero counts as none.
unfoldable pub serve_backend : Peer → Option ℤ → Option (List Call)
unfolding connect_backend
serve_backend p none = some (ssl_shutdown ∷ ssl_free ∷ close_client ∷ [])
serve_backend p (some (negsuc n)) = some (ssl_shutdown ∷ ssl_free ∷ close_client ∷ [])
serve_backend p (some (pos port)) = after_connect p (connect_backend p port)

-- The calls of the thread from its start to its return; none while it is in the loop of pipe_data.
unfoldable pub connection_handler : List Vhost → Peer → Option (List Call)
unfolding serve_backend
connection_handler vs p =
    let served = prefixed (ssl_new ∷ []) (serve_backend p (find_backend_port vs p.servername)) in
    if p.ssl_created
    then (if p.accepted then served else some (ssl_new ∷ ssl_free ∷ close_client ∷ []))
    else some (close_client ∷ [])
