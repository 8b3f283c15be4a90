-- ===== src/Proxy/Listen.antt =====
-- lp_start, lp_stop and lp_free of src/local_proxy.c: the life of the listening socket and of the
-- thread that accepts connections.
pub mod Life
use sshpad.Prelude.{
  ℕ, zero, suc, ◌+◌, Bool, true, false, not, ◌&&◌, Option, none, some, List, [], ◌∷◌, ◌++◌, ◌≡◌,
  refl, inl, inr, arith, Bytes, pos, cat, codes, length, if◌then◌else◌, Bool-cases, Option-cases,
}
use sshpad.Text.{print_int}
use sshpad.Config.Host.{copy}
use sshpad.Proxy.{Vhost}

-- struct local_proxy without the directory of the certificates. `has_sse` is whether `sse` is set.
pub record LocalProxy : Type 0 where
  pub listen_fd : Option ℕ
  pub port : ℕ
  pub running : Bool
  pub vhosts : List Vhost
  pub dispatcher_ctx : Option ℕ
  pub has_sse : Bool

-- What the system answers to lp_start: the socket, which ports can be bound, and whether listen and
-- pthread_create succeed.
pub record System : Type 0 where
  pub socket : Option ℕ
  pub binds : ℕ → Bool
  pub listens : Bool
  pub creates_thread : Bool

pub data Act : Type 0 where
  close_fd free_ctx : ℕ → Act
  notice : Bytes → Act
  create_thread join_thread : Act

-- The proxy after a call, whether the call returned 0, and what it did.
pub record Started : Type 0 where
  pub proxy : LocalProxy
  pub succeeded : Bool
  pub acts : List Act

unfoldable pub first_bound : (ℕ → Bool) → List ℕ → Option ℕ
first_bound binds [] = none
first_bound binds (p ∷ ps) = let later = first_bound binds ps in if binds p then some p else later

abbrev pub ports : List ℕ
ports = 443 ∷ 8443 ∷ []

unfoldable pub started_text : ℕ → ℕ → Bytes
started_text port count = copy 256 (
    cat (
      codes "{\"port\":"
      ∷ print_int (pos port)
      ∷ codes ",\"numVhosts\":"
      ∷ print_int (pos count)
      ∷ codes "}"
      ∷ []))

unfoldable pub announce_start : LocalProxy → List Act
announce_start lp = if lp.has_sse then notice (started_text lp.port (length lp.vhosts)) ∷ [] else []

-- After bind: listen, the notice, and the thread. `running` is set before pthread_create.
unfoldable pub start_accepting : System → ℕ → LocalProxy → Started
unfolding announce_start
start_accepting sys fd lp =
    if not sys.listens
    then record {
      proxy = record lp { listen_fd = none };
      succeeded = false;
      acts = close_fd fd ∷ [];
    }
    else if sys.creates_thread
    then record {
      proxy = record lp { listen_fd = some fd; running = true };
      succeeded = true;
      acts = announce_start lp ++ create_thread ∷ [];
    }
    else record {
      proxy = record lp { listen_fd = none; running = true };
      succeeded = false;
      acts = announce_start lp ++ close_fd fd ∷ [];
    }

unfoldable pub start_bound : System → ℕ → LocalProxy → Option ℕ → Started
unfolding start_accepting
start_bound sys fd lp none = record {
  proxy = record lp { listen_fd = none };
  succeeded = false;
  acts = close_fd fd ∷ [];
}
start_bound sys fd lp (some port) = start_accepting sys fd (record lp { port = port })

unfoldable pub start_socket : System → LocalProxy → Option ℕ → Started
unfolding start_bound first_bound
start_socket sys lp none = record {
  proxy = record lp { listen_fd = none };
  succeeded = false;
  acts = [];
}
start_socket sys lp (some fd) = start_bound sys fd lp (first_bound sys.binds ports)

unfoldable pub lp_start : System → LocalProxy → Started
unfolding start_socket
lp_start sys lp = start_socket sys lp sys.socket

abbrev pub close_of : Option ℕ → List Act
close_of none = []
close_of (some fd) = close_fd fd ∷ []

unfoldable pub lp_stop : LocalProxy → LocalProxy × List Act
lp_stop lp = if not lp.running then (lp, []) else (
  record lp { running = false; listen_fd = none },
  close_of lp.listen_fd ++ join_thread ∷ [],
)

unfoldable pub free_vhosts : List Vhost → List Act
free_vhosts [] = []
free_vhosts (v ∷ vs) = free_ctx v.ssl_ctx ∷ free_vhosts vs

abbrev pub free_of : Option ℕ → List Act
free_of none = []
free_of (some ctx) = free_ctx ctx ∷ []

unfoldable pub lp_free : LocalProxy → List Act
unfolding free_vhosts
lp_free lp = close_of lp.listen_fd ++ (free_vhosts lp.vhosts ++ free_of lp.dispatcher_ctx)

-- main: lp_start, whatever it returns, and at the end lp_stop and lp_free.
unfoldable pub life : System → LocalProxy → List Act
unfolding lp_start lp_stop lp_free
life sys lp =
    (lp_start sys lp).acts
    ++ ((lp_stop (lp_start sys lp).proxy).1 ++ lp_free (lp_stop (lp_start sys lp).proxy).0)
