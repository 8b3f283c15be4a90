-- ===== src/Proxy.antt =====
-- src/local_proxy.c: how a connection finds its virtual host, first for its certificate and then for
-- the backend. strcasecmp is the comparison of kw_eq.
pub mod Routing
pub mod Vhosts
pub mod Entries
pub mod Pipe
pub mod Connection
pub mod Accept
pub mod Certificates
pub mod Create
pub mod Listen
use sshpad.Prelude.{ℕ, Option, none, some, List, [], ◌∷◌, Bytes, ℤ, if◌then◌else◌}
use sshpad.Text.{kw_eq}

-- lp_vhost_t without the paths of its files; `ssl_ctx` names the context.
pub record Vhost : Type 0 where
  pub hostname : Bytes
  pub backend_port : ℤ
  pub ssl_ctx : ℕ

-- SSL_TLSEXT_ERR_NOACK, SSL_TLSEXT_ERR_OK with the context that was set, SSL_TLSEXT_ERR_ALERT_FATAL.
pub data Answer : Type 0 where
  no_ack : Answer
  ok : ℕ → Answer
  fatal : Answer

unfoldable pub set_context : List Vhost → Bytes → Answer
set_context [] name = fatal
set_context (v ∷ vs) name = if kw_eq v.hostname name then ok v.ssl_ctx else set_context vs name

-- The name is none if the client sent none.
unfoldable pub sni_callback : List Vhost → Option Bytes → Answer
sni_callback vs none = no_ack
sni_callback vs (some name) = set_context vs name

unfoldable pub port_of : List Vhost → Bytes → Option ℤ
port_of [] name = none
port_of (v ∷ vs) name = if kw_eq v.hostname name then some v.backend_port else port_of vs name

-- `none` is -1 of the code.
unfoldable pub find_backend_port : List Vhost → Option Bytes → Option ℤ
find_backend_port vs none = none
find_backend_port vs (some name) = port_of vs name
