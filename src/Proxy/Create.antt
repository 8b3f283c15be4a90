-- ===== src/Proxy/Create.antt =====
-- lp_create of src/local_proxy.c, but for the entries of /etc/hosts (Proxy/Entries), whose result it does
-- not use.
use sshpad.Prelude.{
  ℕ, ◌≤◌, Bool, false, not, ◌&&◌, Option, none, some, List, [], ◌∷◌, ◌≡◌, refl, inl, inr,
  if◌then◌else◌, Bytes, length, Bool-cases, Option-cases, ◌≢◌, subst, sym, ap, ◌∙◌, some-inj,
  none-some,
}
use sshpad.Config.Host.{SshHost}
use sshpad.Proxy.{Vhost, find_backend_port}
use sshpad.Proxy.Vhosts.{max_vhosts, make_vhosts, served_port, find_backend_port-make_vhosts}
use sshpad.Proxy.Certificates.{
  Outside, ensure_mkcert_ca, ensure_cert_dir, cert_path, key_path, generate_cert,
}
use sshpad.Proxy.Listen.{LocalProxy}

-- What OpenSSL answers: SSL_CTX_new for the virtual host of a name, whether a certificate and a private
-- key can be loaded, and SSL_CTX_new for the dispatcher; and whether calloc succeeds.
pub record Contexts : Type 0 where
  pub new_ctx : Bytes → Option ℕ
  pub loads_cert : Bytes → Bool
  pub loads_key : Bytes → Bool
  pub allocated : Bool
  pub dispatcher : Option ℕ

-- create_vhost_ctx: a context whose files cannot be loaded is freed.
unfoldable pub create_vhost_ctx : Contexts → Bytes → Bytes → Option ℕ → Option ℕ
create_vhost_ctx x cert key none = none
create_vhost_ctx x cert key (some ctx) =
    if not (x.loads_cert cert) then none else if not (x.loads_key key) then none else some ctx

-- The certificate and the context of a host: none if the host is skipped.
unfoldable pub host_context : Outside → Contexts → Bytes → Bytes → Option ℕ
unfolding generate_cert cert_path key_path create_vhost_ctx
host_context w x dir host =
    if generate_cert w dir host
    then create_vhost_ctx x (cert_path dir host) (key_path dir host) (x.new_ctx host)
    else none

abbrev with_dispatcher : Bool → List Vhost → Option ℕ → Option LocalProxy
with_dispatcher sse vs none = none
with_dispatcher sse vs (some ctx) = some (record {
  listen_fd = none;
  port = 0;
  running = false;
  vhosts = vs;
  dispatcher_ctx = some ctx;
  has_sse = sse;
})

abbrev with_vhosts : Contexts → Bool → List Vhost → Option LocalProxy
with_vhosts x sse [] = none
with_vhosts x sse (v ∷ vs) = with_dispatcher sse (v ∷ vs) x.dispatcher

abbrev in_dir : Outside → Contexts → Bool → List SshHost → Option Bytes → Option LocalProxy
in_dir w x sse hosts none = none
in_dir w x sse hosts (some dir) = with_vhosts x sse (make_vhosts (host_context w x dir) 0 hosts)

-- The new proxy, none for NULL.
unfoldable pub lp_create : Outside → Contexts → Bool → List SshHost → Option LocalProxy
unfolding host_context ensure_mkcert_ca ensure_cert_dir
lp_create w x sse hosts =
    if ensure_mkcert_ca w && x.allocated then in_dir w x sse hosts (ensure_cert_dir w) else none

-- A proxy that can be started: it has a virtual host, and a connection with the name goes to the port of
-- the first host of that name that has a forward and a certificate.
pub record IsReady (w : Outside) (x : Contexts) (hosts : List SshHost) (lp : LocalProxy)
    (name : Bytes) : Type 0 where
  pub dir : Bytes
  pub dir_made : ensure_cert_dir w ≡ some dir
  pub idle : lp.running ≡ false
  pub shut : lp.listen_fd ≡ none
  pub served : lp.vhosts ≢ []
  pub few : length lp.vhosts ≤ max_vhosts
  pub routed :
      find_backend_port lp.vhosts (some name) ≡ served_port (host_context w x dir) hosts name

-- What with_vhosts gives of a table.
record Holds (vs : List Vhost) (lp : LocalProxy) : Type 0 where
  same : lp.vhosts ≡ vs
  some_vhost : vs ≢ []
  not_running : lp.running ≡ false
  no_socket : lp.listen_fd ≡ none

with_vhosts-Holds :
    (x : Contexts) (sse : Bool) (vs : List Vhost) (lp : LocalProxy)
    → with_vhosts x sse vs ≡ some lp
    → Holds vs lp
with_vhosts-Holds x sse [] lp e = cc
with_vhosts-Holds x sse (v ∷ vs) lp e = elim (Option-cases x.dispatcher) [
  | inl missing ↦ absurd (none-some (rw missing at e))
  | inr (ctx, made) ↦
      let at = some-inj (rw made at e) in
      subst (Holds (v ∷ vs)) at (record {
        same = refl;
        some_vhost = λ h. absurd (cc);
        not_running = refl;
        no_socket = refl;
      })
]

in_dir-IsReady :
    (w : Outside) (x : Contexts) (sse : Bool) (hosts : List SshHost) (lp : LocalProxy)
    (name dir : Bytes)
    → length hosts ≤ max_vhosts
    → ensure_cert_dir w ≡ some dir
    → in_dir w x sse hosts (some dir) ≡ some lp
    → IsReady w x hosts lp name
in_dir-IsReady w x sse hosts lp name dir few made e =
    let h = with_vhosts-Holds x sse (make_vhosts (host_context w x dir) 0 hosts) lp e in
    let r = find_backend_port-make_vhosts (host_context w x dir) hosts name few in
    record {
      dir = dir;
      dir_made = made;
      idle = h.not_running;
      shut = h.no_socket;
      served = λ none_left. h.some_vhost (sym h.same ∙ none_left);
      few = subst (λ vs. length vs ≤ max_vhosts) (sym h.same) r.0;
      routed = ap (λ vs. find_backend_port vs (some name)) h.same ∙ r.1;
    }

-- A proxy that lp_create makes of at most 64 hosts is not started yet, has a virtual host and at most 64
-- of them, and leads each name to the port that the configuration gives for it: the first forward of the
-- first host of that name (upper and lower case apart) that has a forward and a certificate.
pub lp_create-IsReady :
    (w : Outside) (x : Contexts) (sse : Bool) (hosts : List SshHost) (lp : LocalProxy)
    (name : Bytes)
    → length hosts ≤ max_vhosts
    → lp_create w x sse hosts ≡ some lp
    → IsReady w x hosts lp name
unfolding lp_create
lp_create-IsReady w x sse hosts lp name few e =
    elim (Bool-cases (ensure_mkcert_ca w && x.allocated)) [
      | inr fails ↦ absurd (none-some (rw fails at e))
      | inl goes ↦ elim (Option-cases (ensure_cert_dir w)) [
        | inl nowhere ↦ absurd (none-some (rw (goes, nowhere) at e))
        | inr (dir, made) ↦ in_dir-IsReady w x sse hosts lp name dir few made (rw (goes, made) at e)
      ]
    ]

-- Without hosts there is no proxy.
pub lp_create-nil : (w : Outside) (x : Contexts) (sse : Bool) → lp_create w x sse [] ≡ none
unfolding lp_create make_vhosts
lp_create-nil w x sse = elim (Bool-cases (ensure_mkcert_ca w && x.allocated)) [
  | inr fails ↦ rw fails refl
  | inl goes ↦ elim (Option-cases (ensure_cert_dir w)) [
    | inl nowhere ↦ rw (goes, nowhere) refl
    | inr (dir, made) ↦ rw (goes, made) refl
  ]
]
