-- ===== src/Proxy/Vhosts.antt =====
-- The loop of lp_create in src/local_proxy.c that makes the virtual hosts.
use sshpad.Prelude.{
  ℕ, ◌+◌, ◌≤◌, Option, none, some, List, [], ◌∷◌, ◌≡◌, refl, arith, Bytes, ℤ, length, ltb,
  if◌then◌else◌,
}
use sshpad.Text.{kw_eq}
use sshpad.Config.Host.{ForwardRule, SshHost, copy}
use sshpad.R2.{R2Config}
use sshpad.Manager.{create}
use sshpad.Proxy.{Vhost, port_of, find_backend_port}

abbrev pub max_vhosts : ℕ
max_vhosts = 64

-- generate_cert and create_vhost_ctx, whose answer for the host name is `cert`: the context, or none
-- if one of them failed. The slot is then used for the next host.
abbrev with_context : SshHost → ForwardRule → Option ℕ → List Vhost → List Vhost
with_context h r none vs = vs
with_context h r (some ctx) vs =
    record { hostname = copy 256 h.name; backend_port = r.bind_port; ssl_ctx = ctx } ∷ vs

abbrev used : Option ℕ → ℕ
used none = 0
used (some ctx) = 1

abbrev vhost_of : SshHost → List ForwardRule → Option ℕ → List Vhost → List Vhost
vhost_of h [] cert vs = vs
vhost_of h (r ∷ rs) cert vs = with_context h r cert vs

abbrev count_after : List ForwardRule → Option ℕ → ℕ → ℕ
count_after [] cert count = count
count_after (r ∷ rs) cert count = used cert + count

-- `count` is num_vhosts when the loop comes to the hosts.
unfoldable pub make_vhosts : (Bytes → Option ℕ) → ℕ → List SshHost → List Vhost
make_vhosts cert count [] = []
make_vhosts cert count (h ∷ hs) =
    let rest = make_vhosts cert (count_after h.local_forward (cert (copy 256 h.name)) count) hs in
    if ltb count max_vhosts then vhost_of h h.local_forward (cert (copy 256 h.name)) rest else []

-- The port of the first host of the name that has a forward and a certificate.
abbrev port_with : ForwardRule → Option ℕ → Option ℤ → Option ℤ
port_with r none later = later
port_with r (some ctx) later = some r.bind_port

abbrev port_here : List ForwardRule → Option ℕ → Option ℤ → Option ℤ
port_here [] cert later = later
port_here (r ∷ rs) cert later = port_with r cert later

unfoldable pub served_port : (Bytes → Option ℕ) → List SshHost → Bytes → Option ℤ
served_port cert [] name = none
served_port cert (h ∷ hs) name =
    let later = served_port cert hs name in
    if kw_eq (copy 256 h.name) name
    then port_here h.local_forward (cert (copy 256 h.name)) later
    else later

make_vhosts_count :
    (cert : Bytes → Option ℕ) (count : ℕ) (hosts : List SshHost)
    → count ≤ max_vhosts
    → count + length (make_vhosts cert count hosts) ≤ max_vhosts
unfolding make_vhosts
make_vhosts_count cert count [] few = omega arith
make_vhosts_count cert count (h ∷ hs) few =
    ground (arith, make_vhosts_count cert count hs, make_vhosts_count cert (1 + count) hs)

make_vhosts_port :
    (cert : Bytes → Option ℕ) (count : ℕ) (hosts : List SshHost) (name : Bytes)
    → count + length hosts ≤ max_vhosts
    → port_of (make_vhosts cert count hosts) name ≡ served_port cert hosts name
unfolding make_vhosts port_of served_port
make_vhosts_port cert count [] name few = refl
make_vhosts_port cert count (h ∷ hs) name few =
    ground (arith, make_vhosts_port cert count hs name, make_vhosts_port cert (1 + count) hs name)

-- The array of virtual hosts is never overrun; and for at most 64 hosts a connection goes to the local
-- port of the first forward of the first host with that name (upper and lower case apart) that has a
-- forward and a certificate.
pub find_backend_port-make_vhosts :
    (cert : Bytes → Option ℕ) (hosts : List SshHost) (name : Bytes)
    → length hosts ≤ max_vhosts
    → (length (make_vhosts cert 0 hosts) ≤ max_vhosts)
      × (find_backend_port (make_vhosts cert 0 hosts) (some name) ≡ served_port cert hosts name)
unfolding find_backend_port
find_backend_port-make_vhosts cert hosts name few = (
  omega (arith, make_vhosts_count cert 0 hosts (omega arith)),
  make_vhosts_port cert 0 hosts name (omega arith),
)

-- main calls lp_create with the hosts of a config manager that was just created: there is none, so
-- there is no virtual host, and lp_create gives up.
make_vhosts-create :
    (cert : Bytes → Option ℕ) (left : R2Config) (saved : Option R2Config)
    → make_vhosts cert 0 (create left saved).hosts ≡ []
unfolding make_vhosts create
make_vhosts-create cert left none = refl
make_vhosts-create cert left (some cfg) = refl
