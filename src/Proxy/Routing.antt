-- ===== src/Proxy/Routing.antt =====
-- The two searches of a connection agree.
use sshpad.Prelude.{
  ℕ, suc, true, get_elem?, Option, some, List, [], ◌∷◌, ◌≡◌, refl, inl, inr, Bytes, ℤ, Bool-cases,
  arith,
}
use sshpad.Text.{kw_eq}
use sshpad.Proxy.{Vhost, ok, set_context, sni_callback, port_of, find_backend_port}

-- A virtual host of the list has this name, this context and this port.
unfoldable pub Serves : List Vhost → Bytes → ℕ → Option ℤ → Type 0
Serves vs name ctx port =
    (i : ℕ) × (v : Vhost) × (get_elem? vs i ≡ some v)
    × (kw_eq v.hostname name ≡ true)
    × (v.ssl_ctx ≡ ctx)
    × (port ≡ some v.backend_port)

set_context-port_of :
    (vs : List Vhost) (name : Bytes) (ctx : ℕ)
    → set_context vs name ≡ ok ctx
    → Serves vs name ctx (port_of vs name)
unfolding set_context port_of Serves
set_context-port_of [] name ctx e = cc
set_context-port_of (v ∷ vs) name ctx e = elim (Bool-cases (kw_eq v.hostname name)) [
  | inl same ↦ (0, v, refl, same, ground arith, rw same refl)
  | inr other ↦
      let rest : Serves vs name ctx (port_of vs name) =
        set_context-port_of vs name ctx (ground arith) in
      rw other (suc rest.0, rest.1, rest.2, rest.3, rest.4, rest.5)
]

-- A connection that was given the certificate of a context goes to the backend of the virtual host
-- with that context, whose name is the one the client sent, upper and lower case apart.
pub sni_callback-find_backend_port :
    (vs : List Vhost) (name : Bytes) (ctx : ℕ)
    → sni_callback vs (some name) ≡ ok ctx
    → Serves vs name ctx (find_backend_port vs (some name))
unfolding sni_callback find_backend_port
sni_callback-find_backend_port vs name ctx e = set_context-port_of vs name ctx e
