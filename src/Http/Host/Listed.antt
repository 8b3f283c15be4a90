-- ===== src/Http/Host/Listed.antt =====
-- The list of hosts that src/http_server.c gives the browser.
use sshpad.Prelude.{[], some, map, ◌≡◌, refl, All, str_eq, suc, ℕ}
use sshpad.Json.{JsonC, spaced, assoc, has_unique_keys, lacks_key}
use sshpad.Config.Host.{SshHost, Fits}
use sshpad.Config.Json.{host_of_json, ssh_hosts_from_json}
use sshpad.Config.Json.RoundTrip.{
  stored, host_of_json-new_object, locals-IsNested, dynamics-IsNested,
  ssh_hosts_from_json-new_array,
}
use sshpad.Tunnels.{Table}
use sshpad.Http.{App, Response, reply}
use sshpad.Http.Host.{listed_host, handle_get_hosts}

module _ (c : JsonC) where
  host_of_json-listed_host :
      (ts : Table) (h : SshHost) → Fits h → host_of_json c (listed_host c ts h) ≡ stored h
  unfolding listed_host has_unique_keys lacks_key assoc str_eq
  host_of_json-listed_host ts h fit =
      host_of_json-new_object c _ h fit refl refl refl refl refl refl refl refl refl refl

  listed_host-IsNested :
      (n : ℕ) (ts : Table) (h : SshHost) → c.IsNested (suc (suc (suc n))) (listed_host c ts h)
  unfolding listed_host
  listed_host-IsNested n ts h = c.new_object-IsNested (suc (suc n)) _ (
    c.new_string-IsNested _ h.name,
    (
      c.new_string-IsNested _ h.hostname,
      (
        c.new_string-IsNested _ h.user,
        (
          c.new_int-IsNested _ _,
          (
            c.new_string-IsNested _ h.identity_file,
            (
              c.new_string-IsNested _ h.proxy_jump,
              (
                locals-IsNested c n h.local_forward,
                (
                  locals-IsNested c n h.remote_forward,
                  (dynamics-IsNested c n h.dynamic_forward, (c.new_string-IsNested _ _, tt)),
                ),
              ),
            ),
          ),
        ),
      ),
    ),
  )

  -- The body that answers GET /api/hosts is one that ssh_hosts_from_json reads: it gives the hosts of the
  -- config manager, each that fits its struct, without their generic options and with port 22 for a
  -- port of 0. The request changes nothing.
  pub handle_get_hosts-ssh_hosts_from_json :
      (app : App)
      → All Fits app.manager.hosts
      → (r : Response) × (handle_get_hosts c app ≡ reply app r [])
        × (ssh_hosts_from_json c r.body ≡ some (map stored app.manager.hosts))
  unfolding handle_get_hosts
  handle_get_hosts-ssh_hosts_from_json app fits = (
    _,
    refl,
    ssh_hosts_from_json-new_array c spaced (listed_host c app.tunnels) app.manager.hosts
        (host_of_json-listed_host app.tunnels) (listed_host-IsNested 27 app.tunnels) fits,
  )
