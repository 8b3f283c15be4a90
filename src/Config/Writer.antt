-- ===== src/Config/Writer.antt =====
-- ssh_hosts_write_config of src/config_parser.c: the text that it writes.
pub mod Lines
pub mod Forwards
pub mod Replay
pub mod Writable
pub mod Rebuild
pub mod RoundTrip
pub mod Disk
use sshpad.Prelude.{
  ℕ, suc, ◌+◌, Bool, true, false, not, ◌&&◌, ◌||◌, List, [], ◌∷◌, ◌++◌, ◌==◌, if◌then◌else◌, Bytes,
  ℤ, pos, is_zero, map, codes, str_eq,
}
use sshpad.Text.{print_int}
use sshpad.Config.Host.{ForwardRule, DynamicRule, SshOption, SshHost}
use sshpad.Config.Fields.{is_empty}

-- "%s:%d %s:%d"
unfoldable pub forward_text : ForwardRule → Bytes
forward_text r =
    r.bind_addr
    ++ (b':'
        ∷ (print_int r.bind_port ++ (b' ' ∷ (r.remote_host ++ (b':' ∷ print_int r.remote_port)))))

-- "%s:%d"
unfoldable pub dynamic_text : DynamicRule → Bytes
dynamic_text r = r.bind_addr ++ (b':' ∷ print_int r.bind_port)

-- Port 22 is left out, and so is a port that was never set.
unfoldable pub is_default_port : ℤ → Bool
is_default_port (pos n) = n == 0 || n == 22
is_default_port n = false

abbrev pub Pair : Type 0
Pair = Bytes × Bytes

unfoldable pub written_if : Bool → Bytes → Bytes → List Pair
written_if true key val = (key, val) ∷ []
written_if false key val = []

unfoldable pub forward_pairs : Bytes → List ForwardRule → List Pair
forward_pairs key [] = []
forward_pairs key (r ∷ rs) = (key, forward_text r) ∷ forward_pairs key rs

unfoldable pub dynamic_pairs : List DynamicRule → List Pair
dynamic_pairs [] = []
dynamic_pairs (r ∷ rs) = (codes "DynamicForward", dynamic_text r) ∷ dynamic_pairs rs

unfoldable pub option_pairs : List SshOption → List Pair
option_pairs [] = []
option_pairs (o ∷ os) = (o.key, o.value) ∷ option_pairs os

-- The keywords and the values of the indented lines of a host, in order.
unfoldable pub host_pairs : SshHost → List Pair
host_pairs h =
    written_if (not (is_empty h.hostname) && not (str_eq h.hostname h.name)) (codes "HostName")
      h.hostname
    ++ (written_if (not (is_empty h.user)) (codes "User") h.user
        ++ (written_if (not (is_default_port h.port)) (codes "Port") (print_int h.port)
            ++ (written_if (not (is_empty h.identity_file)) (codes "IdentityFile") h.identity_file
                ++ (written_if (not (is_empty h.proxy_jump)) (codes "ProxyJump") h.proxy_jump
                    ++ (forward_pairs (codes "LocalForward") h.local_forward
                        ++ (forward_pairs (codes "RemoteForward") h.remote_forward
                            ++ (dynamic_pairs h.dynamic_forward ++ option_pairs h.options)))))))

-- "    %s %s\n"
unfoldable pub write_pairs : List Pair → Bytes → Bytes
write_pairs [] rest = rest
write_pairs ((key, val) ∷ ps) rest =
    codes "    " ++ (key ++ (b' ' ∷ (val ++ (b'\n' ∷ write_pairs ps rest))))

unfoldable pub write_hosts : List SshHost → Bytes
write_hosts [] = []
write_hosts (h ∷ hs) =
    b'\n' ∷ (codes "Host " ++ (h.name ++ (b'\n' ∷ write_pairs (host_pairs h) (write_hosts hs))))

-- The first line, with a long dash of three bytes.
abbrev pub header : Bytes
header = codes "# Generato da SSHPad " ++ (226 ∷ 128 ∷ 148 ∷ codes " non modificare manualmente")

unfoldable pub write_text : List SshHost → Bytes
write_text hosts = header ++ (b'\n' ∷ write_hosts hosts)
