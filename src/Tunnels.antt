-- ===== src/Tunnels.antt =====
-- src/process_manager.c: the table of tunnels and the operations on it. The first `num_tunnels`
-- slots of the array are a list. What the system answers (pipe, fork, waitpid) is an argument; what
-- the program sends (signals, notices to the browser) is part of the result.
pub mod Unique
pub mod Race
pub mod Monitor
pub mod Stop
pub mod Launch
pub mod KillAll
use sshpad.Prelude.{
  ℕ, zero, suc, Bool, true, false, not, ◌&&◌, ◌||◌, Option, none, some, List, [], ◌∷◌, ◌++◌, ◌==◌,
  leb, ltb, if◌then◌else◌, Bytes, length, set, str_eq, codes, or_else,
}
use sshpad.Text.{is_alnum}
use sshpad.Config.Host.{copy}
use sshpad.Config.Fields.{is_empty}

-- `pid` 0 and `stderr_fd` none are the fields of a slot that was never filled.
pub record Tunnel : Type 0 where
  pub host : Bytes
  pub pid : ℕ
  pub active : Bool
  pub stderr_fd : Option ℕ

abbrev pub zero_tunnel : Tunnel
zero_tunnel = record { host = []; pid = 0; active = false; stderr_fd = some 0 }

abbrev pub Table : Type 0
Table = List Tunnel

abbrev pub max_tunnels : ℕ
max_tunnels = 64

unfoldable pub all_alias_bytes : Bytes → Bool
all_alias_bytes [] = true
all_alias_bytes (c ∷ cs) = (is_alnum c || c == b'-' || c == b'_' || c == b'.') && all_alias_bytes cs

unfoldable pub is_valid_host_alias : Bytes → Bool
is_valid_host_alias name = not (is_empty name) && all_alias_bytes name

unfoldable pub runs_host : Bytes → Tunnel → Bool
runs_host name t = t.active && str_eq t.host name

-- The loops over the table: is a tunnel of the host active, and which one is it.
unfoldable pub has_active : Bytes → Table → Bool
has_active name [] = false
has_active name (t ∷ ts) = runs_host name t || has_active name ts

unfoldable pub find_active : Bytes → Table → Option Tunnel
find_active name [] = none
find_active name (t ∷ ts) =
    let later = find_active name ts in if runs_host name t then some t else later

unfoldable pub shift_slot : Option ℕ → Option ℕ
shift_slot none = none
shift_slot (some i) = some (suc i)

unfoldable pub find_inactive : Table → Option ℕ
find_inactive [] = none
find_inactive (t ∷ ts) =
    let later = shift_slot (find_inactive ts) in if not t.active then some 0 else later

unfoldable pub take_slot : Table → Option ℕ → Option (Table × ℕ)
take_slot ts (some i) = some (ts, i)
take_slot ts none =
    if leb max_tunnels (length ts) then none else some (ts ++ zero_tunnel ∷ [], length ts)

-- The first critical section of process_manager_start_tunnel: a slot for the tunnel.
unfoldable pub reserve : Bytes → Table → Option (Table × ℕ)
reserve name ts = if has_active name ts then none else take_slot ts (find_inactive ts)

-- The second one, after fork: the slot is filled.
unfoldable pub register : Bytes → ℕ → Option ℕ → ℕ → Table → Table
register name pid fd slot ts =
    set ts slot (record { host = copy 128 name; pid = pid; active = true; stderr_fd = fd })

pub data Status : Type 0 where
  starting active_status error_status inactive_status : Status

-- The table that is left, and whether the call returned 0 (it then sent the notice `starting`).
pub record Started : Type 0 where
  pub table : Table
  pub succeeded : Bool

abbrev pub fork_and_register : Bytes → Option ℕ → Option ℕ → Table → Option (Table × ℕ) → Started
fork_and_register name fd pid ts none = record { table = ts; succeeded = false }
fork_and_register name fd none ts (some (ts', slot)) = record { table = ts'; succeeded = false }
fork_and_register name fd (some p) ts (some (ts', slot)) = record {
  table = register name p fd slot ts';
  succeeded = true;
}

-- process_manager_start_tunnel with no other thread between its critical sections. `fd` is the
-- read end of the pipe, none if pipe failed; `pid` is none if fork failed.
unfoldable pub start_tunnel : Bytes → Option ℕ → Option ℕ → Table → Started
start_tunnel name fd pid ts =
    if is_valid_host_alias name
    then fork_and_register name fd pid ts (reserve name ts)
    else record { table = ts; succeeded = false }

abbrev pid_of : Option Tunnel → Option ℕ
pid_of none = none
pid_of (some t) = some t.pid

-- The process group that gets SIGTERM; none is the result -1.
unfoldable pub stop_tunnel : Bytes → Table → Option ℕ
stop_tunnel name ts = pid_of (find_active name ts)

unfoldable pub get_tunnel_status : Bytes → Table → Status
get_tunnel_status name ts = if has_active name ts then active_status else inactive_status

-- The first pass of process_manager_kill_all: who gets SIGTERM.
unfoldable pub term_targets : Table → List ℕ
term_targets [] = []
term_targets (t ∷ ts) = if t.active && ltb 0 t.pid then t.pid ∷ term_targets ts else term_targets ts

-- What `waitpid(pid, &wstatus, WNOHANG)` answers: 0, the process, or -1.
pub data Waited : Type 0 where
  running collected wait_failed : Waited

abbrev pub is_running : Waited → Bool
is_running running = true
is_running collected = false
is_running wait_failed = false

-- The second pass, over the table half a second later: who gets SIGKILL.
unfoldable pub kill_targets : (ℕ → Waited) → Table → List ℕ
kill_targets answer [] = []
kill_targets answer (t ∷ ts) =
    if t.active && ltb 0 t.pid && is_running (answer t.pid)
    then t.pid ∷ kill_targets answer ts
    else kill_targets answer ts

unfoldable pub deactivate_all : Table → Table
deactivate_all [] = []
deactivate_all (t ∷ ts) =
    (if t.active && ltb 0 t.pid then record t { active = false } else t) ∷ deactivate_all ts

-- What a monitor thread does to its slot when the process is gone.
unfoldable pub release_slot : ℕ → Table → Table
release_slot zero [] = []
release_slot (suc slot) [] = []
release_slot zero (t ∷ ts) = record t { active = false; stderr_fd = none } ∷ ts
release_slot (suc slot) (t ∷ ts) = t ∷ release_slot slot ts
