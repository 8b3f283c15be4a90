-- ===== src/Tunnels/Launch.antt =====
-- src/process_manager.c: the child that becomes ssh, what is read of its standard error, and the
-- messages to the browser.
pub mod Stderr
use sshpad.Prelude.{
  ℕ, zero, suc, ◌+◌, ◌-◌, ◌≤◌, ◌<◌, Bool, true, false, not, ◌||◌, Option, none, some, List, [], ◌∷◌,
  ◌++◌, ◌≡◌, refl, ap, ◌∙◌, inl, inr, arith, ◌==◌, leb, if◌then◌else◌, Bytes, ℤ, pos, codes, length,
  take, length-append, length-take-le, Bool-cases, append-nil, append_assoc, take_fits,
}
use sshpad.Text.{c_str}
use sshpad.Json.{JsonC}
use sshpad.Config.Host.{copy}
use sshpad.Config.Fields.{is_empty}
use sshpad.Environment.{Environment, setenv}

-- argv of process_manager_start_tunnel.
unfoldable pub ssh_argv : Bytes → List Bytes
ssh_argv name =
    codes "ssh"
    ∷ codes "-N"
    ∷ codes "-o"
    ∷ codes "ExitOnForwardFailure=yes"
    ∷ codes "-o"
    ∷ codes "ConnectTimeout=10"
    ∷ codes "-o"
    ∷ codes "ServerAliveInterval=30"
    ∷ codes "-o"
    ∷ codes "ServerAliveCountMax=3"
    ∷ name
    ∷ []

abbrev with_display : Option Bytes → Environment → Environment
with_display (some value) env = env
with_display none env = setenv (codes "DISPLAY") (codes ":0") env

abbrev with_askpass : Bytes → Environment → Environment
with_askpass path env =
    setenv (codes "SSH_ASKPASS_REQUIRE") (codes "force") (setenv (codes "SSH_ASKPASS") path env)

-- The environment of the child.
unfoldable pub child_env : Bytes → Environment → Environment
unfolding setenv
child_env path env =
    if is_empty path
    then env
    else with_display (with_askpass path env (codes "DISPLAY")) (with_askpass path env)

-- process_manager_create: the path of the script that the manager keeps, in 512 bytes.
unfoldable pub kept_path : Option Bytes → Bytes
unfolding copy
kept_path none = []
kept_path (some path) = copy 512 path

-- The loop of read_stderr: what read gives each time, never more than the room it was given; an empty
-- piece is the end, or an error.
unfoldable pub read_pieces : Bytes → List Bytes → Bytes
read_pieces buf [] = buf
read_pieces buf ([] ∷ ps) = buf
read_pieces buf ((c ∷ cs) ∷ ps) =
    let grown = buf ++ take (2047 - length buf) (c ∷ cs) in
    let rest = read_pieces grown ps in if leb 2047 (length grown) then grown else rest

abbrev pub is_line_end : ℕ → Bool
is_line_end c = c == 10 || c == 13

-- The loop that removes the line ends behind the text.
unfoldable pub strip_line_ends : Bytes → Bytes
strip_line_ends [] = []
strip_line_ends (c ∷ cs) = elim (strip_line_ends cs) [
  | [] ↦ if is_line_end c then [] else c ∷ []
  | d ∷ ds ↦ c ∷ d ∷ ds
]

-- strdup of what is left.
abbrev pub stripped : Bytes → Option Bytes
stripped [] = none
stripped (c ∷ cs) = some (c_str (strip_line_ends (c ∷ cs)))

-- read_stderr. Its argument is none if there is no pipe.
unfoldable pub read_stderr : Option (List Bytes) → Option Bytes
unfolding read_pieces strip_line_ends
read_stderr none = none
read_stderr (some pieces) = stripped (read_pieces [] pieces)

module _ (c : JsonC) where
  open c use {Json, new_string, new_int, new_object}

  abbrev message_member : Option Bytes → List (Bytes × Json)
  message_member none = []
  message_member (some text) = (codes "message", new_string text) ∷ []

  -- The object of broadcast_status_msg.
  unfoldable pub status_json : Bytes → Bytes → ℤ → Option Bytes → Json
  status_json host status code message = new_object (
      (codes "host", new_string host)
      ∷ (codes "status", new_string status)
      ∷ (codes "exitCode", new_int code)
      ∷ message_member message)

  -- The object of the notice `starting`.
  unfoldable pub starting_json : Bytes → ℤ → Json
  starting_json host pid = new_object (
      (codes "host", new_string host)
      ∷ (codes "status", new_string (codes "starting"))
      ∷ (codes "pid", new_int pid)
      ∷ [])
