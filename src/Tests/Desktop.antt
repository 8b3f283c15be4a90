-- ===== src/Tests/Desktop.antt =====
-- src/main.c, src/window_state.c, src/terminal_launch.c, the script of src/askpass.c and the start of a
-- child in src/process_manager.c at concrete inputs.
use sshpad.Prelude.{
  Bool, true, none, some, [], ◌∷◌, ◌≡◌, refl, arith, Bytes, codes, pos, negsuc, str_eq, take,
}
use sshpad.Text.{is_alnum, print_int}
use sshpad.Config.Fields.{is_empty}
use sshpad.Config.Host.{copy}
use sshpad.Environment.{Environment, setenv}
use sshpad.Output.{wrote, interrupted}
use sshpad.Window.{load_geom, save_geom}
use sshpad.Window.RoundTrip.{reopened, load_geom-save_geom}
use sshpad.Startup.{sanitize_snap_env}
use sshpad.Startup.Snap.{sanitized, sanitize_snap_env-sanitized}
use sshpad.Terminal.{terminals, launch_terminal_with_ssh}
use sshpad.Terminal.Quoting.{Runs, launch_terminal-Runs}
use sshpad.Tunnels.{is_valid_host_alias, all_alias_bytes}
use sshpad.Askpass.Script.{askpass_init, script_text}
use sshpad.Askpass.Script.Whole.{Clean, askpass_init-Clean}

load_geom-save_geom_example :
    load_geom (save_geom true (pos 150) (pos 800) (some (negsuc 9, pos 40)) none)
    ≡ reopened (pos 150) (pos 800) (negsuc 9, pos 40)
load_geom-save_geom_example =
    load_geom-save_geom (pos 150) (pos 800) (negsuc 9) (pos 40) none (omega arith) (omega arith)
      (omega arith) (omega arith) refl refl

no_variables : Environment
no_variables name = none

abbrev snap_env : Environment
snap_env = setenv (codes "GTK_EXE_PREFIX") (codes "/snap/code/1/usr") no_variables

sanitize_snap_env-sanitized_example :
    sanitize_snap_env snap_env (codes "GTK_EXE_PREFIX")
    ≡ sanitized snap_env (codes "GTK_EXE_PREFIX")
sanitize_snap_env-sanitized_example = sanitize_snap_env-sanitized snap_env (codes "GTK_EXE_PREFIX")

prefix_removed : sanitize_snap_env snap_env (codes "GTK_EXE_PREFIX") ≡ none
unfolding sanitize_snap_env no_variables setenv str_eq
prefix_removed = refl

abbrev foot_only : Bytes → Bool
foot_only cmd = str_eq (take 10 cmd) (codes "which foot")

web_launched :
    launch_terminal_with_ssh foot_only (some 7) (some (codes "web-1"))
    ≡ some (7, codes "foot sh -c 'ssh web-1; exec bash'")
unfolding launch_terminal_with_ssh str_eq
web_launched = refl

web_valid : is_valid_host_alias (codes "web-1") ≡ true
unfolding is_valid_host_alias all_alias_bytes is_alnum is_empty
web_valid = refl

launch_terminal-Runs_example :
    Runs (codes "web-1") (codes "foot sh -c 'ssh web-1; exec bash'") terminals
launch_terminal-Runs_example =
    launch_terminal-Runs foot_only (some 7) (codes "web-1")
      (codes "foot sh -c 'ssh web-1; exec bash'") 7 web_valid (omega arith) web_launched

abbrev tmp : Bytes
tmp = codes "/tmp/sshpad-askpass-a1b2c3"

script_made :
    askpass_init (some tmp) (wrote 100 ∷ interrupted ∷ wrote 4000 ∷ []) true (pos 4242)
    ≡ some (some tmp, some (script_text (pos 4242)))
unfolding askpass_init script_text print_int copy
script_made = refl

askpass_init-Clean_example : Clean (pos 4242) tmp (some tmp, some (script_text (pos 4242)))
askpass_init-Clean_example =
    askpass_init-Clean tmp (wrote 100 ∷ interrupted ∷ wrote 4000 ∷ []) true (pos 4242)
      (some tmp, some (script_text (pos 4242))) (omega arith) script_made
