-- ===== src/Startup.antt =====
-- src/main.c: the environment that the program gives itself before it starts.
pub mod Snap
pub mod Run
use sshpad.Prelude.{
  Bool, true, false, not, ◌&&◌, Option, none, some, List, [], ◌∷◌, ◌++◌, if◌then◌else◌, Bytes,
  codes, str_eq,
}
use sshpad.Text.{find_text}
use sshpad.Config.Host.{copy}
use sshpad.Environment.{Environment, setenv, unsetenv}

-- `value && strstr(value, "/snap/")`
unfoldable pub in_snap : Option Bytes → Bool
unfolding find_text
in_snap none = false
in_snap (some value) = elim (find_text (codes "/snap/") value) [ none ↦ false | some i ↦ true ]

abbrev pub snap_vars : List Bytes
snap_vars =
    codes "GTK_PATH"
    ∷ codes "GTK_EXE_PREFIX"
    ∷ codes "GTK_IM_MODULE_FILE"
    ∷ codes "GIO_MODULE_DIR"
    ∷ codes "GSETTINGS_SCHEMA_DIR"
    ∷ codes "LOCPATH"
    ∷ codes "XDG_DATA_HOME"
    ∷ codes "XDG_DATA_DIRS"
    ∷ codes "XDG_CONFIG_DIRS"
    ∷ codes "GDK_BACKEND"
    ∷ codes "LD_LIBRARY_PATH"
    ∷ []

unfoldable pub orig_key : Bytes → Bytes
unfolding copy
orig_key var = copy 128 (var ++ codes "_VSCODE_SNAP_ORIG")

-- The body of the loop: the value that was saved is put back, and one of Snap is removed.
unfoldable pub put_back : Option Bytes → Bytes → Environment → Environment
unfolding setenv unsetenv in_snap
put_back (some []) var env = unsetenv var env
put_back (some (c ∷ cs)) var env = setenv var (c ∷ cs) env
put_back none var env = if in_snap (env var) then unsetenv var env else env

unfoldable pub restore : Bytes → Environment → Environment
unfolding put_back orig_key
restore var env = put_back (env (orig_key var)) var env

unfoldable pub restore_all : List Bytes → Environment → Environment
restore_all [] env = env
restore_all (var ∷ vars) env = restore_all vars (restore var env)

unfoldable pub sanitize_snap_env : Environment → Environment
unfolding restore_all restore in_snap
sanitize_snap_env env =
    if not (in_snap (env (codes "GTK_EXE_PREFIX"))) && not (in_snap (env (codes "LD_LIBRARY_PATH")))
    then env
    else restore_all snap_vars env
