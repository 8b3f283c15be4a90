-- ===== src/Environment.antt =====
-- The variables of the environment, as getenv, setenv and unsetenv see them, and the directories that
-- src/window_state.c and src/local_proxy.c make.
use sshpad.Prelude.{Option, none, some, [], ◌∷◌, if◌then◌else◌, Bytes, str_eq}

abbrev pub Environment : Type 0
Environment = Bytes → Option Bytes

unfoldable pub setenv : Bytes → Bytes → Environment → Environment
setenv name value env other = if str_eq name other then some value else env other

unfoldable pub unsetenv : Bytes → Environment → Environment
unsetenv name env other = if str_eq name other then none else env other

-- `value && value[0]`
unfoldable pub non_empty : Option Bytes → Option Bytes
non_empty none = none
non_empty (some []) = none
non_empty (some (c ∷ cs)) = some (c ∷ cs)
