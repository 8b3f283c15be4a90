-- ===== src/Terminal.antt =====
-- src/terminal_launch.c, as it is compiled for Linux: a terminal window with ssh in it. What `which`
-- and fork answer is an argument.
pub mod Quoting
use sshpad.Prelude.{
  ℕ, Bool, Option, none, some, List, [], ◌∷◌, ◌++◌, if◌then◌else◌, Bytes, codes, cat,
}
use sshpad.Config.Host.{copy}

-- term_t: the program that is looked for, and the format of the command around its `%s`.
pub record Terminal : Type 0 where
  pub check : Bytes
  pub before : Bytes
  pub after : Bytes

abbrev pub in_shell : Bytes → Bytes → Terminal
in_shell check before = record { check = check; before = before; after = codes "; exec bash'" }

unfoldable pub terminals : List Terminal
terminals =
    in_shell (codes "gnome-terminal") (codes "gnome-terminal -- sh -c '")
    ∷ in_shell (codes "konsole") (codes "konsole -e sh -c '")
    ∷ record {
      check = codes "xfce4-terminal";
      before = codes "xfce4-terminal -e 'sh -c \"";
      after = codes "; exec bash\"'";
    }
    ∷ in_shell (codes "alacritty") (codes "alacritty -e sh -c '")
    ∷ in_shell (codes "kitty") (codes "kitty sh -c '")
    ∷ in_shell (codes "foot") (codes "foot sh -c '")
    ∷ record {
      check = codes "x-terminal-emulator";
      before = codes "x-terminal-emulator -e 'sh -c \"";
      after = codes "\"'";
    }
    ∷ record { check = codes "xterm"; before = codes "xterm -e 'sh -c \""; after = codes "\"'" }
    ∷ []

unfoldable pub ssh_cmd : Bytes → Bytes
unfolding copy
ssh_cmd host = copy 256 (codes "ssh " ++ host)

unfoldable pub which_cmd : Terminal → Bytes
unfolding copy
which_cmd t = copy 128 (codes "which " ++ (t.check ++ codes " >/dev/null 2>&1"))

unfoldable pub full_cmd : Terminal → Bytes → Bytes
unfolding ssh_cmd
full_cmd t host = copy 1024 (t.before ++ (ssh_cmd host ++ t.after))

-- The process, and the command that its shell is given.
abbrev pub forked : Option ℕ → Bytes → Option (ℕ × Bytes)
forked none cmd = none
forked (some pid) cmd = some (pid, cmd)

-- The loop over the table: `available` says for which commands system returns 0.
unfoldable pub launch_first : (Bytes → Bool) → Option ℕ → Bytes → List Terminal → Option (ℕ × Bytes)
unfolding which_cmd full_cmd
launch_first available pid host [] = none
launch_first available pid host (t ∷ ts) =
    let later = launch_first available pid host ts in
    if available (which_cmd t) then forked pid (full_cmd t host) else later

-- none is the result -1.
unfoldable pub launch_terminal_with_ssh :
    (Bytes → Bool) → Option ℕ → Option Bytes → Option (ℕ × Bytes)
unfolding launch_first terminals
launch_terminal_with_ssh available pid none = none
launch_terminal_with_ssh available pid (some []) = none
launch_terminal_with_ssh available pid (some (c ∷ cs)) =
    launch_first available pid (c ∷ cs) terminals
