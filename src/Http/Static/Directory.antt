-- ===== src/Http/Static/Directory.antt =====
-- find_ui_dir of src/http_server.c, as it is compiled for Linux: where the browser part is. What readlink
-- and access answer is an argument.
use sshpad.Prelude.{
  ℕ, Bool, ◌&&◌, not, Option, none, some, List, [], ◌∷◌, ◌++◌, if◌then◌else◌, Bytes, codes, take,
}
use sshpad.Text.{find_last}
use sshpad.Config.Host.{copy}
use sshpad.Config.Fields.{is_empty}

abbrev beside : Bytes → Option ℕ → Bytes
beside exe none = []
beside exe (some slash) = copy 512 (take slash exe ++ codes "/ui")

-- The directory beside the program; `exe` is what readlink gives of /proc/self/exe.
unfoldable pub exe_ui_path : Option Bytes → Bytes
unfolding find_last copy
exe_ui_path none = []
exe_ui_path (some exe) = beside (take 507 exe) (find_last b'/' (take 507 exe))

unfoldable pub candidates : Option Bytes → List Bytes
unfolding exe_ui_path
candidates exe =
    codes "./ui/dist"
    ∷ codes "./ui"
    ∷ exe_ui_path exe
    ∷ []
    ∷ codes "/usr/local/share/sshpad/ui"
    ∷ codes "/usr/share/sshpad/ui"
    ∷ []

unfoldable pub first_readable : (Bytes → Bool) → List Bytes → Bytes
unfolding is_empty
first_readable readable [] = codes "./ui"
first_readable readable (d ∷ ds) =
    let later = first_readable readable ds in if not (is_empty d) && readable d then d else later

unfoldable pub find_ui_dir : (Bytes → Bool) → Option Bytes → Bytes
unfolding candidates first_readable
find_ui_dir readable exe = first_readable readable (candidates exe)
