-- ===== src/Config/Writer/Disk.antt =====
-- copy_file and ssh_hosts_write_config of src/config_parser.c, on the files they open. What the system
-- answers is an argument; the permissions of the files are not modelled.
pub mod Backup
use sshpad.Prelude.{
  ℕ, zero, suc, Bool, true, false, not, Option, none, some, List, [], ◌∷◌, ◌++◌, ◌==◌,
  if◌then◌else◌, Bytes, length, take, codes, str_eq, map,
}
use sshpad.Text.{find_last}
use sshpad.Config.Host.{SshHost, copy}
use sshpad.Config.Fields.{Env}
use sshpad.Config.Parser.{resolve_path}
use sshpad.Config.Writer.{write_text}

-- The content of the file of a path, none where there is no file.
abbrev pub Disk : Type 0
Disk = Bytes → Option Bytes

unfoldable pub set_file : Disk → Bytes → Bytes → Disk
set_file disk path content other = if str_eq other path then some content else disk other

-- `made`: mkdir made the directory, or it is there. `opened_in` and `opened_out` are the two fopen of
-- copy_file, `pieces` what its fread gives until it gives nothing, each with the number of bytes that
-- fwrite took. `opened` is the fopen of the file to write, and `kept` is how many bytes of the text
-- came to the disk.
pub record Files : Type 0 where
  pub made : Bool
  pub opened_in : Bool
  pub opened_out : Bool
  pub pieces : List (Bytes × ℕ)
  pub opened : Bool
  pub kept : ℕ

-- What the copy holds, and whether every fwrite took its whole piece.
unfoldable pub copy_pieces : Bytes → List (Bytes × ℕ) → Bytes × Bool
copy_pieces out [] = (out, true)
copy_pieces out ((piece, n) ∷ rest) =
    let later = copy_pieces (out ++ piece) rest in
    if n == length piece then later else (out ++ take n piece, false)

-- The disk that is left, and whether the result is 0.
unfoldable pub copy_file : Files → Disk → Bytes → Disk × Bool
copy_file a disk dst =
    if not a.opened_in
    then (disk, false)
    else if not a.opened_out
    then (disk, false)
    else (set_file disk dst (copy_pieces [] a.pieces).0, (copy_pieces [] a.pieces).1)

-- Is there a directory to make: a slash that is not the first byte.
abbrev pub has_parent : Option ℕ → Bool
has_parent none = false
has_parent (some zero) = false
has_parent (some (suc i)) = true

abbrev pub exists_in : Option Bytes → Bool
exists_in none = false
exists_in (some content) = true

unfoldable pub bak_path : Bytes → Bytes
bak_path resolved = copy 1024 (resolved ++ codes ".bak")

-- fprintf and fclose are not asked whether the text was written.
abbrev write_file : Files → Bytes → List SshHost → Disk → Disk × Bool
write_file a resolved hosts disk =
    if a.opened
    then (set_file disk resolved (take a.kept (write_text hosts)), true)
    else (disk, false)

abbrev pub after_backup : Files → Bytes → List SshHost → Disk × Bool → Disk × Bool
after_backup a resolved hosts (disk, true) = write_file a resolved hosts disk
after_backup a resolved hosts (disk, false) = (disk, false)

unfoldable pub back_up : Files → Bytes → Disk → Disk × Bool
back_up a resolved disk =
    if exists_in (disk resolved) then copy_file a disk (bak_path resolved) else (disk, true)

unfoldable pub write_resolved : Files → Bytes → List SshHost → Disk → Disk × Bool
write_resolved a resolved hosts disk =
    if has_parent (find_last b'/' resolved)
    then (if a.made then after_backup a resolved hosts (back_up a resolved disk) else (disk, false))
    else after_backup a resolved hosts (back_up a resolved disk)

unfoldable pub ssh_hosts_write_config : Env → Files → List SshHost → Bytes → Disk → Disk × Bool
ssh_hosts_write_config env a hosts path disk = write_resolved a (resolve_path env path) hosts disk
