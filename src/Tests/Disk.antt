-- ===== src/Tests/Disk.antt =====
-- ssh_hosts_write_config of src/config_parser.c at concrete files.
use sshpad.Prelude.{
  true, false, none, some, [], ◌∷◌, ◌≡◌, refl, ◌≢◌, arith, Bytes, length, codes, str_eq,
  if◌then◌else◌, ◌<◌, ◌≤◌,
}
use sshpad.Text.{find_last}
use sshpad.Config.Host.{copy}
use sshpad.Config.Fields.{expand_tilde, home_dir, is_empty}
use sshpad.Config.Parser.{resolve_path, parse_ssh_config}
use sshpad.Config.Writer.{write_text}
use sshpad.Config.Writer.Disk.{
  Disk, Files, bak_path, ssh_hosts_write_config, write_resolved, back_up, copy_file, copy_pieces,
}
use sshpad.Config.Writer.Disk.Backup.{ssh_hosts_write_config_done, ssh_hosts_write_config_failed}
use sshpad.Tests.Config.{env, grow, web, web-IsWritable}

abbrev file : Bytes
file = codes "/home/ada/.ssh/config"

abbrev old : Bytes
old = codes "Host old\n"

abbrev disk : Disk
unfolding str_eq
disk path = if str_eq path file then some old else none

abbrev fine : Files
fine = record {
  made = true;
  opened_in = true;
  opened_out = true;
  pieces = (old, 9) ∷ [];
  opened = true;
  kept = length (write_text (web ∷ []));
}

abbrev read_only : Files
read_only = record fine { opened = false }

resolved : resolve_path env [] ≡ file
unfolding resolve_path expand_tilde home_dir is_empty copy
resolved = refl

file_short : length (resolve_path env []) < 1020
file_short = rw resolved (omega arith)

there_is_old : disk (resolve_path env []) ≡ some old
unfolding str_eq
there_is_old = rw resolved refl

text_kept : length (write_text (web ∷ [])) ≤ fine.kept
text_kept = omega arith

hosts_elsewhere : codes "/etc/hosts" ≢ resolve_path env []
hosts_elsewhere = rw resolved (λ e. absurd (cc))

backup_path : bak_path file ≡ codes "/home/ada/.ssh/config.bak"
unfolding bak_path copy
backup_path = refl

not_backup : codes "/etc/hosts" ≢ bak_path (resolve_path env [])
not_backup = rw (resolved, backup_path) (λ e. absurd (cc))

is_written : (ssh_hosts_write_config env fine (web ∷ []) [] disk).1 ≡ true
unfolding ssh_hosts_write_config write_resolved back_up copy_file copy_pieces str_eq find_last
is_written = rw resolved refl

is_refused : (ssh_hosts_write_config env read_only (web ∷ []) [] disk).1 ≡ false
unfolding ssh_hosts_write_config write_resolved back_up copy_file copy_pieces str_eq find_last
is_refused = rw resolved refl

ssh_hosts_write_config_done_example :
    (parse_ssh_config env grow (ssh_hosts_write_config env fine (web ∷ []) [] disk).0 []
      ≡ some (web ∷ []))
    × ((ssh_hosts_write_config env fine (web ∷ []) [] disk).0 (bak_path (resolve_path env []))
        ≡ some old)
    × ((ssh_hosts_write_config env fine (web ∷ []) [] disk).0 (codes "/etc/hosts")
        ≡ disk (codes "/etc/hosts"))
ssh_hosts_write_config_done_example =
    ssh_hosts_write_config_done env fine (web ∷ []) [] disk grow old (codes "/etc/hosts")
      (λ n. refl) (web-IsWritable, tt) file_short there_is_old refl text_kept hosts_elsewhere
      not_backup is_written

ssh_hosts_write_config_failed_example :
    (ssh_hosts_write_config env read_only (web ∷ []) [] disk).0 (resolve_path env [])
    ≡ disk (resolve_path env [])
ssh_hosts_write_config_failed_example =
    ssh_hosts_write_config_failed env read_only (web ∷ []) [] disk file_short is_refused
