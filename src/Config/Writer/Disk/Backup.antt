-- ===== src/Config/Writer/Disk/Backup.antt =====
-- What is on the disk after ssh_hosts_write_config.
use sshpad.Prelude.{
  ℕ, ◌<◌, ◌≤◌, ◌==◌, Bool, true, false, some, List, [], ◌∷◌, ◌++◌, ◌≡◌, refl, ◌≢◌, sym, ap, ap₂,
  ◌∙◌, inl, inr, arith, Bytes, All, length, length-append, take, take_fits, codes, cat, map, str_eq,
  str_eq_refl, str_eq_iff, Bool-cases, Option-cases, append_assoc, append-nil,
}
use sshpad.Text.{find_last}
use sshpad.Config.Host.{SshHost, copy_fits}
use sshpad.Config.Fields.{Env}
use sshpad.Config.Parser.{resolve_path, parse_ssh_config}
use sshpad.Config.Writer.{write_text}
use sshpad.Config.Writer.Writable.{IsWritable}
use sshpad.Config.Writer.RoundTrip.{parse_text-write_text}
use sshpad.Config.Writer.Disk.{
  Disk, set_file, Files, copy_pieces, copy_file, bak_path, back_up, write_resolved,
  ssh_hosts_write_config, after_backup, has_parent,
}

pub set_file_same :
    (disk : Disk) (path content : Bytes) → set_file disk path content path ≡ some content
unfolding set_file
set_file_same disk path content = rw (str_eq_refl path) refl

pub set_file_other :
    (disk : Disk) (path content other : Bytes)
    → other ≢ path
    → set_file disk path content other ≡ disk other
unfolding set_file
set_file_other disk path content other ne = elim (Bool-cases (str_eq other path)) [
  | inl same ↦ absurd (ne ((str_eq_iff other path).0 same))
  | inr differs ↦ rw differs refl
]

-- A copy that goes well is the whole of what was read.
copy_pieces_done :
    (out : Bytes) (pieces : List (Bytes × ℕ))
    → (copy_pieces out pieces).1 ≡ true
    → (copy_pieces out pieces).0 ≡ out ++ cat (map (λ p. p.0) pieces)
unfolding copy_pieces
copy_pieces_done out [] ok = sym (append-nil out)
copy_pieces_done out ((piece, n) ∷ rest) ok = elim (Bool-cases (n == length piece)) [
  | inl whole ↦
      let later : (copy_pieces (out ++ piece) rest).1 ≡ true = ground arith in
      rw whole (copy_pieces_done (out ++ piece) rest later ∙ append_assoc out piece _)
  | inr cut ↦ absurd (ground arith)
]

bak_path_fits : (path : Bytes) → length path < 1020 → bak_path path ≡ path ++ codes ".bak"
unfolding bak_path
bak_path_fits path short = copy_fits 1024 _ (omega (arith, length-append path (codes ".bak")))

bak_path_differs : (path : Bytes) → length path < 1020 → path ≢ bak_path path
bak_path_differs path short same =
    omega (arith, ap length (same ∙ bak_path_fits path short), length-append path (codes ".bak"))

back_up_keeps :
    (a : Files) (path : Bytes) (disk : Disk)
    → length path < 1020
    → (back_up a path disk).0 path ≡ disk path
unfolding back_up copy_file
back_up_keeps a path disk short = elim (Option-cases (disk path)) [
  | inl absent ↦ rw absent absent
  | inr (old, e) ↦ elim (Bool-cases a.opened_in) [
    | inr closed ↦ rw (e, closed) e
    | inl opened ↦ elim (Bool-cases a.opened_out) [
      | inr closed ↦ rw (e, opened, closed) e
      | inl out ↦
          rw (e, opened, out)
            (set_file_other disk (bak_path path) _ path (bak_path_differs path short) ∙ e)
    ]
  ]
]

after_failed :
    (a : Files) (path : Bytes) (hosts : List SshHost) (o : Disk × Bool)
    → (after_backup a path hosts o).1 ≡ false
    → (after_backup a path hosts o).0 ≡ o.0
after_failed a path hosts (disk, false) failed = refl
after_failed a path hosts (disk, true) failed = elim (Bool-cases a.opened) [
  | inl opened ↦ absurd (ground arith)
  | inr closed ↦ rw closed refl
]

write_failed :
    (a : Files) (path : Bytes) (hosts : List SshHost) (disk : Disk)
    → length path < 1020
    → (write_resolved a path hosts disk).1 ≡ false
    → (write_resolved a path hosts disk).0 path ≡ disk path
unfolding write_resolved
write_failed a path hosts disk short failed =
    let last : (after_backup a path hosts (back_up a path disk)).1 ≡ false
        → (after_backup a path hosts (back_up a path disk)).0 path ≡ disk path =
      λ h.
        ap (λ (d : Disk). d path) (after_failed a path hosts (back_up a path disk) h)
        ∙ back_up_keeps a path disk short in
    ground (arith, last)

after_done :
    (a : Files) (path : Bytes) (hosts : List SshHost) (o : Disk × Bool)
    → (after_backup a path hosts o).1 ≡ true
    → (o.1 ≡ true)
      × ((after_backup a path hosts o).0 ≡ set_file o.0 path (take a.kept (write_text hosts)))
after_done a path hosts (disk, false) ok = absurd (ground arith)
after_done a path hosts (disk, true) ok = elim (Bool-cases a.opened) [
  | inl opened ↦ (refl, rw opened refl)
  | inr closed ↦ absurd (ground arith)
]

write_done :
    (a : Files) (path : Bytes) (hosts : List SshHost) (disk : Disk)
    → (write_resolved a path hosts disk).1 ≡ true
    → (write_resolved a path hosts disk ≡ after_backup a path hosts (back_up a path disk))
unfolding write_resolved
write_done a path hosts disk ok = elim (Bool-cases (has_parent (find_last b'/' path))) [
  | inr bare ↦ rw bare refl
  | inl nested ↦ elim (Bool-cases a.made) [
    | inl made ↦ rw (nested, made) refl
    | inr refused ↦ absurd (ground arith)
  ]
]

back_up_done :
    (a : Files) (path old : Bytes) (disk : Disk)
    → disk path ≡ some old
    → (back_up a path disk).1 ≡ true
    → (back_up a path disk).0 ≡ set_file disk (bak_path path) (cat (map (λ p. p.0) a.pieces))
unfolding back_up copy_file
back_up_done a path old disk e ok = elim (Bool-cases a.opened_in) [
  | inr closed ↦ absurd (ground arith)
  | inl opened ↦ elim (Bool-cases a.opened_out) [
    | inr closed ↦ absurd (ground arith)
    | inl out ↦
        let whole : (copy_pieces [] a.pieces).1 ≡ true = ground arith in
        rw (e, opened, out)
          (ap (set_file disk (bak_path path)) (copy_pieces_done [] a.pieces whole))
  ]
]

module _ (env : Env) (a : Files) (hosts : List SshHost) (path : Bytes) (disk : Disk) where
  -- A write of the configuration that does not return 0 leaves the file as it was, whatever failed, if
  -- its path has room for ".bak" in the 1024 bytes of the buffer.
  pub ssh_hosts_write_config_failed :
      length (resolve_path env path) < 1020
      → (ssh_hosts_write_config env a hosts path disk).1 ≡ false
      → (ssh_hosts_write_config env a hosts path disk).0 (resolve_path env path)
        ≡ disk (resolve_path env path)
  unfolding ssh_hosts_write_config
  ssh_hosts_write_config_failed short failed =
      write_failed a (resolve_path env path) hosts disk short failed

  -- A write over an existing file that returns 0, and whose whole text came to the disk, leaves a file
  -- that parse_ssh_config reads as the hosts that were written (with memory for them, each one that
  -- its block can express), the old content as the backup, and every other file as it was. The path
  -- has room for ".bak", and fread gave the whole old content.
  pub ssh_hosts_write_config_done :
      (grow : ℕ → Bool) (old other : Bytes)
      → ((n : ℕ) → grow n ≡ true)
      → All (IsWritable env) hosts
      → length (resolve_path env path) < 1020
      → disk (resolve_path env path) ≡ some old
      → cat (map (λ p. p.0) a.pieces) ≡ old
      → length (write_text hosts) ≤ a.kept
      → other ≢ resolve_path env path
      → other ≢ bak_path (resolve_path env path)
      → (ssh_hosts_write_config env a hosts path disk).1 ≡ true
      → (parse_ssh_config env grow (ssh_hosts_write_config env a hosts path disk).0 path
          ≡ some hosts)
        × ((ssh_hosts_write_config env a hosts path disk).0 (bak_path (resolve_path env path))
            ≡ some old)
        × ((ssh_hosts_write_config env a hosts path disk).0 other ≡ disk other)
  unfolding ssh_hosts_write_config parse_ssh_config
  ssh_hosts_write_config_done grow old other grows writable short e read kept not_file not_bak ok =
      let file : Bytes = resolve_path env path in
      let same : write_resolved a file hosts disk
          ≡ after_backup a file hosts (back_up a file disk) =
        write_done a file hosts disk ok in
      let (backed, left) =
        after_done a file hosts (back_up a file disk)
          (sym (ap (λ (o : Disk × Bool). o.1) same) ∙ ok) in
      let now : (write_resolved a file hosts disk).0
          ≡ set_file (set_file disk (bak_path file) old) file (write_text hosts) =
        ap (λ (o : Disk × Bool). o.0) same
        ∙ left
        ∙ ap₂ (λ (d : Disk) t. set_file d file t)
            (back_up_done a file old disk e backed ∙ ap (set_file disk (bak_path file)) read)
            (take_fits a.kept (write_text hosts) kept) in
      let backup : bak_path file ≢ file = λ h. bak_path_differs file short (sym h) in
      (
        rw
            (
              now,
              set_file_same (set_file disk (bak_path file) old) file (write_text hosts),
              grows 8,
              parse_text-write_text env grow hosts grows writable,
            )
            refl,
        rw
            (
              now,
              set_file_other (set_file disk (bak_path file) old) file (write_text hosts)
                  (bak_path file) backup,
            )
            (set_file_same disk (bak_path file) old),
        rw
            (
              now,
              set_file_other (set_file disk (bak_path file) old) file (write_text hosts) other
                  not_file,
            )
            (set_file_other disk (bak_path file) old other not_bak),
      )
