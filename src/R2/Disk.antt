-- ===== src/R2/Disk.antt =====
-- r2_config_load and r2_config_save of src/r2_client.c on the files of the user; and the file of
-- save_settings_json in src/config_manager.c beside it.
use sshpad.Prelude.{
  ℕ, ◌<◌, ◌≤◌, Bool, true, false, not, ◌&&◌, Option, none, some, [], ◌∷◌, ◌++◌, ◌≡◌, refl, ap, ◌∙◌,
  ◌≢◌, ◌==◌, if◌then◌else◌, Bytes, length, take, take_fits, cat, codes,
}
use sshpad.Json.{JsonC}
use sshpad.Config.Host.{copy}
use sshpad.Config.Fields.{Env, home_dir}
use sshpad.Config.Writer.Disk.{Disk, set_file}
use sshpad.Config.Writer.Disk.Backup.{set_file_same, set_file_other}
use sshpad.R2.{R2Config, Fits}
use sshpad.R2.Settings.{saved_text, is_complete, r2_config_load, r2_config_load-saved_text}

-- The home directory is the one that expand_tilde in src/config_parser.c finds.
unfoldable pub expand_tilde_r2 : Env → ℕ → Bytes → Bytes
unfolding home_dir copy
expand_tilde_r2 env size [] = copy size []
expand_tilde_r2 env size (a ∷ []) = copy size (a ∷ [])
expand_tilde_r2 env size (a ∷ b ∷ rest) =
    if a == b'~' && b == b'/'
    then copy size (home_dir env ++ (b ∷ rest))
    else copy size (a ∷ b ∷ rest)

unfoldable pub settings_path : Env → Bytes
unfolding expand_tilde_r2
settings_path env = expand_tilde_r2 env 512 (codes "~/.config/sshpad/r2.json")

-- The directory that is made first.
unfoldable pub settings_dir : Env → Bytes
unfolding expand_tilde_r2
settings_dir env = expand_tilde_r2 env 512 (codes "~/.config/sshpad")

-- get_home_dir of src/config_manager.c: an empty HOME counts as none, and so may pw_dir be none.
unfoldable pub get_home_dir : Env → Option Bytes
get_home_dir env = elim env.home [
  | some (c ∷ cs) ↦ some (c ∷ cs)
  | some [] ↦ env.pw_dir
  | none ↦ env.pw_dir
]

unfoldable pub mode_path : Bytes → Bytes
unfolding copy
mode_path home = copy 600 (copy 512 (home ++ codes "/.config/sshpad") ++ codes "/settings.json")

unfoldable pub mode_text : Bytes → Bytes
mode_text mode = cat (codes "{\"mode\":\"" ∷ mode ∷ codes "\"}\n" ∷ [])

-- fprintf writes the whole text.
abbrev saved_mode : Bool → Bool → Bytes → Disk → Option Bytes → Disk × Bool
saved_mode made opens mode disk none = (disk, false)
saved_mode made opens mode disk (some home) =
    if not made
    then (disk, false)
    else if opens
    then (set_file disk (mode_path home) (mode_text mode), true)
    else (disk, false)

-- save_settings_json. `made`: mkdir made the directory, or it is there; `opens` is the fopen.
unfoldable pub save_settings_json : Env → Bool → Bool → Bytes → Disk → Disk × Bool
unfolding get_home_dir mode_path mode_text set_file
save_settings_json env made opens mode disk = saved_mode made opens mode disk (get_home_dir env)

module _ (c : JsonC) where
  -- The disk that is left, and whether the result is 0. `kept` says how many bytes of the text come to
  -- the disk, none if fopen fails: the results of fputs and fclose are not looked at, and fopen has
  -- emptied the file before.
  unfoldable pub r2_config_save : Env → Option ℕ → R2Config → Disk → Disk × Bool
  unfolding settings_path saved_text set_file
  r2_config_save env none cfg disk = (disk, false)
  r2_config_save env (some kept) cfg disk =
      (set_file disk (settings_path env) (take kept (saved_text c cfg)), true)

  -- The text came to the disk whole.
  abbrev pub IsWhole : R2Config → Option ℕ → Type 0
  IsWhole cfg none = Unit
  IsWhole cfg (some kept) = length (saved_text c cfg) ≤ kept

  unfoldable pub r2_config_load_file : Env → Disk → R2Config × Bool
  unfolding settings_path r2_config_load
  r2_config_load_file env disk = r2_config_load c (disk (settings_path env))

  -- What a save that returns 0 has to bring about.
  abbrev pub Kept : Env → R2Config → Disk → Bytes → Disk × Bool → Type 0
  Kept env cfg disk other (left, false) = left ≡ disk
  Kept env cfg disk other (left, true) =
      (r2_config_load_file env left ≡ (cfg, true)) × (left other ≡ disk other)

  -- After a save that returns 0, and whose whole text came to the disk, a load gives the same
  -- configuration back, whatever the file held before, and every other file is as it was; a save that
  -- does not return 0 leaves all files as they were. The configuration fits its arrays and has every
  -- field that has to be there; its text is not empty and of 64 KB at most.
  pub r2_config_save-Kept :
      (env : Env) (kept : Option ℕ) (cfg : R2Config) (disk : Disk) (other : Bytes)
      → IsWhole cfg kept
      → Fits cfg
      → is_complete cfg ≡ true
      → 0 < length (saved_text c cfg)
      → length (saved_text c cfg) ≤ 65536
      → other ≢ settings_path env
      → Kept env cfg disk other (r2_config_save env kept cfg disk)
  unfolding r2_config_save r2_config_load_file
  r2_config_save-Kept env none cfg disk other whole fits complete filled small apart = refl
  r2_config_save-Kept env (some kept) cfg disk other whole fits complete filled small apart = (
    ap (r2_config_load c) (
          set_file_same disk (settings_path env) (take kept (saved_text c cfg))
          ∙ ap some (take_fits kept (saved_text c cfg) whole))
        ∙ r2_config_load-saved_text c cfg fits complete filled small,
    set_file_other disk (settings_path env) (take kept (saved_text c cfg)) other apart,
  )
