-- ===== src/Manager/Setup.antt =====
-- The first run in src/config_manager.c: cm_setup.
use sshpad.Prelude.{
  true, Option, none, some, List, [], ◌∷◌, ◌++◌, if◌then◌else◌, Bytes, codes, str_eq,
}
use sshpad.R2.{R2Config}
use sshpad.Manager.{
  locked, local, Manager, done, refused, network, Services, Effect, save_r2, save_mode,
  config_changed, Result, Answers, fail_with, unlock,
}

module _ (s : Services) where
  abbrev setup_done : List Effect → Result → Result
  setup_done saved r = record {
    manager = r.manager;
    code = elim r.code [ done ↦ done | refused ↦ refused | network ↦ refused ];
    effects = saved ++ r.effects;
  }

  abbrev setup_local : Manager → Answers → Result
  setup_local m a =
      if a.save_mode_ok
      then record {
        manager = record m { hosts = a.config_file; mode = local };
        code = done;
        effects = save_mode (codes "local") ∷ config_changed ∷ [];
      }
      else record { manager = m; code = refused; effects = save_mode (codes "local") ∷ [] }

  abbrev setup_saved : Manager → R2Config → Bytes → Answers → Result
  setup_saved m cfg password a =
      if a.save_mode_ok
      then setup_done (save_r2 cfg ∷ save_mode (codes "cloud") ∷ [])
          (unlock s (record m { r2_cfg = cfg; r2_configured = true; mode = locked }) password a)
      else record {
        manager = m;
        code = refused;
        effects = save_r2 cfg ∷ save_mode (codes "cloud") ∷ [];
      }

  abbrev setup_cloud : Manager → Option (R2Config × Bytes) → Answers → Result
  setup_cloud m none a = fail_with refused m
  setup_cloud m (some (cfg, password)) a =
      if a.save_r2_ok
      then setup_saved m cfg password a
      else record { manager = m; code = refused; effects = save_r2 cfg ∷ [] }

  -- cm_setup; `creds` is none when the configuration or the password is missing.
  unfoldable pub setup : Manager → Bytes → Option (R2Config × Bytes) → Answers → Result
  setup m mode creds a =
      if str_eq mode (codes "local")
      then setup_local m a
      else if str_eq mode (codes "cloud")
      then setup_cloud m creds a
      else fail_with refused m
