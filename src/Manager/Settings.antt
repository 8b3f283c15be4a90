-- ===== src/Manager/Settings.antt =====
-- The R2 configuration in src/config_manager.c: cm_get_r2_config and cm_set_r2_config.
use sshpad.Prelude.{
  Bool, true, false, ◌&&◌, Option, none, some, [], ◌∷◌, ◌++◌, leb, if◌then◌else◌, Bytes, length,
  take, drop, ◌-◌, codes, str_eq,
}
use sshpad.Config.Host.{copy}
use sshpad.R2.{R2Config}
use sshpad.Manager.{
  Mode, cloud, Manager, done, refused, Services, put, save_r2, Result, Answers, fail_with,
}

unfoldable pub ends_masked : Bytes → Bool
ends_masked secret =
    leb 4 (length secret) && str_eq (drop (length secret - 4) secret) (codes "****")

-- The secret as cm_get_r2_config shows it.
unfoldable pub mask : Bytes → Bytes
mask secret =
    if leb 5 (length secret) then copy 256 (copy 256 (take 4 secret ++ codes "****")) else secret

unfoldable pub get_r2_config : Manager → R2Config
get_r2_config m = record (m.r2_cfg) { secret_access_key = mask m.r2_cfg.secret_access_key }

-- The new configuration of cm_set_r2_config: a masked secret stands for the one in use.
unfoldable pub with_secret : R2Config → R2Config → R2Config
with_secret current cfg =
    if ends_masked cfg.secret_access_key
    then record cfg { secret_access_key = copy 256 (copy 256 current.secret_access_key) }
    else cfg

module _ (s : Services) where
  abbrev replace_r2 : Manager → R2Config → Bool → Option Bytes → Result
  replace_r2 m cfg put_ok none = fail_with refused m
  replace_r2 m cfg true (some blob) = record {
    manager = record m { r2_cfg = cfg };
    code = done;
    effects = save_r2 cfg ∷ put cfg blob ∷ [];
  }
  replace_r2 m cfg false (some blob) = record {
    manager = m;
    code = refused;
    effects = save_r2 cfg ∷ put cfg blob ∷ save_r2 m.r2_cfg ∷ [];
  }

  abbrev set_r2_in : Mode → Manager → R2Config → Answers → Result
  set_r2_in cloud m cfg a = replace_r2 m cfg a.put_ok (s.encrypt m.password (s.encode m.hosts))
  set_r2_in _ m cfg a = record {
    manager = record m { r2_cfg = cfg };
    code = done;
    effects = save_r2 cfg ∷ [];
  }

  -- cm_set_r2_config
  unfoldable pub set_r2_config : Manager → R2Config → Answers → Result
  set_r2_config m cfg a = set_r2_in m.mode m (with_secret m.r2_cfg cfg) a
