-- ===== src/Manager.antt =====
-- src/config_manager.c: the config manager and its operations. Each takes what the outside answers
-- (the R2 server, the files, the encryption) as arguments, and returns the manager that is left, its
-- result and what it sent out. The lock is held as one call does, with no other call in between.
pub mod Hosts
pub mod Session
pub mod Secret
pub mod Store
pub mod Settings
pub mod Setup
use sshpad.Prelude.{
  ℕ, Bool, true, false, ◌&&◌, Option, none, some, List, [], ◌∷◌, ◌++◌, ◌==◌, leb, if◌then◌else◌,
  Bytes, ◌≡◌, length, take, drop, ◌-◌, codes, str_eq,
}
use sshpad.Crypto.{IsText}
use sshpad.R2.{R2Config}
use sshpad.Config.Host.{SshHost, copy}

pub data Mode : Type 0 where
  first_run locked cloud local : Mode

pub record Manager : Type 0 where
  pub hosts : List SshHost
  pub mode : Mode
  pub r2_cfg : R2Config
  pub r2_configured : Bool
  pub password : Bytes

-- 0, -1 and -2.
pub data Code : Type 0 where
  done refused network : Code

-- What the manager uses of the JSON form of the hosts and of src/crypto_store.c. The encryption may
-- fail; what it returns is opened by the same password.
pub record Services : Type 0 where
  pub encode : List SshHost → Bytes
  pub decode : Bytes → List SshHost
  pub encrypt : Bytes → Bytes → Option Bytes
  pub decrypt : Bytes → Bytes → Option Bytes
  pub decrypt-encrypt :
      (password text blob : Bytes)
      → IsText text
      → encrypt password text ≡ some blob
      → decrypt password blob ≡ some text

-- What a call sends out: an object to the server, the hosts to ~/.ssh/config, the two settings
-- files (an attempt counts), and the event `config_changed`.
pub data Effect : Type 0 where
  put : R2Config → Bytes → Effect
  write_config : List SshHost → Effect
  save_r2 : R2Config → Effect
  save_mode : Bytes → Effect
  config_changed : Effect

pub record Result : Type 0 where
  pub manager : Manager
  pub code : Code
  pub effects : List Effect

-- The answers of the outside in one call.
pub record Answers : Type 0 where
  pub put_ok : Bool
  pub write_ok : Bool
  pub save_r2_ok : Bool
  pub save_mode_ok : Bool
  pub status : ℕ
  pub blob : Option Bytes
  pub config_file : List SshHost

abbrev pub fail_with : Code → Manager → Result
fail_with code m = record { manager = m; code = code; effects = [] }

-- cm_create; `saved` is what r2_config_load finds.
unfoldable pub create : R2Config → Option R2Config → Manager
create zero_cfg none = record {
  hosts = [];
  mode = first_run;
  r2_cfg = zero_cfg;
  r2_configured = false;
  password = [];
}
create zero_cfg (some cfg) = record {
  hosts = [];
  mode = first_run;
  r2_cfg = cfg;
  r2_configured = true;
  password = [];
}

-- cm_save_host before it synchronises: in place, or at the end.
unfoldable pub upsert : SshHost → List SshHost → List SshHost
upsert host [] = host ∷ []
upsert host (h ∷ hs) = if str_eq h.name host.name then host ∷ hs else h ∷ upsert host hs

unfoldable pub knows : Bytes → List SshHost → Bool
knows name [] = false
knows name (h ∷ hs) = if str_eq h.name name then true else knows name hs

-- cm_delete_host before it synchronises: the first host of the name is taken out.
unfoldable pub remove_host : Bytes → List SshHost → List SshHost
remove_host name [] = []
remove_host name (h ∷ hs) = if str_eq h.name name then hs else h ∷ remove_host name hs

module _ (s : Services) where
  abbrev sync_cloud : Manager → Option Bytes → Bool → Bool × List Effect
  sync_cloud m none put_ok = (false, [])
  sync_cloud m (some blob) put_ok = (put_ok, put m.r2_cfg blob ∷ [])

  abbrev sync_in : Mode → Manager → Answers → Bool × List Effect
  sync_in cloud m a = sync_cloud m (s.encrypt m.password (s.encode m.hosts)) a.put_ok
  sync_in local m a = (a.write_ok, write_config m.hosts ∷ [])
  sync_in first_run m a = (false, [])
  sync_in locked m a = (false, [])

  -- cm_sync
  unfoldable pub sync : Manager → Answers → Bool × List Effect
  sync m a = sync_in m.mode m a

  unfoldable pub unlocked : Manager → Bytes → List SshHost → Manager
  unlocked m password hosts = record m { hosts = hosts; mode = cloud; password = copy 256 password }

  abbrev unlock_new : Manager → Bytes → Bool → Option Bytes → Result
  unlock_new m password put_ok none = fail_with refused m
  unlock_new m password true (some blob) = record {
    manager = unlocked m password [];
    code = done;
    effects = put m.r2_cfg blob ∷ [];
  }
  unlock_new m password false (some blob) = record {
    manager = m;
    code = network;
    effects = put m.r2_cfg blob ∷ [];
  }

  abbrev unlock_text : Manager → Bytes → Option Bytes → Result
  unlock_text m password none = fail_with refused m
  unlock_text m password (some text) = record {
    manager = unlocked m password (s.decode text);
    code = done;
    effects = [];
  }

  abbrev unlock_blob : Manager → Bytes → Option Bytes → Result
  unlock_blob m password none = fail_with network m
  unlock_blob m password (some blob) = unlock_text m password (s.decrypt password blob)

  -- cm_unlock in mode LOCKED: status 0 is a network error.
  unfoldable pub unlock_locked : Manager → Bytes → Answers → Result
  unlock_locked m password a =
      if a.status == 0
      then fail_with network m
      else if a.status == 404
      then unlock_new m password a.put_ok (s.encrypt password (codes "[]"))
      else if a.status == 200
      then unlock_blob m password a.blob
      else fail_with network m

  abbrev unlock_in : Mode → Manager → Bytes → Answers → Result
  unlock_in locked m password a = unlock_locked m password a
  unlock_in _ m password a = fail_with refused m

  unfoldable pub unlock : Manager → Bytes → Answers → Result
  unlock m password a = unlock_in m.mode m password a

  abbrev settle : Manager → Bool × List Effect → Result
  settle m (ok, effects) = record {
    manager = m;
    code = if ok then done else refused;
    effects = effects ++ config_changed ∷ [];
  }

  -- cm_save_host
  unfoldable pub save_host : Manager → SshHost → Answers → Result
  save_host m host a =
      settle (record m { hosts = upsert host m.hosts })
        (sync (record m { hosts = upsert host m.hosts }) a)

  -- cm_delete_host, which does not look at the result of cm_sync.
  unfoldable pub delete_host : Manager → Bytes → Answers → Result
  delete_host m name a =
      if knows name m.hosts
      then record {
        manager = record m { hosts = remove_host name m.hosts };
        code = done;
        effects = (sync (record m { hosts = remove_host name m.hosts }) a).1 ++ config_changed ∷ [];
      }
      else fail_with refused m

  abbrev change_to : Manager → Bytes → Bool × List Effect → Result
  change_to m new_pw (true, effects) = record {
    manager = record m { password = copy 256 new_pw };
    code = done;
    effects = effects;
  }
  change_to m new_pw (false, effects) = record {
    manager = record m { password = copy 256 (copy 256 m.password) };
    code = network;
    effects = effects;
  }

  abbrev change_in : Mode → Manager → Bytes → Bytes → Answers → Result
  change_in cloud m old_pw new_pw a =
      if str_eq m.password old_pw
      then change_to m new_pw (sync (record m { password = copy 256 new_pw }) a)
      else fail_with refused m
  change_in _ m old_pw new_pw a = fail_with refused m

  unfoldable pub change_password : Manager → Bytes → Bytes → Answers → Result
  change_password m old_pw new_pw a = change_in m.mode m old_pw new_pw a

  -- cm_use_local; the hosts are those of ~/.ssh/config, none if it cannot be read.
  unfoldable pub use_local : Manager → Answers → Result
  use_local m a = record {
    manager = record m { hosts = a.config_file; mode = local };
    code = done;
    effects = config_changed ∷ [];
  }
