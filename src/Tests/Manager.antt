-- ===== src/Tests/Manager.antt =====
-- src/config_manager.c at concrete inputs.
use sshpad.Prelude.{
  ◌==◌, true, false, Option, none, some, [], ◌∷◌, ◌≡◌, refl, ◌≢◌, arith, Bytes, length, codes, pos,
  str_eq, if◌then◌else◌, ==_refl,
}
use sshpad.Crypto.{IsText}
use sshpad.Config.Host.{SshHost, zero_host, copy}
use sshpad.R2.{R2Config}
use sshpad.Manager.{
  locked, cloud, Manager, Services, Answers, done, put, sync, change_password, save_host,
}
use sshpad.Manager.Settings.{set_r2_config, get_r2_config}
use sshpad.Manager.Session.{change_password_done}
use sshpad.Manager.Secret.{set_r2_config-get_r2_config}
use sshpad.Manager.Hosts.{IsUnique, lookup, save_host-lookup}

-- Services of few lines: the object is the length of the password and the text.
abbrev open_text : Bytes → Bytes → Option Bytes
open_text password [] = none
open_text password (n ∷ text) = if n == length password then some text else none

open_text-sealed :
    (password text blob : Bytes)
    → IsText text
    → some (length password ∷ text) ≡ some blob
    → open_text password blob ≡ some text
open_text-sealed password text [] t e = cc
open_text-sealed password text (n ∷ rest) t e = ground (arith, ==_refl (length password))

abbrev services : Services
services = record {
  encode = λ hosts. length hosts ∷ [];
  decode = λ text. [];
  encrypt = λ password text. some (length password ∷ text);
  decrypt = open_text;
  decrypt-encrypt = open_text-sealed;
}

abbrev r2 : R2Config
r2 = record {
  endpoint = codes "https://r2.example.org";
  access_key_id = codes "id";
  secret_access_key = codes "secret-key";
  bucket = codes "b";
  object_key = codes "o";
}

abbrev web : SshHost
web = record zero_host { name = codes "web"; hostname = codes "web.example.org"; port = pos 22 }

abbrev db : SshHost
db = record zero_host { name = codes "db"; hostname = codes "db.example.org"; port = pos 22 }

abbrev in_cloud : Manager
in_cloud = record {
  hosts = web ∷ db ∷ [];
  mode = cloud;
  r2_cfg = r2;
  r2_configured = true;
  password = codes "pw";
}

abbrev is_locked : Manager
is_locked = record { hosts = []; mode = locked; r2_cfg = r2; r2_configured = true; password = [] }

abbrev fine : Answers
fine = record {
  put_ok = true;
  write_ok = true;
  save_r2_ok = true;
  save_mode_ok = true;
  status = 200;
  blob = some (2 ∷ 2 ∷ []);
  config_file = [];
}

abbrev offline : Answers
offline = record fine { put_ok = false; status = 0; blob = none }

change_password_done_example :
    (in_cloud.mode ≡ cloud)
    × (in_cloud.password ≡ codes "pw")
    × ((blob : Bytes) × (services.encrypt (codes "new") (services.encode in_cloud.hosts)
          ≡ some blob)
        × ((change_password services in_cloud (codes "pw") (codes "new") fine).effects
            ≡ put r2 blob ∷ []))
    × ((change_password services in_cloud (codes "pw") (codes "new") fine).manager
        ≡ record in_cloud { password = codes "new" })
unfolding change_password sync str_eq copy
change_password_done_example =
    change_password_done services in_cloud (codes "pw") (codes "new") fine (omega arith) refl

cannot_change : (change_password services in_cloud (codes "bad") (codes "new") fine).code ≢ done
unfolding change_password str_eq
cannot_change = cc

set_r2_config-get_r2_config_example :
    (set_r2_config services in_cloud (get_r2_config in_cloud) fine).manager ≡ in_cloud
set_r2_config-get_r2_config_example =
    set_r2_config-get_r2_config services in_cloud fine (omega arith)

names_differ : IsUnique in_cloud.hosts
unfolding IsUnique lookup str_eq
names_differ = (refl, (refl, tt))

save_host-lookup_example :
    IsUnique (save_host services in_cloud web offline).manager.hosts
    × (lookup (codes "web") (save_host services in_cloud web offline).manager.hosts ≡ (
        if str_eq (codes "web") (codes "web")
        then some web
        else lookup (codes "web") in_cloud.hosts))
save_host-lookup_example = save_host-lookup services in_cloud web offline (codes "web") names_differ
