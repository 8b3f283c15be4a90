-- ===== src/Manager/Store.antt =====
-- The config manager over the JSON form of the hosts and the encrypted object.
use sshpad.Prelude.{
  ◌<◌, true, Option, none, some, List, [], ◌∷◌, map, ◌≡◌, refl, ap, ◌∙◌, Bytes, All, length,
}
use sshpad.Json.{JsonC, plain}
use sshpad.Crypto.{IsText, OpenSsl, Draws, cs_encrypt, cs_decrypt}
use sshpad.Crypto.RoundTrip.{cs_decrypt-cs_encrypt}
use sshpad.Config.Host.{SshHost, Fits}
use sshpad.Config.Json.{ssh_hosts_to_json, ssh_hosts_from_json}
use sshpad.Config.Json.RoundTrip.{stored, ssh_hosts_from_json-ssh_hosts_to_json}
use sshpad.R2.{R2Config}
use sshpad.Manager.{
  locked, cloud, Manager, Services, Answers, done, put, sync, unlock, unlock_locked, unlocked,
}
use sshpad.Manager.Session.{sync-unlock}

-- The result NULL leaves no host.
abbrev hosts_or_none : Option (List SshHost) → List SshHost
hosts_or_none none = []
hosts_or_none (some hosts) = hosts

-- What cm_sync and cm_unlock call. `draws` are the random numbers of the one encryption.
abbrev pub services : JsonC → OpenSsl → Draws → Services
services c o draws = record {
  encode = ssh_hosts_to_json c;
  decode = λ text. hosts_or_none (ssh_hosts_from_json c text);
  encrypt = λ password text. cs_encrypt o draws text password;
  decrypt = λ password blob. cs_decrypt o blob password;
  decrypt-encrypt = λ password text blob t e. cs_decrypt-cs_encrypt o draws text password blob t e;
}

ssh_hosts_to_json-IsText :
    (c : JsonC) (hosts : List SshHost)
    → length (ssh_hosts_to_json c hosts) < 2147483648
    → IsText (ssh_hosts_to_json c hosts)
unfolding ssh_hosts_to_json
ssh_hosts_to_json-IsText c hosts short = record {
  no_nul = c.to_json_string-no_nul plain _;
  short = short;
}

-- Opening an object draws no random numbers.
unlock_later :
    (c : JsonC) (o : OpenSsl) (draws later : Draws) (n : Manager) (password : Bytes)
    (reply : Answers)
    → n.mode ≡ locked
    → reply.status ≡ 200
    → unlock (services c o later) n password reply ≡ unlock (services c o draws) n password reply
unfolding unlock unlock_locked unlocked
unlock_later c o draws later n password reply down found = rw (down, found) refl

-- The hosts that a cloud session uploads are the hosts that the next session unlocks: when cm_sync of a
-- manager in mode CLOUD succeeds with the object `blob`, a locked manager that is given the same
-- password and gets that object back is in mode CLOUD with the same hosts, without their generic
-- options and with port 22 for a port of 0. The hosts fit their structs, the password is of less than
-- 256 bytes and the JSON form of less than 2^31.
pub unlock-stored :
    (c : JsonC) (o : OpenSsl) (draws later : Draws) (m n : Manager) (a reply : Answers)
    (cfg : R2Config) (blob : Bytes)
    → m.mode ≡ cloud
    → n.mode ≡ locked
    → length m.password < 256
    → All Fits m.hosts
    → length (ssh_hosts_to_json c m.hosts) < 2147483648
    → sync (services c o draws) m a ≡ (true, put cfg blob ∷ [])
    → reply.status ≡ 200
    → reply.blob ≡ some blob
    → unlock (services c o later) n m.password reply ≡ record {
      manager = record n { hosts = map stored m.hosts; mode = cloud; password = m.password };
      code = done;
      effects = [];
    }
unlock-stored c o draws later m n a reply cfg blob up down short fits small ok found got =
    unlock_later c o draws later n m.password reply down found
    ∙ sync-unlock (services c o draws) m n a reply cfg blob up down short
        (ssh_hosts_to_json-IsText c m.hosts small) ok found got
    ∙ ap
        (λ (hosts : List SshHost). record {
          manager = record n { hosts = hosts; mode = cloud; password = m.password };
          code = done;
          effects = [];
        })
        (ap hosts_or_none (ssh_hosts_from_json-ssh_hosts_to_json c m.hosts fits))
