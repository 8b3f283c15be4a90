-- ===== src/Http/Program/Names.antt =====
-- The names of the hosts that the config manager holds.
use sshpad.Prelude.{
  ◌<◌, true, Option, some, List, [], ◌∷◌, map, ◌≡◌, refl, arith, Bytes, length, ltb, ltb→lt, ap,
  sym, ◌∙◌, str_eq, codes, inl, inr, Bool-cases, Option-cases, ℕ, Bool, All,
}
use sshpad.Json.{JsonC}
use sshpad.Config.Host.{SshHost, length-copy}
use sshpad.Config.Json.{text_member, host_of_json, ssh_hosts_from_json}
use sshpad.Crypto.{OpenSsl, Draws}
use sshpad.Manager.Store.{services}
use sshpad.Http.Tunnel.{find_host}
use sshpad.Manager.{
  Manager, Services, Answers, upsert, remove_host, save_host, delete_host, unlock, unlock_locked,
  unlocked, change_password, use_local,
}
use sshpad.Manager.Settings.{set_r2_config}
use sshpad.Manager.Setup.{setup}
use sshpad.R2.{R2Config}
use sshpad.Config.Fields.{Env}
use sshpad.Config.Parser.{resolve_path, parse_text, parse_ssh_config}
use sshpad.Config.Parser.Bounds.{IsSound, parse_text-IsSound}
use sshpad.Http.{World}
use sshpad.Http.Program.{names_fit, Surroundings, hosts_read, world_of}

names_fit-upsert :
    (h : SshHost) (hs : List SshHost)
    → ltb (length h.name) 128 ≡ true
    → names_fit hs ≡ true
    → names_fit (upsert h hs) ≡ true
unfolding names_fit upsert
names_fit-upsert h [] short fit = ground arith
names_fit-upsert h (x ∷ hs) short fit = ground (arith, names_fit-upsert h hs)

names_fit-remove_host :
    (name : Bytes) (hs : List SshHost)
    → names_fit hs ≡ true
    → names_fit (remove_host name hs) ≡ true
unfolding names_fit remove_host
names_fit-remove_host name [] fit = refl
names_fit-remove_host name (x ∷ hs) fit = ground (arith, names_fit-remove_host name hs)

module _ (s : Services) (m : Manager) (a : Answers) (fit : names_fit m.hosts ≡ true)
    (decoded : (text : Bytes) → names_fit (s.decode text) ≡ true)
    (from_file : names_fit a.config_file ≡ true) where
  pub names_fit-save_host :
      (h : SshHost)
      → ltb (length h.name) 128 ≡ true
      → names_fit (save_host s m h a).manager.hosts ≡ true
  unfolding save_host
  names_fit-save_host h short = ground (arith, names_fit-upsert h m.hosts)

  pub names_fit-delete_host :
      (name : Bytes) → names_fit (delete_host s m name a).manager.hosts ≡ true
  unfolding delete_host
  names_fit-delete_host name = ground (arith, names_fit-remove_host name m.hosts)

  pub names_fit-unlock :
      (n : Manager) (password : Bytes)
      → names_fit n.hosts ≡ true
      → names_fit (unlock s n password a).manager.hosts ≡ true
  unfolding unlock unlock_locked unlocked names_fit
  names_fit-unlock n password kept = elim (Option-cases a.blob) [
    | inl absent ↦ ground arith
    | inr (blob, e) ↦ elim (Option-cases (s.decrypt password blob)) [
      | inl failed ↦ ground arith
      | inr (text, t) ↦ ground (arith, decoded text)
    ]
  ]

  pub names_fit-setup :
      (mode : Bytes) (creds : Option (R2Config × Bytes))
      → names_fit (setup s m mode creds a).manager.hosts ≡ true
  unfolding setup
  names_fit-setup mode creds = grind (arith, names_fit-unlock)

  pub names_fit-change_password :
      (old new : Bytes) → names_fit (change_password s m old new a).manager.hosts ≡ true
  unfolding change_password
  names_fit-change_password old new = ground arith

  pub names_fit-set_r2_config :
      (cfg : R2Config) → names_fit (set_r2_config s m cfg a).manager.hosts ≡ true
  unfolding set_r2_config
  names_fit-set_r2_config cfg = ground arith

  pub names_fit-use_local : names_fit (use_local s m a).manager.hosts ≡ true
  unfolding use_local
  names_fit-use_local = from_file

-- A name in the JSON form is cut at its array.
length-text_member : (c : JsonC) (j : c.Json) (key : Bytes) → length (text_member c 128 j key) < 128
unfolding text_member
length-text_member c j key = elim (Option-cases (c.object_get_ex j key)) [
  | inl absent ↦ rw absent (omega arith)
  | inr (v, e) ↦ rw e (length-copy 128 _ (omega arith))
]

names_fit-host_of_json : (c : JsonC) (js : List c.Json) → names_fit (map (host_of_json c) js) ≡ true
unfolding names_fit host_of_json
names_fit-host_of_json c [] = refl
names_fit-host_of_json c (j ∷ js) =
    ground (arith, names_fit-host_of_json c js, length-text_member c j (codes "name"))

pub names_fit-ssh_hosts_from_json :
    (c : JsonC) (text : Bytes) (hosts : List SshHost)
    → ssh_hosts_from_json c text ≡ some hosts
    → names_fit hosts ≡ true
unfolding ssh_hosts_from_json
names_fit-ssh_hosts_from_json c text hosts e = elim (Option-cases (c.tokener_parse text)) [
  | inl failed ↦ absurd (ground arith)
  | inr (j, parsed) ↦ elim (Option-cases (c.elements j)) [
    | inl other ↦ absurd (ground arith)
    | inr (js, array) ↦
        let at : map (host_of_json c) js ≡ hosts = ground arith in
        ap names_fit (sym at) ∙ names_fit-host_of_json c js
  ]
]

pub find_host-short :
    (name : Bytes) (hosts : List SshHost) (h : SshHost)
    → names_fit hosts ≡ true
    → find_host name hosts ≡ some h
    → length h.name < 128
unfolding names_fit find_host
find_host-short name [] h fit e = cc
find_host-short name (x ∷ hs) h fit e = elim (Bool-cases (str_eq x.name name)) [
  | inl same ↦
      (let at : x ≡ h = ground arith in
        ltb→lt (length h.name) 128
          (ap (λ (k : SshHost). ltb (length k.name) 128) (sym at) ∙ ground arith))
  | inr other ↦ find_host-short name hs h (ground arith) (ground arith)
]

-- The services that Manager/Store fills give such names.
names_fit-decode :
    (c : JsonC) (o : OpenSsl) (draws : Draws) (text : Bytes)
    → names_fit ((services c o draws).decode text) ≡ true
unfolding names_fit
names_fit-decode c o draws text = elim (Option-cases (ssh_hosts_from_json c text)) [
  | inl failed ↦ rw failed refl
  | inr (hosts, e) ↦ rw e (names_fit-ssh_hosts_from_json c text hosts e)
]

names_fit-All : (hosts : List SshHost) → All IsSound hosts → names_fit hosts ≡ true
unfolding names_fit
names_fit-All [] sound = refl
names_fit-All (h ∷ hs) (first, sound) =
    let short : length h.name < 128 = first.fits.name_fits in ground (arith, names_fit-All hs sound)

names_fit-parse_ssh_config :
    (env : Env) (grow : ℕ → Bool) (read : Bytes → Option Bytes)
    → names_fit (hosts_read (parse_ssh_config env grow read [])) ≡ true
unfolding parse_ssh_config
names_fit-parse_ssh_config env grow read = elim (Option-cases (read (resolve_path env []))) [
  | inl absent ↦ rw absent (unfold names_fit in refl)
  | inr (content, e) ↦ elim (Bool-cases (grow 8)) [
    | inl enough ↦
        rw (e, enough)
          (names_fit-All (parse_text env grow content) (parse_text-IsSound env grow content))
    | inr full ↦ rw (e, full) (unfold names_fit in refl)
  ]
]

-- The hosts that come from outside have names that fit, as those of the parsers do.
pub record IsHonest (w : World) : Type 0 where
  pub decoded : (text : Bytes) → names_fit (w.services.decode text) ≡ true
  pub from_file : names_fit w.answers.config_file ≡ true

pub world_of-IsHonest : (c : JsonC) (u : Surroundings) → IsHonest (world_of c u)
unfolding world_of
world_of-IsHonest c u = record {
  decoded = names_fit-decode c u.openssl u.draws;
  from_file = names_fit-parse_ssh_config u.env u.grow u.read;
}
