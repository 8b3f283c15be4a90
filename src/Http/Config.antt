-- ===== src/Http/Config.antt =====
-- The handlers of src/http_server.c for the configuration: the first run, the password, the R2 server.
pub mod Setup
use sshpad.Prelude.{
  ℕ, Bool, true, false, not, ◌&&◌, Option, none, some, List, [], ◌∷◌, ◌++◌, Bytes, codes,
  if◌then◌else◌, str_eq,
}
use sshpad.Json.{JsonC, spaced}
use sshpad.Config.Host.{copy}
use sshpad.Config.Fields.{is_empty}
use sshpad.Config.Json.{printed, text_member}
use sshpad.R2.{R2Config}
use sshpad.R2.Settings.{default_object_key, r2_config_load}
use sshpad.Manager.{
  Mode, first_run, locked, cloud, local, Manager, Code, done, refused, network, Result, unlock,
  change_password, use_local,
}
use sshpad.Manager.Settings.{set_r2_config, get_r2_config}
use sshpad.Manager.Setup.{setup}
use sshpad.Http.{App, World, Outcome, undefined, refuse, ok_text, managed, with_json}

abbrev mode_text : Mode → Bytes
mode_text first_run = codes "first_run"
mode_text locked = codes "locked"
mode_text cloud = codes "cloud"
mode_text local = codes "local"

abbrev bool_text : Bool → Bytes
bool_text true = codes "true"
bool_text false = codes "false"

unfoldable pub handle_config_status : App → Outcome
handle_config_status app = refuse app 200 (
    copy 256 (
      codes "{\"mode\":\""
      ++ mode_text app.manager.mode
      ++ codes "\",\"r2Configured\":"
      ++ bool_text (not (is_empty (get_r2_config app.manager).endpoint))
      ++ codes "}"))

-- The answers to the result 0 and to any other, and to 0, -1 and any other.
abbrev pub settled : App → Bytes → Result → Outcome
settled app failure r = elim r.code [
  | done ↦ managed app r 200 ok_text
  | refused ↦ managed app r 500 failure
  | network ↦ managed app r 500 failure
]

abbrev pub with_password_answer : App → ℕ → Bytes → Result → Outcome
with_password_answer app status failure r = elim r.code [
  | done ↦ managed app r 200 ok_text
  | refused ↦ managed app r 401 (codes "{\"error\":\"bad_password\"}")
  | network ↦ managed app r status failure
]

abbrev pub network_error : Bytes
network_error = codes "{\"error\":\"network_error\"}"

-- A call of the config manager that is given a null pointer returns -1 and does nothing.
abbrev pub not_called : App → Result
not_called app = record { manager = app.manager; code = refused; effects = [] }

module _ (c : JsonC) where
  open c use {Json, new_string, new_object, object_get_ex, get_string, to_json_string}

  abbrev key_of : Option Json → Bytes
  key_of none = []
  key_of (some v) = copy 256 (printed c (get_string v))

  -- The fields of a posted configuration, over a zeroed one.
  unfoldable pub posted_config : Json → R2Config
  posted_config j = record {
    endpoint = text_member c 512 j (codes "endpoint");
    access_key_id = text_member c 128 j (codes "accessKeyId");
    secret_access_key = text_member c 256 j (codes "secretAccessKey");
    bucket = text_member c 128 j (codes "bucket");
    object_key = text_member c 256 j (codes "objectKey");
  }

  abbrev key_or_default : Option Json → R2Config → R2Config
  key_or_default none cfg = record cfg { object_key = copy 256 default_object_key }
  key_or_default (some v) cfg = cfg

  -- The one of the setup, which has a default for the object key.
  unfoldable pub setup_config : Json → R2Config
  setup_config j = key_or_default (object_get_ex j (codes "objectKey")) (posted_config j)

  abbrev creds_of : Json → Option Bytes → Option (R2Config × Bytes)
  creds_of j none = none
  creds_of j (some password) = some (setup_config j, password)

  abbrev setup_cloud : World → App → Option Json → Option Json → Outcome
  setup_cloud w app (some j) (some password) =
      with_password_answer app 502 network_error
        (setup w.services app.manager (codes "cloud") (creds_of j (get_string password)) w.answers)
  setup_cloud w app _ _ = refuse app 400 (codes "{\"error\":\"missing r2 or password\"}")

  abbrev setup_in : World → App → Json → Option Bytes → Outcome
  setup_in w app j none = undefined
  setup_in w app j (some mode) =
      if str_eq mode (codes "local")
      then settled app (codes "{\"error\":\"setup failed\"}")
          (setup w.services app.manager (codes "local") none w.answers)
      else if str_eq mode (codes "cloud")
      then setup_cloud w app (object_get_ex j (codes "r2")) (object_get_ex j (codes "password"))
      else refuse app 400 (codes "{\"error\":\"invalid mode\"}")

  abbrev setup_mode : World → App → Json → Option Json → Outcome
  setup_mode w app j none = refuse app 400 (codes "{\"error\":\"missing field: mode\"}")
  setup_mode w app j (some mode) = setup_in w app j (get_string mode)

  unfoldable pub handle_config_setup : World → App → Bytes → Outcome
  handle_config_setup w app body =
      with_json c app body (λ j. setup_mode w app j (object_get_ex j (codes "mode")))

  abbrev unlocked_with : World → App → Option Bytes → Result
  unlocked_with w app none = not_called app
  unlocked_with w app (some password) = unlock w.services app.manager password w.answers

  abbrev unlock_member : World → App → Option Json → Outcome
  unlock_member w app none = refuse app 400 (codes "{\"error\":\"missing field: password\"}")
  unlock_member w app (some password) =
      with_password_answer app 502 network_error (unlocked_with w app (get_string password))

  unfoldable pub handle_config_unlock : World → App → Bytes → Outcome
  handle_config_unlock w app body =
      with_json c app body (λ j. unlock_member w app (object_get_ex j (codes "password")))

  unfoldable pub handle_config_use_local : World → App → Outcome
  handle_config_use_local w app =
      managed app (use_local w.services app.manager w.answers) 200 ok_text

  abbrev changed_with : World → App → Option Bytes → Option Bytes → Result
  changed_with w app (some old) (some new) =
      change_password w.services app.manager old new w.answers
  changed_with w app _ _ = not_called app

  abbrev change_members : World → App → Option Json → Option Json → Outcome
  change_members w app (some old) (some new) =
      with_password_answer app 500 (codes "{\"error\":\"sync failed\"}")
        (changed_with w app (get_string old) (get_string new))
  change_members w app _ _ =
      refuse app 400 (codes "{\"error\":\"missing oldPassword or newPassword\"}")

  unfoldable pub handle_config_change_password : World → App → Bytes → Outcome
  handle_config_change_password w app body = with_json c app body (λ j.
      change_members w app (object_get_ex j (codes "oldPassword"))
        (object_get_ex j (codes "newPassword")))

  unfoldable pub shown_config : R2Config → Json
  shown_config cfg = new_object (
      (codes "endpoint", new_string cfg.endpoint)
      ∷ (codes "accessKeyId", new_string cfg.access_key_id)
      ∷ (codes "secretAccessKey", new_string cfg.secret_access_key)
      ∷ (codes "bucket", new_string cfg.bucket)
      ∷ (codes "objectKey", new_string cfg.object_key)
      ∷ [])

  unfoldable pub handle_config_r2_settings_get : App → Outcome
  handle_config_r2_settings_get app =
      refuse app 200 (to_json_string spaced (shown_config (get_r2_config app.manager)))

  unfoldable pub handle_config_r2_settings_post : World → App → Bytes → Outcome
  handle_config_r2_settings_post w app body = with_json c app body (λ j.
      settled app (codes "{\"error\":\"sync failed with new credentials\"}")
        (set_r2_config w.services app.manager (posted_config j) w.answers))

  abbrev tested : World → App → R2Config → Outcome
  tested w app cfg =
      if is_empty cfg.endpoint
      then refuse app 400 (codes "{\"error\":\"no R2 configuration\"}")
      else if w.accepts cfg
      then refuse app 200 ok_text
      else refuse app 502 (codes "{\"error\":\"connection failed\"}")

  abbrev test_parsed : World → App → Option Json → Outcome
  test_parsed w app none = refuse app 400 (codes "{\"error\":\"invalid JSON\"}")
  test_parsed w app (some j) = tested w app (posted_config j)

  -- The stored configuration, or the masked one if the file cannot be loaded.
  abbrev stored_config : World → App → R2Config
  stored_config w app =
      if (r2_config_load c w.settings_file).1
      then (r2_config_load c w.settings_file).0
      else get_r2_config app.manager

  unfoldable pub handle_config_r2_test : World → App → Bytes → Outcome
  handle_config_r2_test w app body =
      if not (is_empty body) && not (str_eq body (codes "{}"))
      then test_parsed w app (c.tokener_parse body)
      else if is_empty (get_r2_config app.manager).endpoint
      then refuse app 400 (codes "{\"error\":\"no R2 configuration\"}")
      else tested w app (stored_config w app)
