-- ===== src/R2/Settings.antt =====
-- r2_config_load and r2_config_save of src/r2_client.c, on the content of ~/.config/sshpad/r2.json.
use sshpad.Prelude.{
  ℕ, ◌<◌, ◌≤◌, Bool, true, false, not, ◌||◌, Option, none, some, List, [], ◌∷◌, ◌≡◌, refl, arith,
  ◌==◌, ltb, if◌then◌else◌, Bytes, length, codes, str_eq,
}
use sshpad.Json.{JsonC, pretty, assoc, lacks_key, has_unique_keys}
use sshpad.Text.{c_str}
use sshpad.Text.Trim.{c_str-Plain}
use sshpad.Config.Host.{copy, copy_fits}
use sshpad.Config.Fields.{is_empty}
use sshpad.Config.Json.{printed}
use sshpad.R2.{R2Config, Fits}

abbrev pub default_object_key : Bytes
default_object_key = codes "sshpad-config.spd"

abbrev pub zero_config : R2Config
zero_config = record {
  endpoint = [];
  access_key_id = [];
  secret_access_key = [];
  bucket = [];
  object_key = default_object_key;
}

-- The fields that have to be there.
unfoldable pub is_complete : R2Config → Bool
is_complete cfg = not (
    is_empty cfg.endpoint
    || is_empty cfg.access_key_id
    || is_empty cfg.secret_access_key
    || is_empty cfg.bucket)

module _ (c : JsonC) where
  open c use {
    Json, is_null, new_string, new_object, object_get_ex, get_string, to_json_string, tokener_parse,
  }

  unfoldable pub settings_json : R2Config → Json
  settings_json cfg = new_object (
      (codes "endpoint", new_string cfg.endpoint)
      ∷ (codes "accessKeyId", new_string cfg.access_key_id)
      ∷ (codes "secretAccessKey", new_string cfg.secret_access_key)
      ∷ (codes "bucket", new_string cfg.bucket)
      ∷ (codes "objectKey", new_string cfg.object_key)
      ∷ [])

  -- What r2_config_save writes, if the file can be opened.
  unfoldable pub saved_text : R2Config → Bytes
  saved_text cfg = to_json_string pretty (settings_json cfg)

  abbrev set_text : ℕ → Bytes → Option Json → Bytes
  set_text size old none = old
  set_text size old (some v) = if is_null v then old else copy size (printed c (get_string v))

  -- A text of the struct, from the member under the key if there is one.
  unfoldable pub setting : ℕ → Bytes → Json → Bytes → Bytes
  setting size old j key = set_text size old (object_get_ex j key)

  unfoldable pub settings_of : Json → R2Config
  settings_of j = record {
    endpoint = setting 512 [] j (codes "endpoint");
    access_key_id = setting 128 [] j (codes "accessKeyId");
    secret_access_key = setting 256 [] j (codes "secretAccessKey");
    bucket = setting 128 [] j (codes "bucket");
    object_key = setting 256 default_object_key j (codes "objectKey");
  }

  abbrev parsed_settings : Option Json → R2Config × Bool
  parsed_settings none = (zero_config, false)
  parsed_settings (some j) = (settings_of j, is_complete (settings_of j))

  -- The struct that is left, and whether the result is 0. `none` is a file that cannot be opened; its
  -- whole content is read.
  unfoldable pub r2_config_load : Option Bytes → R2Config × Bool
  r2_config_load none = (zero_config, false)
  r2_config_load (some content) =
      if length content == 0 || ltb 65536 (length content)
      then (zero_config, false)
      else parsed_settings (tokener_parse (c_str content))

  setting-new_object :
      (size : ℕ) (old : Bytes) (ps : List (Bytes × Json)) (key s : Bytes)
      → has_unique_keys ps ≡ true
      → assoc ps key ≡ some (new_string s)
      → length s < size
      → setting size old (new_object ps) key ≡ s
  unfolding setting
  setting-new_object size old ps key s u e fits =
      rw (c.object_get_ex-new_object ps key u, e, c.string_not_null s, c.get_string-new_string s)
        (copy_fits size s fits)

  settings_of-settings_json : (cfg : R2Config) → Fits cfg → settings_of (settings_json cfg) ≡ cfg
  unfolding settings_of settings_json has_unique_keys lacks_key assoc str_eq
  settings_of-settings_json cfg fits =
      rw
        (
          setting-new_object 512 [] _ (codes "endpoint") cfg.endpoint refl refl fits.endpoint_fits,
          setting-new_object 128 [] _ (codes "accessKeyId") cfg.access_key_id refl refl
              fits.access_key_fits,
          setting-new_object 256 [] _ (codes "secretAccessKey") cfg.secret_access_key refl refl
              fits.secret_fits,
          setting-new_object 128 [] _ (codes "bucket") cfg.bucket refl refl fits.bucket_fits,
          setting-new_object 256 default_object_key _ (codes "objectKey") cfg.object_key refl refl
              fits.object_key_fits,
        )
        refl

  tokener_parse-saved_text :
      (cfg : R2Config) → tokener_parse (saved_text cfg) ≡ some (settings_json cfg)
  unfolding saved_text settings_json
  tokener_parse-saved_text cfg = c.tokener_parse-to_json_string pretty _ (c.object_not_null _) (
      c.new_object-IsNested 30 _ (
        c.new_string-IsNested 30 _,
        (
          c.new_string-IsNested 30 _,
          (
            c.new_string-IsNested 30 _,
            (c.new_string-IsNested 30 _, (c.new_string-IsNested 30 _, tt)),
          ),
        ),
      ))

  c_str-saved_text : (cfg : R2Config) → c_str (saved_text cfg) ≡ saved_text cfg
  unfolding saved_text
  c_str-saved_text cfg = c_str-Plain _ (c.to_json_string-no_nul pretty _)

  -- A configuration that r2_config_save wrote is loaded as it was, if it fits its arrays, has every field
  -- that has to be there, and its file is not empty and of 64 KB at most.
  pub r2_config_load-saved_text :
      (cfg : R2Config)
      → Fits cfg
      → is_complete cfg ≡ true
      → 0 < length (saved_text cfg)
      → length (saved_text cfg) ≤ 65536
      → r2_config_load (some (saved_text cfg)) ≡ (cfg, true)
  unfolding r2_config_load
  r2_config_load-saved_text cfg fits complete some_text small =
      let sized : (length (saved_text cfg) == 0 || ltb 65536 (length (saved_text cfg))) ≡ false =
        ground arith in
      rw
        (
          sized,
          c_str-saved_text cfg,
          tokener_parse-saved_text cfg,
          settings_of-settings_json cfg fits,
          complete,
        )
        refl
