-- ===== src/Tests/Cloud.antt =====
-- src/crypto_store.c, src/r2_client.c and the JSON form of the hosts at concrete inputs.
use sshpad.Prelude.{
  ◌<◌, ◌+◌, true, none, some, [], ◌∷◌, map, ◌≡◌, ◌≢◌, refl, arith, Bytes, length, codes, pos, All,
  replicate, if◌then◌else◌, ltb, cat,
}
use sshpad.Text.{find_text, find_char, starts_with}
use sshpad.Config.Fields.{Env, is_empty, home_dir}
use sshpad.Crypto.{IsText, be32, plaintext_of, cs_encrypt, cs_decrypt, frame}
use sshpad.Crypto.RoundTrip.{cs_decrypt-cs_encrypt}
use sshpad.Crypto.Format.{Opened, cs_decrypt-Opened}
use sshpad.Config.Host.{SshHost, zero_host, Fits, copy}
use sshpad.Config.Json.{ssh_hosts_to_json, ssh_hosts_from_json}
use sshpad.Config.Json.RoundTrip.{stored, ssh_hosts_from_json-ssh_hosts_to_json}
use sshpad.R2.{R2Config}
use sshpad.R2.Sign.{host_part, sign_request}
use sshpad.R2.Sign.Uri.{is_plain, is_unreserved}
use sshpad.R2.Sign.Reference.{reference, bytes_of, sign_request-reference}
use sshpad.R2.Transfer.{max_body}
use sshpad.R2.Transfer.Chunks.{send, receive, body_of, send_whole, receive_lem}
use sshpad.R2.Settings.{is_complete, saved_text, settings_json}
use sshpad.R2.Disk.{Kept, settings_path, expand_tilde_r2, r2_config_save, r2_config_save-Kept}
use sshpad.Config.Writer.Disk.{Disk}
use sshpad.Tests.Outside.{json_c, openssl, draws, hashing, now, tag}

abbrev text : Bytes
text = codes "[]"

abbrev sealed : Bytes
unfolding be32
sealed = frame (replicate 32 5) (replicate 12 6) text tag

text-IsText : IsText text
text-IsText = record { no_nul = ground arith; short = omega arith }

text_encrypts : cs_encrypt openssl draws text (codes "pw") ≡ some sealed
unfolding cs_encrypt plaintext_of be32
text_encrypts = refl

cs_decrypt-cs_encrypt_example : cs_decrypt openssl sealed (codes "pw") ≡ some text
cs_decrypt-cs_encrypt_example =
    cs_decrypt-cs_encrypt openssl draws text (codes "pw") sealed text-IsText text_encrypts

sealed_bytes : All (λ b. b < 256) sealed
unfolding be32
sealed_bytes = ground arith

cs_decrypt-Opened_example : Opened openssl sealed (codes "pw") text
cs_decrypt-Opened_example =
    cs_decrypt-Opened openssl sealed (codes "pw") text sealed_bytes cs_decrypt-cs_encrypt_example

abbrev pub web : SshHost
web = record zero_host {
  name = codes "web";
  hostname = codes "web.example.org";
  local_forward =
      record {
        bind_addr = [];
        bind_port = pos 8080;
        remote_host = codes "localhost";
        remote_port = pos 80;
      }
      ∷ [];
}

pub web-Fits : All Fits (web ∷ [])
web-Fits = (
  record {
    name_fits = omega arith;
    hostname_fits = omega arith;
    user_fits = omega arith;
    identity_fits = omega arith;
    proxy_fits = omega arith;
    local_count = omega arith;
    remote_count = omega arith;
    dynamic_count = omega arith;
    option_count = omega arith;
    local_fit = (record { addr_fits = omega arith; host_fits = omega arith }, tt);
    remote_fit = tt;
    dynamic_fit = tt;
    options_fit = tt;
  },
  tt,
)

ssh_hosts_from_json-ssh_hosts_to_json_example :
    ssh_hosts_from_json json_c (ssh_hosts_to_json json_c (web ∷ [])) ≡ some (map stored (web ∷ []))
ssh_hosts_from_json-ssh_hosts_to_json_example =
    ssh_hosts_from_json-ssh_hosts_to_json json_c (web ∷ []) web-Fits

abbrev pub r2 : R2Config
r2 = record {
  endpoint = codes "https://r2.example.org";
  access_key_id = codes "id";
  secret_access_key = codes "secret-key";
  bucket = codes "b";
  object_key = codes "o";
}

r2-Fits : sshpad.R2.Fits r2
r2-Fits = record {
  endpoint_fits = omega arith;
  access_key_fits = omega arith;
  secret_fits = omega arith;
  bucket_fits = omega arith;
  object_key_fits = omega arith;
}

host_short : length (host_part r2.endpoint) < 256
unfolding host_part find_text find_char starts_with
host_short = omega arith

plain_path : is_plain (codes "/b/o") ≡ true
unfolding is_plain is_unreserved
plain_path = refl

sign_request-reference_example :
    sign_request hashing now r2 (codes "GET") (codes "/b/o") none
    ≡ reference hashing now r2 (codes "GET") (codes "/b/o") (bytes_of none)
sign_request-reference_example =
    sign_request-reference hashing now r2 (codes "GET") (codes "/b/o") none r2-Fits host_short
      (omega arith) (omega arith) plain_path

send_whole_example :
    send (λ i. i + 1) (length text + 1) 0 (record { content = text; offset = 0 }) ≡ some text
send_whole_example = send_whole (λ i. i + 1) text (λ j. omega arith)

receive_lem_example : body_of (receive (λ n. true) (text ∷ sealed ∷ []) none) ≡ (
    if ltb max_body (length (cat (text ∷ sealed ∷ [])))
    then none
    else some (cat (text ∷ sealed ∷ [])))
receive_lem_example = receive_lem (λ n. true) (text ∷ sealed ∷ []) (λ n. refl)

abbrev env : Env
env = record { home = some (codes "/home/ada"); pw_dir = none }

no_files : Disk
no_files path = none

elsewhere : codes "/etc/hosts" ≢ settings_path env
unfolding settings_path expand_tilde_r2 home_dir copy
elsewhere e = absurd (cc)

r2_config_save-Kept_example :
    Kept json_c env r2 no_files
      (codes "/etc/hosts")
      (r2_config_save json_c env (some 4096) r2 no_files)
unfolding is_complete saved_text is_empty settings_json
r2_config_save-Kept_example =
    r2_config_save-Kept json_c env (some 4096) r2 no_files (codes "/etc/hosts") (omega arith)
      r2-Fits refl (omega arith) (omega arith) elsewhere
