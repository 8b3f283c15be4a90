-- ===== src/Askpass/Script.antt =====
-- askpass_init and askpass_cleanup of src/askpass.c: the script that ssh calls for a password. mkstemp,
-- write and chmod are arguments.
pub mod Whole
use sshpad.Prelude.{
  ℕ, Bool, true, false, not, ◌&&◌, ◌||◌, Option, none, some, List, [], ◌∷◌, ◌++◌, leb, ltb,
  if◌then◌else◌, Bytes, ℤ, pos, is_pos, to_ℕ, cat, codes, length,
}
use sshpad.Text.{print_int}
use sshpad.Output.{Answer, write_all}
use sshpad.Config.Host.{copy}

abbrev pub before_port : Bytes
before_port = cat (
    codes "#!/bin/sh\n"
    ∷ codes "# sshpad-askpass: generato automaticamente "
    ∷ (226 ∷ 128 ∷ 148 ∷ [])
    ∷ codes " non modificare.\n"
    ∷ codes "\n"
    ∷ codes "PROMPT=\"${1:-Password: }\"\n"
    ∷ codes "PORT="
    ∷ [])

abbrev pub before_curl : Bytes
before_curl = cat (
    codes "\n"
    ∷ codes "\n"
    ∷ codes "# Genera un UUID v4 grezzo da /dev/urandom.\n"
    ∷ codes "UUID=$(od -An -N16 -tx1 /dev/urandom 2>/dev/null \\\n"
    ∷ codes "        | tr -d ' \\n' \\\n"
    ∷ codes
        "        | sed 's/\\(........\\)\\(....\\)\\(....\\)\\(....\\)\\(............\\)/\\1-\\2-\\3-\\4-\\5/')\n"
    ∷ codes "\n"
    ∷ codes "# Codifica percent-encoding completo del prompt.\n"
    ∷ codes "# Ogni byte viene codificato come %XX (MHD li decodifica automaticamente).\n"
    ∷ codes "# Questo "
    ∷ (195 ∷ 168 ∷ [])
    ∷ codes " compatibile con qualsiasi /bin/sh (dash, bash, etc.).\n"
    ∷ codes "encode_prompt() {\n"
    ∷ codes
        "    printf '%s' \"$1\" | od -An -tx1 -v | tr ' ' '\\n' | grep -v '^$' | while read -r HEX; do\n"
    ∷ codes "        printf '%%%s' \"$HEX\"\n"
    ∷ codes "    done\n"
    ∷ codes "}\n"
    ∷ codes "\n"
    ∷ codes "ENC_PROMPT=$(encode_prompt \"$PROMPT\")\n"
    ∷ codes
        "URL=\"http://127.0.0.1:${PORT}/api/internal/askpass?id=${UUID}&prompt=${ENC_PROMPT}\"\n"
    ∷ codes "\n"
    ∷ codes "# Tenta prima con curl, poi con wget.\n"
    ∷ codes "if command -v curl >/dev/null 2>&1; then\n"
    ∷ codes "    curl -sf --max-time "
    ∷ [])

abbrev pub before_wget : Bytes
before_wget = cat (
    codes " \"$URL\"\n"
    ∷ codes "elif command -v wget >/dev/null 2>&1; then\n"
    ∷ codes "    wget -qO- --timeout="
    ∷ [])

abbrev pub script_end : Bytes
script_end = cat (
    codes " \"$URL\"\n"
    ∷ codes "else\n"
    ∷ codes "    printf '' # Nessun client HTTP disponibile.\n"
    ∷ codes "fi\n"
    ∷ [])

-- ASKPASS_TIMEOUT_SEC + 10
abbrev pub curl_timeout : ℤ
curl_timeout = pos 130

-- What the format of the script gives for a port.
unfoldable pub script_text : ℤ → Bytes
unfolding print_int
script_text port =
    before_port
    ++ (print_int port
        ++ (before_curl
            ++ (print_int curl_timeout ++ (before_wget ++ (print_int curl_timeout ++ script_end)))))

abbrev pub valid_port : ℤ → Bool
valid_port port = is_pos port && leb (to_ℕ port) 65535

-- The path that is given out, none for the result -1; and the content of the file that is left, none if
-- there is none or it was removed again.
abbrev pub Made : Type 0
Made = Option Bytes × Option Bytes

abbrev nothing : Option Made
nothing = some (none, none)

abbrev pub finish_script : Bytes → Bool → Option (Bytes × Bool) → Option Made
finish_script path chmod_ok none = none
finish_script path chmod_ok (some (out, false)) = nothing
finish_script path chmod_ok (some (out, true)) =
    if chmod_ok then some (some (copy 512 path), some out) else nothing

-- The file of mkstemp is written. The buffer of the script has 4096 bytes.
unfoldable pub write_script : List Answer → Bool → ℤ → Option Bytes → Option Made
unfolding script_text write_all
write_script answers chmod_ok port none = nothing
write_script answers chmod_ok port (some path) =
    if leb 4096 (length (script_text port))
    then nothing
    else finish_script path chmod_ok (write_all answers (script_text port))

-- none while a write still waits.
unfoldable pub askpass_init : Option Bytes → List Answer → Bool → ℤ → Option Made
unfolding write_script
askpass_init tmp answers chmod_ok port =
    if valid_port port then write_script answers chmod_ok port tmp else nothing

-- The path that askpass_cleanup removes.
unfoldable pub askpass_cleanup : Option Bytes → Option Bytes
askpass_cleanup none = none
askpass_cleanup (some []) = none
askpass_cleanup (some (c ∷ cs)) = some (c ∷ cs)
