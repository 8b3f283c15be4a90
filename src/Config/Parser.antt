-- ===== src/Config/Parser.antt =====
-- parse_ssh_config of src/config_parser.c: the loop over the lines of the file.
pub mod Bounds
pub mod Blocks
use sshpad.Prelude.{
  ℕ, zero, suc, ◌+◌, ◌-◌, ◌*◌, Bool, true, false, not, ◌&&◌, ◌||◌, Option, none, some, List, [],
  ◌∷◌, ◌++◌, ◌==◌, ltb, leb, if◌then◌else◌, Bytes, ℤ, pos, length, take, drop, codes, ◌>>=◌, ◌>>◌,
  guard,
}
use sshpad.Text.{find_char, c_str, cut_line_end, trim, kw_eq}
use sshpad.Config.Host.{SshHost, zero_host, copy}
use sshpad.Config.Forward.{find_blank}
use sshpad.Config.Fields.{Env, expand_tilde, has_wildcard, is_empty, apply_defaults, process_kv}

-- The calls fgets(line, 1024, fp) up to the end of the file: a line ends behind its newline or at
-- 1023 bytes. `room` is what the buffer still takes.
unfoldable pub fgets_all : ℕ → Bytes → Bytes → List Bytes
fgets_all room line [] = if is_empty line then [] else line ∷ []
fgets_all room line (c ∷ cs) = elim (c == b'\n' || leb room 1) [
  | true ↦ (line ++ (c ∷ [])) ∷ fgets_all 1023 [] cs
  | false ↦ fgets_all (room - 1) (line ++ (c ∷ [])) cs
]

-- The position of the delimiter: the nearer one of `=` and a blank.
unfoldable pub separator : Option ℕ → Option ℕ → Option ℕ
separator (some e) (some p) = some (if ltb e p then e else p)
separator (some e) none = some e
separator none sp = sp

unfoldable pub starts_comment : Bytes → Bool
starts_comment [] = true
starts_comment (c ∷ cs) = c == b'#'

-- The keyword and the value of a trimmed line; `none` where the loop goes on to the next line.
unfoldable pub split_line : Bytes → Option (Bytes × Bytes)
split_line s = do
  guard (not (starts_comment s))
  klen ← separator (find_char b'=' s) (find_blank s)
  guard (not (klen == 0 || leb 64 klen))
  some (take klen s, take 959 (trim (drop (suc klen) s)))

unfoldable pub read_line : Bytes → Option (Bytes × Bytes)
read_line raw = split_line (trim (cut_line_end (c_str raw)))

-- What `current` points to: `&defaults`, or `&hosts[count - 1]`.
pub data Current : Type 0 where
  global last_host : Current

pub record Parse : Type 0 where
  pub hosts : List SshHost
  pub capacity : ℕ
  pub defaults : SshHost
  pub current : Current
  pub skip_current : Bool

-- The loop goes on, or returns the hosts so far because the array cannot grow.
pub data Outcome : Type 0 where
  more : Parse → Outcome
  stop : List SshHost → Outcome

unfoldable pub modify_last : (SshHost → SshHost) → List SshHost → List SshHost
modify_last f [] = []
modify_last f (h ∷ []) = f h ∷ []
modify_last f (h ∷ g ∷ hs) = h ∷ modify_last f (g ∷ hs)

-- The defaults are applied to the block that ends here, unless none is open.
unfoldable pub close_block : Current → Bool → SshHost → List SshHost → List SshHost
close_block last_host false defaults hosts = modify_last (λ h. apply_defaults h defaults) hosts
close_block _ _ defaults hosts = hosts

abbrev pub new_host : Bytes → SshHost
new_host value = record zero_host {
  name = copy 128 value;
  hostname = copy 256 value;
  port = pos 22;
}

abbrev pub open_block : Parse → List SshHost → ℕ → Bytes → Parse
open_block st hosts capacity value = record st {
  hosts = hosts ++ new_host value ∷ [];
  capacity = capacity;
  current = last_host;
  skip_current = false;
}

-- `grow n` is the answer of realloc for `n` hosts.
unfoldable pub host_line : (ℕ → Bool) → Parse → Bytes → Outcome
host_line grow st value =
    let hosts = close_block st.current st.skip_current st.defaults st.hosts in
    if has_wildcard value
    then more (record st { hosts = hosts; current = global; skip_current = true })
    else if leb st.capacity (length hosts)
    then (if grow (st.capacity * 2)
        then more (open_block st hosts (st.capacity * 2) value)
        else stop hosts)
    else more (open_block st hosts st.capacity value)

unfoldable pub to_current : (SshHost → SshHost) → Current → Parse → Parse
to_current f global st = record st { defaults = f st.defaults }
to_current f last_host st = record st { hosts = modify_last f st.hosts }

unfoldable pub keyword_line : Env → (ℕ → Bool) → Parse → Bytes → Bytes → Outcome
keyword_line env grow st key value =
    if kw_eq key (codes "Host")
    then host_line grow st value
    else if st.skip_current
    then more st
    else more (to_current (λ h. process_kv env h key value) st.current st)

abbrev pub step_entry : Env → (ℕ → Bool) → Parse → Option (Bytes × Bytes) → Outcome
step_entry env grow st none = more st
step_entry env grow st (some (key, value)) = keyword_line env grow st key value

unfoldable pub step_line : Env → (ℕ → Bool) → Parse → Bytes → Outcome
step_line env grow st line = step_entry env grow st (read_line line)

abbrev pub finish : Parse → List SshHost
finish st = close_block st.current st.skip_current st.defaults st.hosts

abbrev pub resume : (Parse → List SshHost) → Outcome → List SshHost
resume loop (more st) = loop st
resume loop (stop hosts) = hosts

unfoldable pub run_lines : Env → (ℕ → Bool) → Parse → List Bytes → List SshHost
run_lines env grow st [] = finish st
run_lines env grow st (l ∷ ls) = resume (λ st'. run_lines env grow st' ls) (step_line env grow st l)

abbrev pub start : Parse
start = record {
  hosts = [];
  capacity = 8;
  defaults = zero_host;
  current = global;
  skip_current = false;
}

unfoldable pub parse_text : Env → (ℕ → Bool) → Bytes → List SshHost
parse_text env grow content = run_lines env grow start (fgets_all 1023 [] content)

-- An empty path, or none, means ~/.ssh/config.
unfoldable pub resolve_path : Env → Bytes → Bytes
resolve_path env path =
    if is_empty path
    then expand_tilde env 1024 (codes "~/.ssh/config")
    else expand_tilde env 1024 path

-- `read` is the content of a file that fopen can open. `none` is the result NULL.
unfoldable pub parse_ssh_config :
    Env → (ℕ → Bool) → (Bytes → Option Bytes) → Bytes → Option (List SshHost)
parse_ssh_config env grow read path = do
  content ← read (resolve_path env path)
  guard (grow 8)
  some (parse_text env grow content)
