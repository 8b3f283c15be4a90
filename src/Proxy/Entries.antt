-- ===== src/Proxy/Entries.antt =====
-- host_entry_exists and ensure_hosts_entries of src/local_proxy.c, up to the file that is appended to
-- /etc/hosts.
pub mod Bounds
pub mod Found
use sshpad.Prelude.{
  ℕ, ◌+◌, ◌-◌, Bool, true, false, not, ◌&&◌, ◌||◌, Option, none, some, List, [], ◌∷◌, ◌++◌, ◌==◌,
  leb, min, if◌then◌else◌, Bytes, codes, length, cat, map, get_elem?,
}
use sshpad.Text.{find_text, c_str}
use sshpad.Output.{Answer, write_all}
use sshpad.Config.Host.{copy}
use sshpad.Config.Parser.{fgets_all}

-- The loop over the blanks at the start of the line.
unfoldable pub skip_blank : Bytes → Bytes
skip_blank [] = []
skip_blank (x ∷ xs) = if x == b' ' || x == 9 then skip_blank xs else x ∷ xs

-- A comment, or a line of blanks that ends.
abbrev pub is_ignored : Bytes → Bool
is_ignored [] = false
is_ignored (x ∷ xs) = x == b'#' || x == 10

abbrev byte_or : ℕ → Option ℕ → ℕ
byte_or other none = other
byte_or other (some c) = c

-- The bytes around a text at a position: a blank before the first byte, and the NUL behind the last.
unfoldable pub byte_before : Bytes → ℕ → ℕ
byte_before line pos = if pos == 0 then b' ' else byte_or 0 (get_elem? line (pos - 1))

unfoldable pub byte_after : Bytes → ℕ → ℕ
byte_after line end = byte_or 0 (get_elem? line end)

abbrev is_blank : ℕ → Bool
is_blank c = c == b' ' || c == 9

abbrev ends_word : ℕ → Bool
ends_word c = is_blank c || c == 10 || c == 13 || c == 0

abbrev is_word : Bytes → Bytes → Option ℕ → Bool
is_word line name none = false
is_word line name (some pos) =
    is_blank (byte_before line pos) && ends_word (byte_after line (pos + length name))

abbrev has_local : Option ℕ → Bool
has_local none = false
has_local (some i) = true

-- Only the first place where the name occurs in the line is looked at.
unfoldable pub line_has : Bytes → Bytes → Bool
line_has name line =
    not (is_ignored (skip_blank line))
    && (has_local (find_text (codes "127.0.0.1") line) && is_word line name (find_text name line))

unfoldable pub any_line : Bytes → List Bytes → Bool
any_line name [] = false
any_line name (line ∷ lines) = if line_has name (c_str line) then true else any_line name lines

-- `hosts_file` is the content of /etc/hosts, none if it cannot be opened.
unfoldable pub host_entry_exists : Option Bytes → Bytes → Bool
host_entry_exists none name = false
host_entry_exists (some hosts_file) name = any_line name (fgets_all 1023 [] hosts_file)

unfoldable pub missing : Option Bytes → List Bytes → List Bytes
missing hosts_file [] = []
missing hosts_file (name ∷ names) =
    let rest = missing hosts_file names in
    if host_entry_exists hosts_file name then rest else name ∷ rest

unfoldable pub entry_text : Bytes → Bytes
entry_text name = codes "127.0.0.1 " ++ (name ++ codes "\n")

abbrev pub entries_header : Bytes
entries_header = codes "\n# --- SSHPad managed entries ---\n"

abbrev pub with_header : List Bytes → List Bytes
with_header [] = []
with_header (text ∷ texts) = entries_header ∷ text ∷ texts

-- What is printed into the buffer, in order.
unfoldable pub entry_texts : Option Bytes → List Bytes → List Bytes
entry_texts hosts_file names = with_header (map entry_text (missing hosts_file names))

abbrev pub entries_size : ℕ
entries_size = 4096

-- `(size_t)remaining` at an offset: remaining is an int, which may be negative.
unfoldable pub room_at : ℕ → ℕ
room_at offset =
    if leb offset entries_size
    then entries_size - offset
    else 18446744073709551616 - (offset - entries_size)

-- A call snprintf(ptr, (size_t)remaining, ...): where it writes, and the text.
pub record Print : Type 0 where
  pub offset : ℕ
  pub text : Bytes

-- The calls: each moves ptr by the length of its text, whether or not the text was cut.
unfoldable pub prints : ℕ → List Bytes → List Print
prints offset [] = []
prints offset (text ∷ texts) =
    record { offset = offset; text = text } ∷ prints (offset + length text) texts

-- Are the bytes that a call writes, with its NUL, in the buffer. With no room nothing is written.
unfoldable pub is_inside : Print → Bool
is_inside p =
    room_at p.offset == 0
    || leb (p.offset + min (length p.text) (room_at p.offset - 1) + 1) entries_size

unfoldable pub all_inside : List Print → Bool
all_inside [] = true
all_inside (p ∷ ps) = is_inside p && all_inside ps

-- The calls of ensure_hosts_entries.
unfoldable pub ensure_hosts_entries : Option Bytes → List Bytes → List Print
ensure_hosts_entries hosts_file names = prints 0 (entry_texts hosts_file names)

-- The text in the buffer, while the calls stay inside it.
unfoldable pub entries_text : List Bytes → Bytes
unfolding copy
entries_text texts = copy entries_size (cat texts)

abbrev pub content_of : Option Bytes → Bytes
content_of none = []
content_of (some s) = s

-- `cat "<tmp>" >> /etc/hosts`, whether or not write_all came to its end.
abbrev pub after_cat : Bool → Option Bytes → Option (Bytes × Bool) → Option (Option Bytes × Bool)
after_cat succeeds hosts_file none = none
after_cat succeeds hosts_file (some (out, done)) =
    if succeeds then some (some (content_of hosts_file ++ out), true) else some (hosts_file, false)

abbrev with_texts :
    Bool → List Answer → Bool → Option Bytes → List Bytes → Option (Option Bytes × Bool)
with_texts made answers succeeds hosts_file [] = some (hosts_file, true)
with_texts made answers succeeds hosts_file (t ∷ ts) =
    if made
    then after_cat succeeds hosts_file (write_all answers (entries_text (t ∷ ts)))
    else some (hosts_file, false)

-- The end of ensure_hosts_entries: /etc/hosts after it, and whether the result is 0. `made` is mkstemp,
-- `succeeds` is whether the command of pkexec returns 0; none while a write still waits.
unfoldable pub append_entries :
    Bool → List Answer → Bool → Option Bytes → List Bytes → Option (Option Bytes × Bool)
unfolding entry_texts entries_text write_all
append_entries made answers succeeds hosts_file names =
    with_texts made answers succeeds hosts_file (entry_texts hosts_file names)
