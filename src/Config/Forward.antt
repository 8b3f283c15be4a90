-- ===== src/Config/Forward.antt =====
-- parse_forward and parse_dynamic of src/config_parser.c.
pub mod Bounds
use sshpad.Prelude.{
  ℕ, zero, suc, ◌+◌, Bool, true, false, not, ◌&&◌, ◌||◌, Option, none, some, List, [], ◌∷◌, ◌++◌,
  ◌==◌, if◌then◌else◌, Bytes, ℤ, pos, is_pos, take, drop, codes, or_else, ◌>>=◌, ◌>>◌, guard,
}
use sshpad.Text.{find_char, find_last, scan_int, atoi}
use sshpad.Config.Host.{ForwardRule, DynamicRule, copy}

abbrev pub localhost : Bytes
localhost = codes "localhost"

unfoldable pub skip_blank : Bytes → Bytes
skip_blank [] = []
skip_blank (x ∷ xs) = if x == b' ' || x == b'\t' then skip_blank xs else x ∷ xs

-- The first space, or the first tab where there is no space.
unfoldable pub find_blank : Bytes → Option ℕ
find_blank s = or_else (find_char b' ' s) (find_char b'\t' s)

abbrev split_spec : Bytes → Option ℕ → Bytes × ℤ
split_spec s (some i) = (copy 64 (take i s), atoi (drop (suc i) s))
split_spec s none = (localhost, atoi s)

-- `port`, or `addr:port`.
unfoldable pub bind_spec : Bytes → Bytes × ℤ
bind_spec s = split_spec s (find_char b':' s)

-- `bind_spec host:port`; both ports have to be positive.
unfoldable pub parse_spaced : Bytes → Bytes → Option ForwardRule
parse_spaced bind remote = do
  i ← find_last b':' remote
  let rule : ForwardRule = record {
    bind_addr = (bind_spec bind).0;
    bind_port = (bind_spec bind).1;
    remote_host = copy 256 (take i remote);
    remote_port = atoi (drop (suc i) remote);
  }
  guard (is_pos (bind_spec bind).1 && is_pos (atoi (drop (suc i) remote)))
  some rule

unfoldable pub count_colons : Bytes → ℕ
count_colons [] = 0
count_colons (x ∷ xs) = (if x == b':' then 1 else 0) + count_colons xs

-- A `:` in the format of sscanf.
unfoldable pub scan_colon : Bytes → Option Bytes
scan_colon [] = none
scan_colon (x ∷ xs) = if x == b':' then some xs else none

-- At most `n` bytes that are no colon.
unfoldable pub not_colons : ℕ → Bytes → Bytes × Bytes
not_colons zero s = ([], s)
not_colons (suc n) [] = ([], [])
not_colons (suc n) (x ∷ xs) =
    if x == b':' then ([], x ∷ xs) else (x ∷ (not_colons n xs).0, (not_colons n xs).1)

-- `%n[^:]` of sscanf, which matches one byte at least.
unfoldable pub scan_field : ℕ → Bytes → Option (Bytes × Bytes)
scan_field n s = elim (not_colons n s).0 [ [] ↦ none | x ∷ xs ↦ some (x ∷ xs, (not_colons n s).1) ]

-- "%d:%255[^:]:%d", behind the address.
unfoldable pub scan_ports : Bytes → Bytes → Option ForwardRule
scan_ports addr s = do
  (bind_port, s₁) ← scan_int s
  s₂ ← scan_colon s₁
  (remote_host, s₃) ← scan_field 255 s₂
  s₄ ← scan_colon s₃
  (remote_port, s₅) ← scan_int s₄
  some (record {
    bind_addr = addr;
    bind_port = bind_port;
    remote_host = remote_host;
    remote_port = remote_port;
  })

-- "%63[^:]:%d:%255[^:]:%d"
unfoldable pub scan_addr_ports : Bytes → Option ForwardRule
scan_addr_ports s = do (addr, s₁) ← scan_field 63 s; s₂ ← scan_colon s₁; scan_ports addr s₂

-- `port:host:port`, or `addr:port:host:port`.
unfoldable pub parse_colons : Bytes → Option ForwardRule
parse_colons s =
    if count_colons s == 2
    then scan_ports localhost s
    else if count_colons s == 3
    then scan_addr_ports s
    else none

abbrev parse_at : Bytes → Option ℕ → Option ForwardRule
parse_at buf (some i) = parse_spaced (take i buf) (skip_blank (drop (suc i) buf))
parse_at buf none = parse_colons buf

unfoldable pub parse_in_buffer : Bytes → Option ForwardRule
parse_in_buffer buf = parse_at buf (find_blank buf)

-- `none` is the result -1.
unfoldable pub parse_forward : Bytes → Option ForwardRule
parse_forward val = parse_in_buffer (copy 512 val)

unfoldable pub parse_dynamic : Bytes → DynamicRule
parse_dynamic val = record {
  bind_addr = (bind_spec (skip_blank val)).0;
  bind_port = (bind_spec (skip_blank val)).1;
}
