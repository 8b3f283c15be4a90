-- ===== src/Config/Host.antt =====
-- The structs of src/config_parser.h. A `char` array is its text; an array with its counter is the
-- list of the items in use.
use sshpad.Prelude.{
  ℕ, ◌-◌, ◌<◌, ◌≤◌, ◌≡◌, List, [], Bytes, ℤ, pos, to_ℕ, is_pos, ◌&&◌, leb, true, take, take_fits,
  length, length-take-le, arith, All,
}

pub record ForwardRule : Type 0 where
  pub bind_addr : Bytes
  pub bind_port : ℤ
  pub remote_host : Bytes
  pub remote_port : ℤ

pub record DynamicRule : Type 0 where
  pub bind_addr : Bytes
  pub bind_port : ℤ

pub record SshOption : Type 0 where
  pub key : Bytes
  pub value : Bytes

pub record SshHost : Type 0 where
  pub name : Bytes
  pub hostname : Bytes
  pub user : Bytes
  pub port : ℤ
  pub identity_file : Bytes
  pub proxy_jump : Bytes
  pub local_forward : List ForwardRule
  pub remote_forward : List ForwardRule
  pub dynamic_forward : List DynamicRule
  pub options : List SshOption

abbrev pub max_forwards : ℕ
max_forwards = 16

abbrev pub max_options : ℕ
max_options = 32

-- memset(host, 0, sizeof(*host))
abbrev pub zero_host : SshHost
zero_host = record {
  name = [];
  hostname = [];
  user = [];
  port = pos 0;
  identity_file = [];
  proxy_jump = [];
  local_forward = [];
  remote_forward = [];
  dynamic_forward = [];
  options = [];
}

-- snprintf(dest, size, "%s", s), and strncpy with the last byte set to NUL.
unfoldable pub copy : ℕ → Bytes → Bytes
copy size s = take (size - 1) s

pub length-copy : (size : ℕ) (s : Bytes) → 0 < size → length (copy size s) < size
unfolding copy
length-copy size s h = omega (arith, length-take-le (size - 1) s)

pub copy_fits : (size : ℕ) (s : Bytes) → length s < size → copy size s ≡ s
unfolding copy
copy_fits size s h = take_fits (size - 1) s (omega arith)

-- What the arrays of a rule and of an option hold.
pub record FitsForward (r : ForwardRule) : Type 0 where
  pub addr_fits : length r.bind_addr < 64
  pub host_fits : length r.remote_host < 256

pub record FitsDynamic (r : DynamicRule) : Type 0 where
  pub addr_fits : length r.bind_addr < 64

pub record FitsOption (o : SshOption) : Type 0 where
  pub key_fits : length o.key < 64
  pub value_fits : length o.value < 256

-- Every text fits its array with its NUL, and no array of rules or options is overrun.
pub record Fits (h : SshHost) : Type 0 where
  pub name_fits : length h.name < 128
  pub hostname_fits : length h.hostname < 256
  pub user_fits : length h.user < 64
  pub identity_fits : length h.identity_file < 512
  pub proxy_fits : length h.proxy_jump < 128
  pub local_count : length h.local_forward ≤ max_forwards
  pub remote_count : length h.remote_forward ≤ max_forwards
  pub dynamic_count : length h.dynamic_forward ≤ max_forwards
  pub option_count : length h.options ≤ max_options
  pub local_fit : All FitsForward h.local_forward
  pub remote_fit : All FitsForward h.remote_forward
  pub dynamic_fit : All FitsDynamic h.dynamic_forward
  pub options_fit : All FitsOption h.options

-- A port that a socket can have.
abbrev pub IsPort : ℤ → Type 0
IsPort p = (is_pos p && leb (to_ℕ p) 65535) ≡ true
