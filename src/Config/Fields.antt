-- ===== src/Config/Fields.antt =====
-- expand_tilde, apply_defaults and process_kv of src/config_parser.c.
pub mod Bounds
use sshpad.Prelude.{
  ℕ, ◌-◌, Bool, true, false, not, ◌&&◌, ◌||◌, Option, none, some, List, [], ◌∷◌, ◌++◌, ◌==◌, ltb,
  leb, if◌then◌else◌, Bytes, ℤ, pos, is_pos, is_zero, to_ℕ, length, codes,
}
use sshpad.Text.{kw_eq, find_char, atoi}
use sshpad.Config.Host.{
  ForwardRule, DynamicRule, SshOption, SshHost, copy, max_forwards, max_options,
}
use sshpad.Config.Forward.{parse_forward, parse_dynamic}

-- What getenv("HOME") and the password database answer.
pub record Env : Type 0 where
  pub home : Option Bytes
  pub pw_dir : Option Bytes

unfoldable pub home_dir : Env → Bytes
home_dir env = elim env.home [
  | some dir ↦ dir
  | none ↦ elim env.pw_dir [ some dir ↦ dir | none ↦ codes "/tmp" ]
]

unfoldable pub expand_tilde : Env → ℕ → Bytes → Bytes
expand_tilde env size [] = copy size []
expand_tilde env size (a ∷ []) = copy size (a ∷ [])
expand_tilde env size (a ∷ b ∷ rest) =
    if a == b'~' && b == b'/'
    then copy size (home_dir env ++ (b ∷ rest))
    else copy size (a ∷ b ∷ rest)

unfoldable pub has_wildcard : Bytes → Bool
has_wildcard pattern = elim (find_char b'*' pattern) [
  | some i ↦ true
  | none ↦ elim (find_char b'?' pattern) [ some i ↦ true | none ↦ false ]
]

unfoldable pub is_empty : Bytes → Bool
is_empty [] = true
is_empty (x ∷ xs) = false

-- A text that the host left empty is taken from the defaults.
unfoldable pub inherit : ℕ → Bytes → Bytes → Bytes
inherit size own global = if is_empty own && not (is_empty global) then copy size global else own

unfoldable pub has_key : Bytes → List SshOption → Bool
has_key key [] = false
has_key key (o ∷ os) = kw_eq o.key key || has_key key os

unfoldable pub merge_options : List SshOption → List SshOption → List SshOption
merge_options own [] = own
merge_options own (d ∷ ds) =
    merge_options
      (if not (has_key d.key own) && ltb (length own) max_options then own ++ d ∷ [] else own) ds

unfoldable pub apply_defaults : SshHost → SshHost → SshHost
unfolding inherit
apply_defaults host defaults = record host {
  hostname = inherit 256 host.hostname defaults.hostname;
  user = inherit 64 host.user defaults.user;
  port = if is_zero host.port && not (is_zero defaults.port) then defaults.port else host.port;
  identity_file = inherit 512 host.identity_file defaults.identity_file;
  proxy_jump = inherit 128 host.proxy_jump defaults.proxy_jump;
  options = merge_options host.options defaults.options;
}

-- `rules[count++] = rule`, where there is room and the rule was parsed.
unfoldable pub add_forward : List ForwardRule → Option ForwardRule → List ForwardRule
add_forward rules none = rules
add_forward rules (some rule) = rules ++ rule ∷ []

unfoldable pub set_port : SshHost → ℤ → SshHost
set_port host p = if is_pos p && leb (to_ℕ p) 65535 then record host { port = p } else host

unfoldable pub add_option : SshHost → Bytes → Bytes → SshHost
add_option host key val =
    if ltb (length host.options) max_options
    then record host {
      options = host.options ++ (record { key = copy 64 key; value = copy 256 val } ∷ []);
    }
    else host

-- The branches of process_kv, and the test that chooses one.
pub data Directive : Type 0 where
  host_name user port identity_file proxy_jump : Directive
  local_forward remote_forward dynamic_forward generic : Directive

unfoldable pub directive_of : Bytes → Directive
directive_of key =
    if kw_eq key (codes "HostName")
    then host_name
    else if kw_eq key (codes "User")
    then user
    else if kw_eq key (codes "Port")
    then port
    else if kw_eq key (codes "IdentityFile")
    then identity_file
    else if kw_eq key (codes "ProxyJump")
    then proxy_jump
    else if kw_eq key (codes "LocalForward")
    then local_forward
    else if kw_eq key (codes "RemoteForward")
    then remote_forward
    else if kw_eq key (codes "DynamicForward")
    then dynamic_forward
    else generic

unfoldable pub apply_directive : Env → SshHost → Directive → Bytes → Bytes → SshHost
unfolding set_port add_forward add_option
apply_directive env host host_name key val = record host { hostname = copy 256 val }
apply_directive env host user key val = record host { user = copy 64 val }
apply_directive env host port key val = set_port host (atoi val)
apply_directive env host identity_file key val = record host {
  identity_file = expand_tilde env 512 val;
}
apply_directive env host proxy_jump key val = record host { proxy_jump = copy 128 val }
apply_directive env host local_forward key val =
    if ltb (length host.local_forward) max_forwards
    then record host { local_forward = add_forward host.local_forward (parse_forward val) }
    else host
apply_directive env host remote_forward key val =
    if ltb (length host.remote_forward) max_forwards
    then record host { remote_forward = add_forward host.remote_forward (parse_forward val) }
    else host
apply_directive env host dynamic_forward key val =
    if ltb (length host.dynamic_forward) max_forwards
    then record host { dynamic_forward = host.dynamic_forward ++ parse_dynamic val ∷ [] }
    else host
apply_directive env host generic key val = add_option host key val

unfoldable pub process_kv : Env → SshHost → Bytes → Bytes → SshHost
process_kv env host key val = apply_directive env host (directive_of key) key val
