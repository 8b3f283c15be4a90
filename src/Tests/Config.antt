-- ===== src/Tests/Config.antt =====
-- src/config_parser.c at concrete inputs.
use sshpad.Prelude.{
  ℕ, ◌<◌, Bool, true, none, some, [], ◌∷◌, ◌≡◌, refl, arith, Bytes, All, length, codes, pos, inl,
  inr,
}
use sshpad.Text.{is_space, kw_eq, find_char, print_int}
use sshpad.Text.Trim.{EndsPlain}
use sshpad.Config.Host.{copy, ForwardRule, DynamicRule, SshOption, SshHost, Fits}
use sshpad.Config.Fields.{Env, directive_of, expand_tilde, home_dir, has_wildcard}
use sshpad.Config.Parser.{parse_text, fgets_all}
use sshpad.Config.Parser.Bounds.{IsSound, parse_text-IsSound}
use sshpad.Config.Parser.Blocks.{read_config, entries, parse_text-read_config}
use sshpad.Config.Writer.{write_text, dynamic_text}
use sshpad.Config.Writer.Lines.{IsValue}
use sshpad.Config.Writer.Forwards.{IsWritableDynamic}
use sshpad.Config.Writer.Replay.{IsWritableOption}
use sshpad.Config.Writer.Writable.{
  IsWritable, check_keyword, check_keyword_sound, check_word, starts_plain,
}
use sshpad.Config.Writer.RoundTrip.{parse_text-write_text}

abbrev pub env : Env
env = record { home = some (codes "/home/ada"); pw_dir = none }

abbrev pub grow : ℕ → Bool
grow n = true

abbrev forward_rule : ForwardRule
forward_rule = record {
  bind_addr = codes "127.0.0.1";
  bind_port = pos 8080;
  remote_host = codes "db.local";
  remote_port = pos 5432;
}

abbrev pub dynamic_rule : DynamicRule
dynamic_rule = record { bind_addr = codes "127.0.0.1"; bind_port = pos 1080 }

abbrev pub alive : SshOption
alive = record { key = codes "ServerAliveInterval"; value = codes "60" }

abbrev pub web : SshHost
web = record {
  name = codes "web";
  hostname = codes "web.example.org";
  user = codes "ada";
  port = pos 2222;
  identity_file = codes "/keys/web";
  proxy_jump = [];
  local_forward = [];
  remote_forward = [];
  dynamic_forward = dynamic_rule ∷ [];
  options = alive ∷ [];
}

word-IsValue : (v : Bytes) → check_keyword v ≡ true → EndsPlain v → length v < 900 → IsValue v
word-IsValue v h e short = record {
  bytes = (check_keyword_sound v h).bytes;
  starts = (check_keyword_sound v h).starts;
  ends = e;
  short = short;
}

dynamic_rule-IsWritable : IsWritableDynamic dynamic_rule
dynamic_rule-IsWritable = record {
  fits = record { addr_fits = omega arith };
  is_port = refl;
  addr_no_colon = ground arith;
  addr_no_blank = ground arith;
}

alive-IsWritable : IsWritableOption alive
unfolding check_keyword check_word starts_plain is_space directive_of kw_eq
alive-IsWritable = record {
  fits = record { key_fits = omega arith; value_fits = omega arith };
  keyword = check_keyword_sound alive.key refl;
  value_text = word-IsValue alive.value refl refl (omega arith);
  is_generic = refl;
  not_host = refl;
}

pub web-IsWritable : IsWritable env web
unfolding check_keyword check_word starts_plain is_space expand_tilde home_dir has_wildcard
    dynamic_text print_int find_char copy
web-IsWritable = record {
  name_value = word-IsValue web.name refl refl (omega arith);
  name_fits = omega arith;
  name_plain = refl;
  hostname_value = word-IsValue web.hostname refl refl (omega arith);
  hostname_fits = omega arith;
  user_value = inr (word-IsValue web.user refl refl (omega arith));
  user_fits = omega arith;
  is_port = refl;
  identity_value = inr (word-IsValue web.identity_file refl refl (omega arith));
  identity_plain = refl;
  proxy_value = inl refl;
  proxy_fits = omega arith;
  local_rules = tt;
  remote_rules = tt;
  dynamic_rules = (dynamic_rule-IsWritable, tt);
  option_rules = (alive-IsWritable, tt);
  local_count = omega arith;
  remote_count = omega arith;
  dynamic_count = omega arith;
  option_count = omega arith;
  local_values = tt;
  remote_values = tt;
  dynamic_values = (word-IsValue (dynamic_text dynamic_rule) refl refl (omega arith), tt);
}

parse_text-write_text_example : parse_text env grow (write_text (web ∷ [])) ≡ web ∷ []
parse_text-write_text_example =
    parse_text-write_text env grow (web ∷ []) (λ n. refl) (web-IsWritable, tt)

abbrev sample : Bytes
sample = codes "User ada\nHost web\n  Port 2222\nHost *\n  User root\nHost db\n"

parse_text-read_config_example :
    parse_text env grow sample ≡ read_config env (entries (fgets_all 1023 [] sample))
parse_text-read_config_example = parse_text-read_config env grow (λ n. refl) sample

parse_text-IsSound_example : All IsSound (parse_text env grow sample)
parse_text-IsSound_example = parse_text-IsSound env grow sample

web-Fits : Fits web
web-Fits = record {
  name_fits = omega arith;
  hostname_fits = omega arith;
  user_fits = omega arith;
  identity_fits = omega arith;
  proxy_fits = omega arith;
  local_count = omega arith;
  remote_count = omega arith;
  dynamic_count = omega arith;
  option_count = omega arith;
  local_fit = tt;
  remote_fit = tt;
  dynamic_fit = (record { addr_fits = omega arith }, tt);
  options_fit = (record { key_fits = omega arith; value_fits = omega arith }, tt);
}
