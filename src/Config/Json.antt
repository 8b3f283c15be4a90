-- ===== src/Config/Json.antt =====
-- ssh_hosts_to_json and ssh_hosts_from_json of src/config_parser.c. A failed allocation is not modelled.
pub mod RoundTrip
use sshpad.Prelude.{
  ℕ, Bool, true, false, Option, none, some, List, [], ◌∷◌, map, ℤ, pos, is_zero, Bytes, codes, take,
  if◌then◌else◌, ◌>>=◌,
}
use sshpad.Json.{JsonC, plain}
use sshpad.Config.Host.{ForwardRule, DynamicRule, SshHost, zero_host, copy, max_forwards}

module _ (c : JsonC) where
  open c use {
    Json, is_null, new_string, new_int, new_array, new_object, object_get_ex, elements, get_string,
    get_int, to_json_string, tokener_parse, printed_null,
  }

  unfoldable pub forward_json : ForwardRule → Json
  forward_json r = new_object (
      (codes "bindAddr", new_string r.bind_addr)
      ∷ (codes "bindPort", new_int r.bind_port)
      ∷ (codes "remoteHost", new_string r.remote_host)
      ∷ (codes "remotePort", new_int r.remote_port)
      ∷ [])

  unfoldable pub dynamic_json : DynamicRule → Json
  dynamic_json r =
      new_object
        ((codes "bindAddr", new_string r.bind_addr) ∷ (codes "bindPort", new_int r.bind_port) ∷ [])

  -- `port ? port : 22`
  abbrev pub port_or_default : ℤ → ℤ
  port_or_default p = if is_zero p then pos 22 else p

  unfoldable pub host_json : SshHost → Json
  host_json h = new_object (
      (codes "name", new_string h.name)
      ∷ (codes "hostname", new_string h.hostname)
      ∷ (codes "user", new_string h.user)
      ∷ (codes "port", new_int (port_or_default h.port))
      ∷ (codes "identityFile", new_string h.identity_file)
      ∷ (codes "proxyJump", new_string h.proxy_jump)
      ∷ (codes "localForward", new_array (map forward_json h.local_forward))
      ∷ (codes "remoteForward", new_array (map forward_json h.remote_forward))
      ∷ (codes "dynamicForward", new_array (map dynamic_json h.dynamic_forward))
      ∷ [])

  unfoldable pub ssh_hosts_to_json : List SshHost → Bytes
  ssh_hosts_to_json hosts = to_json_string plain (new_array (map host_json hosts))

  -- What `%s` is given.
  abbrev pub printed : Option Bytes → Bytes
  printed (some s) = s
  printed none = printed_null

  abbrev text_or_empty : ℕ → Option Json → Bytes
  text_or_empty size none = []
  text_or_empty size (some v) = copy size (printed (get_string v))

  -- A text of a struct that was zeroed, from the member under the key.
  unfoldable pub text_member : ℕ → Json → Bytes → Bytes
  text_member size j key = text_or_empty size (object_get_ex j key)

  abbrev int_or_zero : Option Json → ℤ
  int_or_zero none = pos 0
  int_or_zero (some v) = get_int v

  unfoldable pub int_member : Json → Bytes → ℤ
  int_member j key = int_or_zero (object_get_ex j key)

  unfoldable pub forward_of_json : Json → ForwardRule
  forward_of_json j = record {
    bind_addr = text_member 64 j (codes "bindAddr");
    bind_port = int_member j (codes "bindPort");
    remote_host = text_member 256 j (codes "remoteHost");
    remote_port = int_member j (codes "remotePort");
  }

  unfoldable pub dynamic_of_json : Json → DynamicRule
  dynamic_of_json j = record {
    bind_addr = text_member 64 j (codes "bindAddr");
    bind_port = int_member j (codes "bindPort");
  }

  abbrev items : Option Json → Option (List Json)
  items none = none
  items (some v) = elements v

  abbrev rules {ℓ} : {A : Type ℓ} → (Json → A) → Option (List Json) → List A
  rules read none = []
  rules read (some js) = map read (take max_forwards js)

  -- The rules of an array member, as many as there is room for.
  unfoldable pub rules_member {ℓ} : {A : Type ℓ} → (Json → A) → Json → Bytes → List A
  rules_member read j key = rules read (items (object_get_ex j key))

  -- An element that is null leaves its host as it was allocated, zeroed.
  unfoldable pub host_of_json : Json → SshHost
  host_of_json j = if is_null j then zero_host else record {
    name = text_member 128 j (codes "name");
    hostname = text_member 256 j (codes "hostname");
    user = text_member 64 j (codes "user");
    port = int_member j (codes "port");
    identity_file = text_member 512 j (codes "identityFile");
    proxy_jump = text_member 128 j (codes "proxyJump");
    local_forward = rules_member forward_of_json j (codes "localForward");
    remote_forward = rules_member forward_of_json j (codes "remoteForward");
    dynamic_forward = rules_member dynamic_of_json j (codes "dynamicForward");
    options = [];
  }

  -- `none` is the result NULL.
  unfoldable pub ssh_hosts_from_json : Bytes → Option (List SshHost)
  ssh_hosts_from_json text = do j ← tokener_parse text; js ← elements j; some (map host_of_json js)
