-- ===== src/Http.antt =====
-- src/http_server.c and src/app_context.h: the requests of the browser. The program is the state of the
-- components that a request may change; what the outside answers to one request is an argument, and
-- what is sent out, the answer included, is the result. Each child file has a group of handlers.
pub mod Tunnel
pub mod Config
pub mod Host
pub mod Static
pub mod Router
pub mod Program
use sshpad.Prelude.{
  ℕ, Bool, true, false, Option, none, some, List, [], ◌∷◌, map, ℤ, Bytes, codes, if◌then◌else◌,
}
use sshpad.Json.{JsonC}
use sshpad.Config.Fields.{is_empty}
use sshpad.R2.{R2Config}
use sshpad.Manager.{Manager, Effect, Answers, Services, Result}
use sshpad.Tunnels.{Table}
use sshpad.Askpass.{Requests}
use sshpad.Sse.{Clients}

-- app_context_t
pub record App : Type 0 where
  pub manager : Manager
  pub tunnels : Table
  pub requests : Requests
  pub clients : Clients
  pub port : ℤ

-- Of the headers, the content type.
pub record Response : Type 0 where
  pub status : ℕ
  pub content_type : Bytes
  pub body : Bytes

-- What fopen, malloc and fread make of a file.
pub data File : Type 0 where
  no_file no_memory read_error : File
  content : Bytes → File

-- What the outside answers while one request is handled: to the config manager; the pipe and the
-- process of a new tunnel; the terminal, by the host; the pipe and the response of an event stream;
-- the content of r2.json; whether the R2 server accepts the test; the files and the place of the
-- browser part.
pub record World : Type 0 where
  pub services : Services
  pub answers : Answers
  pub stderr_fd : Option ℕ
  pub pid : Option ℕ
  pub launch_terminal : Bytes → Option ℕ
  pub sse_pipe : Option (ℕ × ℕ)
  pub sse_made : Option Bool
  pub settings_file : Option Bytes
  pub accepts : R2Config → Bool
  pub ui_dir : Bytes
  pub open_file : Bytes → File

-- What a request sends out beside its answer: what the config manager sends, SIGTERM to a process
-- group, the notice that a tunnel starts, and an event with its data.
pub data Sent : Type 0 where
  manager_effect : Effect → Sent
  terminate : ℕ → Sent
  starting_notice : Bytes → Sent
  event : Bytes → Bytes → Sent

-- How the handling of a request ends: with an answer; in a stream of events, which sse.c may refuse; in
-- the wait for the password of a slot; or in strcmp of a null pointer, which C leaves undefined.
pub data Outcome : Type 0 where
  reply : App → Response → List Sent → Outcome
  stream : App → Bool → Outcome
  wait : App → ℕ → List Sent → Outcome
  undefined : Outcome

abbrev pub json_response : ℕ → Bytes → Response
json_response status text = record {
  status = status;
  content_type = codes "application/json";
  body = text;
}

-- An answer that changes nothing.
abbrev pub refuse : App → ℕ → Bytes → Outcome
refuse app status text = reply app (json_response status text) []

abbrev pub ok_text : Bytes
ok_text = codes "{\"ok\":true}"

-- The state and the effects that a call of the config manager leaves.
abbrev pub managed : App → Result → ℕ → Bytes → Outcome
managed app r status text =
    reply (record app { manager = r.manager }) (json_response status text)
      (map manager_effect r.effects)

module _ (c : JsonC) where
  open c use {Json, tokener_parse}

  abbrev parsed : App → Option Json → (Json → Outcome) → Outcome
  parsed app none handle = refuse app 400 (codes "{\"error\":\"invalid JSON\"}")
  parsed app (some j) handle = handle j

  -- The checks that most handlers begin with.
  unfoldable pub with_json : App → Bytes → (Json → Outcome) → Outcome
  with_json app body handle =
      if is_empty body
      then refuse app 400 (codes "{\"error\":\"empty body\"}")
      else parsed app (tokener_parse body) handle
