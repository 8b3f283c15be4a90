-- ===== src/Http/Tunnel/Sequence.antt =====
-- Two requests to src/http_server.c, one after the other: a tunnel is started and stopped, and a
-- password is asked for and given.
use sshpad.Prelude.{
  ℕ, ◌<◌, true, false, Option, none, some, List, [], ◌∷◌, ◌≡◌, refl, ◌≢◌, ap, sym, ◌∙◌, inl, inr,
  arith, Bytes, length, codes, str_eq, str_eq_iff, some-inj, Bool-cases, Option-cases,
}
use sshpad.Json.{JsonC}
use sshpad.Config.Host.{SshHost}
use sshpad.Config.Fields.{is_empty}
use sshpad.Tunnels.{Started, start_tunnel, stop_tunnel}
use sshpad.Tunnels.Stop.{start_tunnel-stop_tunnel}
use sshpad.Askpass.{begin_wait, end_wait, find_slot}
use sshpad.Askpass.Handover.{deliver-end_wait}
use sshpad.Http.{
  App, Response, World, Sent, terminate, reply, wait, json_response, ok_text, with_json,
}
use sshpad.Http.Tunnel.{
  plain_text, find_host, started, handle_tunnel_start, handle_tunnel_stop, handle_password,
  handle_internal_askpass, end_internal_askpass, start_found,
}

-- The body is an object whose member under the key is the text.
pub record HasText (c : JsonC) (body : Bytes) (key text : Bytes) : Type 0 where
  pub object : c.Json
  pub value : c.Json
  pub parsed : c.tokener_parse body ≡ some object
  pub member : c.object_get_ex object key ≡ some value
  pub is_text : c.get_string value ≡ some text

find_host_name :
    (name : Bytes) (hosts : List SshHost) (h : SshHost)
    → find_host name hosts ≡ some h
    → h.name ≡ name
unfolding find_host
find_host_name name [] h e = cc
find_host_name name (x ∷ hosts) h e = elim (Bool-cases (str_eq x.name name)) [
  | inl same ↦
      (let at : x ≡ h = ground arith in
        ap (λ (k : SshHost). k.name) (sym at) ∙ (str_eq_iff x.name name).0 same)
  | inr other ↦ find_host_name name hosts h (ground arith)
]

started_ok :
    (app left : App) (name : Bytes) (s : Started) (r : Response) (sent : List Sent)
    → started app name s ≡ reply left r sent
    → r.status ≡ 200
    → (s.succeeded ≡ true) × (left.tunnels ≡ s.table)
started_ok app left name s r sent e ok = (ground arith, ground arith)

start_found_stop :
    (w : World) (app left : App) (name : Bytes) (o : Option SshHost) (p : ℕ) (r : Response)
    (sent : List Sent)
    → find_host name app.manager.hosts ≡ o
    → length name < 128
    → w.pid ≡ some p
    → start_found w app o ≡ reply left r sent
    → r.status ≡ 200
    → stop_tunnel name left.tunnels ≡ some p
start_found_stop w app left name none p r sent found short forked e ok = absurd (ground arith)
start_found_stop w app left name (some h) p r sent found short forked e ok =
    let same : h.name ≡ name = find_host_name name app.manager.hosts h found in
    let (good, table) =
      started_ok app left name (start_tunnel name w.stderr_fd (some p) app.tunnels) r sent
        (ap (λ n. started app n (start_tunnel n w.stderr_fd (some p) app.tunnels)) (sym same)
          ∙ ap (λ q. started app h.name (start_tunnel h.name w.stderr_fd q app.tunnels))
              (sym forked)
          ∙ e)
        ok in
    ap (stop_tunnel name) table ∙ start_tunnel-stop_tunnel name w.stderr_fd p app.tunnels short good

-- After a request to start the tunnel of a host (of less than 128 bytes) that is answered with 200, the
-- same body sent to stop it is answered with 200 and ends the process group that was started.
pub start-stop :
    (c : JsonC) (w : World) (app left : App) (body name : Bytes) (p : ℕ) (r : Response)
    (sent : List Sent)
    → is_empty body ≡ false
    → HasText c body (codes "host") name
    → length name < 128
    → w.pid ≡ some p
    → handle_tunnel_start c w app body ≡ reply left r sent
    → r.status ≡ 200
    → handle_tunnel_stop c left body ≡ reply left (json_response 200 ok_text) (terminate p ∷ [])
unfolding handle_tunnel_start handle_tunnel_stop with_json
start-stop c w app left body name p r sent filled has short forked e ok =
    let begun : start_found w app (find_host name app.manager.hosts) ≡ reply left r sent =
      ground arith in
    let runs : stop_tunnel name left.tunnels ≡ some p =
      start_found_stop w app left name _ p r sent refl short forked begun ok in
    rw (filled, has.parsed, has.member, has.is_text, runs) refl

-- A request of the askpass script that waits, with an id (of less than 64 bytes) that no other request
-- uses, is answered with the password, not empty and of less than 512 bytes, that is then posted for
-- the id: the post is answered with 200, and the body of the script's answer is the password.
pub password-askpass :
    (c : JsonC) (app left : App) (body id password : Bytes) (prompt : Option Bytes) (slot : ℕ)
    (sent : List Sent)
    → is_empty body ≡ false
    → HasText c body (codes "requestId") id
    → HasText c body (codes "password") password
    → length id < 64
    → password ≢ []
    → length password < 512
    → find_slot id app.requests ≡ none
    → handle_internal_askpass c app (some id) prompt ≡ wait left slot sent
    → (mid : App) × (handle_password c left body ≡ reply mid (json_response 200 ok_text) [])
      × ((after : App) × (end_internal_askpass mid slot ≡ reply after (plain_text password) []))
unfolding handle_internal_askpass handle_password end_internal_askpass with_json
password-askpass c app left body id password prompt slot sent filled has_id has_password short ne
      fits fresh e =
    elim (Option-cases (begin_wait id app.requests)) [
      | inl full ↦ absurd (ground arith)
      | inr ((rs, i), begun) ↦
          let at : i ≡ slot = ground arith in
          let table : left.requests ≡ rs = ground arith in
          let second : c.object_get_ex has_id.object (codes "password") ≡ some has_password.value =
            ap (λ o. c.object_get_ex o (codes "password"))
              (some-inj (sym has_id.parsed ∙ has_password.parsed))
            ∙ has_password.member in
          let (rs'', stored, answered) =
            deliver-end_wait id password app.requests rs slot short ne fits fresh
              (rw (sym at) begun) in
          (
            record left { requests = rs'' },
            rw
                (
                  filled, has_id.parsed, has_id.member, second, has_id.is_text,
                  has_password.is_text, table, stored,
                )
                refl,
            (record left { requests = (end_wait slot rs'').1 }, rw answered refl),
          )
    ]
