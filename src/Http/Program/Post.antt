-- ===== src/Http/Program/Post.antt =====
-- What every POST request keeps.
use sshpad.Prelude.{
  ◌≤◌, true, false, Option, none, some, List, [], ◌∷◌, ◌≡◌, refl, sym, subst, inl, inr, arith,
  Bytes, length, ltb, Bool-cases, Option-cases, str_eq, codes, ◌++◌,
}
use sshpad.Json.{JsonC}
use sshpad.Config.Host.{SshHost}
use sshpad.Config.Fields.{is_empty}
use sshpad.Config.Json.{ssh_hosts_from_json}
use sshpad.Tunnels.{start_tunnel}
use sshpad.Tunnels.Unique.{IsWf, start_tunnel-IsWf}
use sshpad.Sse.{max_sse_clients}
use sshpad.Http.{App, Response, World, Sent, reply, with_json}
use sshpad.Http.Tunnel.{
  find_host, handle_tunnel_start, handle_tunnel_stop, handle_terminal_open, handle_password,
  start_found,
}
use sshpad.Http.Config.{
  handle_config_setup, handle_config_unlock, handle_config_use_local, handle_config_change_password,
  handle_config_r2_settings_post, handle_config_r2_test,
}
use sshpad.Http.Host.{handle_host_save, handle_host_delete}
use sshpad.Http.Router.{route_post}
use sshpad.Http.Program.{names_fit}
use sshpad.Http.Program.Names.{
  IsHonest, names_fit-save_host, names_fit-delete_host, names_fit-unlock, names_fit-setup,
  names_fit-change_password, names_fit-set_r2_config, names_fit-use_local,
  names_fit-ssh_hosts_from_json, find_host-short,
}

-- At most one active tunnel for each host, in the 64 slots; names that fit their arrays; and at most 32
-- clients of the stream of events.
pub record IsSafe (app : App) : Type 0 where
  pub tunnels : IsWf app.tunnels
  pub names : names_fit app.manager.hosts ≡ true
  pub clients : length app.clients ≤ max_sse_clients

module _ (c : JsonC) (w : World) (app left : App) (body : Bytes) (r : Response) (sent : List Sent)
    (safe : IsSafe app) (honest : IsHonest w) where
  -- What the handlers other than the start of a tunnel keep.
  abbrev Keeps : Type 0
  Keeps =
      (left.tunnels ≡ app.tunnels)
      × (names_fit left.manager.hosts ≡ true)
      × (left.clients ≡ app.clients)

  tunnel_stop_keeps : handle_tunnel_stop c app body ≡ reply left r sent → Keeps
  unfolding handle_tunnel_stop with_json
  tunnel_stop_keeps e =
      let names : names_fit app.manager.hosts ≡ true = safe.names in
      (ground arith, ground arith, ground arith)

  terminal_open_keeps : handle_terminal_open c w app body ≡ reply left r sent → Keeps
  unfolding handle_terminal_open with_json
  terminal_open_keeps e =
      let names : names_fit app.manager.hosts ≡ true = safe.names in
      (ground arith, ground arith, ground arith)

  password_keeps : handle_password c app body ≡ reply left r sent → Keeps
  unfolding handle_password with_json
  password_keeps e =
      let names : names_fit app.manager.hosts ≡ true = safe.names in
      (ground arith, ground arith, ground arith)

  config_setup_keeps : handle_config_setup c w app body ≡ reply left r sent → Keeps
  unfolding handle_config_setup with_json
  config_setup_keeps e =
      let names : names_fit app.manager.hosts ≡ true = safe.names in
      (
        ground arith,
        grind (
          arith,
          names_fit-setup w.services app.manager w.answers safe.names honest.decoded
              honest.from_file,
        ),
        ground arith,
      )

  config_unlock_keeps : handle_config_unlock c w app body ≡ reply left r sent → Keeps
  unfolding handle_config_unlock with_json
  config_unlock_keeps e =
      let names : names_fit app.manager.hosts ≡ true = safe.names in
      (
        ground arith,
        grind (
          arith,
          names_fit-unlock w.services app.manager w.answers safe.names honest.decoded
              honest.from_file app.manager,
        ),
        ground arith,
      )

  host_delete_keeps : handle_host_delete c w app body ≡ reply left r sent → Keeps
  unfolding handle_host_delete with_json
  host_delete_keeps e =
      let names : names_fit app.manager.hosts ≡ true = safe.names in
      (
        ground arith,
        grind (
          arith,
          names_fit-delete_host w.services app.manager w.answers safe.names honest.decoded
              honest.from_file,
        ),
        ground arith,
      )

  config_use_local_keeps : handle_config_use_local c w app ≡ reply left r sent → Keeps
  unfolding handle_config_use_local with_json
  config_use_local_keeps e =
      let names : names_fit app.manager.hosts ≡ true = safe.names in
      (
        ground arith,
        ground (
          arith,
          names_fit-use_local w.services app.manager w.answers safe.names honest.decoded
              honest.from_file,
        ),
        ground arith,
      )

  config_change_password_keeps :
      handle_config_change_password c w app body ≡ reply left r sent → Keeps
  unfolding handle_config_change_password with_json
  config_change_password_keeps e =
      let names : names_fit app.manager.hosts ≡ true = safe.names in
      (
        ground arith,
        grind (
          arith,
          names_fit-change_password w.services app.manager w.answers safe.names honest.decoded
              honest.from_file,
        ),
        ground arith,
      )

  config_r2_settings_post_keeps :
      handle_config_r2_settings_post c w app body ≡ reply left r sent → Keeps
  unfolding handle_config_r2_settings_post with_json
  config_r2_settings_post_keeps e =
      let names : names_fit app.manager.hosts ≡ true = safe.names in
      (
        ground arith,
        grind (
          arith,
          names_fit-set_r2_config w.services app.manager w.answers safe.names honest.decoded
              honest.from_file,
        ),
        ground arith,
      )

  config_r2_test_keeps : handle_config_r2_test c w app body ≡ reply left r sent → Keeps
  unfolding handle_config_r2_test with_json
  config_r2_test_keeps e =
      let names : names_fit app.manager.hosts ≡ true = safe.names in
      (ground arith, ground arith, ground arith)

  host_save_keeps : handle_host_save c w app body ≡ reply left r sent → Keeps
  unfolding handle_host_save names_fit
  host_save_keeps e =
      elim (Option-cases (ssh_hosts_from_json c (codes "[" ++ (body ++ codes "]")))) [
        | inl failed ↦ (ground arith, ground (arith, safe.names), ground arith)
        | inr ([], parsed) ↦ (ground arith, ground (arith, safe.names), ground arith)
        | inr ((h ∷ hs), parsed) ↦
            let fit : names_fit (h ∷ hs) ≡ true =
              names_fit-ssh_hosts_from_json c _ (h ∷ hs) parsed in
            let short : ltb (length h.name) 128 ≡ true = ground arith in
            let names : names_fit app.manager.hosts ≡ true = safe.names in
            (
              ground arith,
              ground (
                arith,
                names_fit-save_host w.services app.manager w.answers safe.names honest.decoded
                    honest.from_file h short,
              ),
              ground arith,
            )
      ]

  same-IsWf : left.tunnels ≡ app.tunnels → IsWf left.tunnels
  same-IsWf e = subst IsWf (sym e) safe.tunnels

  start_found-IsWf :
      (name : Bytes) (o : Option SshHost)
      → find_host name app.manager.hosts ≡ o
      → start_found w app o ≡ reply left r sent
      → IsWf left.tunnels
  start_found-IsWf name none found e = same-IsWf (ground arith)
  start_found-IsWf name (some h) found e =
      let table : left.tunnels ≡ (start_tunnel h.name w.stderr_fd w.pid app.tunnels).table =
        ground arith in
      subst IsWf (sym table) (
        start_tunnel-IsWf h.name w.stderr_fd w.pid app.tunnels
          (find_host-short name app.manager.hosts h safe.names found) safe.tunnels)

  handle_tunnel_start-IsWf :
      handle_tunnel_start c w app body ≡ reply left r sent → IsWf left.tunnels
  unfolding handle_tunnel_start with_json
  handle_tunnel_start-IsWf e = elim (Bool-cases (is_empty body)) [
    | inl empty ↦ same-IsWf (ground arith)
    | inr filled ↦ elim (Option-cases (c.tokener_parse body)) [
      | inl invalid ↦ same-IsWf (ground arith)
      | inr (j, parsed) ↦ elim (Option-cases (c.object_get_ex j (codes "host"))) [
        | inl absent ↦ same-IsWf (ground arith)
        | inr (v, member) ↦ elim (Option-cases (c.get_string v)) [
          | inl null ↦ same-IsWf (ground arith)
          | inr (name, text) ↦
              start_found-IsWf name (find_host name app.manager.hosts) refl (ground arith)
        ]
      ]
    ]
  ]

  tunnel_start_names :
      handle_tunnel_start c w app body ≡ reply left r sent
      → (names_fit left.manager.hosts ≡ true) × (left.clients ≡ app.clients)
  unfolding handle_tunnel_start with_json
  tunnel_start_names e = (ground (arith, safe.names), ground arith)

  other_keeps :
      (url : Bytes)
      → str_eq url (codes "/api/tunnel/start") ≡ false
      → route_post c w app url body ≡ reply left r sent
      → Keeps
  unfolding route_post
  other_keeps url other e =
      let names : names_fit app.manager.hosts ≡ true = safe.names in
      ground (
        arith, tunnel_stop_keeps, terminal_open_keeps, password_keeps, config_setup_keeps,
        config_unlock_keeps, host_save_keeps, host_delete_keeps, config_use_local_keeps,
        config_change_password_keeps, config_r2_settings_post_keeps, config_r2_test_keeps,
      )

  keeps-IsSafe : Keeps → IsSafe left
  keeps-IsSafe keeps = record {
    tunnels = same-IsWf keeps.0;
    names = keeps.1;
    clients = subst (λ cs. length cs ≤ max_sse_clients) (sym keeps.2) safe.clients;
  }

  pub post-IsSafe : (url : Bytes) → route_post c w app url body ≡ reply left r sent → IsSafe left
  unfolding route_post
  post-IsSafe url e = elim (Bool-cases (str_eq url (codes "/api/tunnel/start"))) [
    | inr other ↦ keeps-IsSafe (other_keeps url other e)
    | inl start ↦
        let begun : handle_tunnel_start c w app body ≡ reply left r sent = ground arith in
        record {
          tunnels = handle_tunnel_start-IsWf begun;
          names = (tunnel_start_names begun).0;
          clients =
              subst (λ cs. length cs ≤ max_sse_clients) (sym (tunnel_start_names begun).1)
                safe.clients;
        }
  ]
