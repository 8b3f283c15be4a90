-- ===== src/Http/Router/Locked.antt =====
-- src/http_server.c while the configuration is not open: before the setup, and before the password.
use sshpad.Prelude.{Bool, true, false, ◌||◌, List, ◌≡◌, Bytes, arith, codes, str_eq}
use sshpad.Json.{JsonC}
use sshpad.Manager.{Mode, first_run, locked, cloud, local, change_password}
use sshpad.Manager.Settings.{set_r2_config}
use sshpad.Http.{App, Response, World, Sent, reply, with_json}
use sshpad.Http.Tunnel.{
  handle_tunnel_start, handle_tunnel_stop, handle_terminal_open, handle_password,
}
use sshpad.Http.Config.{
  handle_config_change_password, handle_config_r2_settings_post, handle_config_r2_test,
}
use sshpad.Http.Host.{handle_host_save, handle_host_delete}
use sshpad.Http.Router.{route_post}

unfoldable pub is_shut : Mode → Bool
is_shut first_run = true
is_shut locked = true
is_shut cloud = false
is_shut local = false

-- The three addresses that open a configuration.
unfoldable pub opens : Bytes → Bool
opens url =
    str_eq url (codes "/api/config/setup")
    || str_eq url (codes "/api/config/unlock")
    || str_eq url (codes "/api/config/use-local")

module _ (c : JsonC) (w : World) (app left : App) (body : Bytes) (r : Response) (sent : List Sent)
    (shut : is_shut app.manager.mode ≡ true) where
  tunnel_start_shut :
      handle_tunnel_start c w app body ≡ reply left r sent
      → (left.manager.hosts ≡ app.manager.hosts) × (left.manager.mode ≡ app.manager.mode)
  unfolding handle_tunnel_start with_json is_shut
  tunnel_start_shut e = (ground arith, ground arith)

  tunnel_stop_shut :
      handle_tunnel_stop c app body ≡ reply left r sent
      → (left.manager.hosts ≡ app.manager.hosts) × (left.manager.mode ≡ app.manager.mode)
  unfolding handle_tunnel_stop with_json is_shut
  tunnel_stop_shut e = (ground arith, ground arith)

  terminal_open_shut :
      handle_terminal_open c w app body ≡ reply left r sent
      → (left.manager.hosts ≡ app.manager.hosts) × (left.manager.mode ≡ app.manager.mode)
  unfolding handle_terminal_open with_json is_shut
  terminal_open_shut e = (ground arith, ground arith)

  password_shut :
      handle_password c app body ≡ reply left r sent
      → (left.manager.hosts ≡ app.manager.hosts) × (left.manager.mode ≡ app.manager.mode)
  unfolding handle_password with_json is_shut
  password_shut e = (ground arith, ground arith)

  host_save_shut :
      handle_host_save c w app body ≡ reply left r sent
      → (left.manager.hosts ≡ app.manager.hosts) × (left.manager.mode ≡ app.manager.mode)
  unfolding handle_host_save with_json is_shut
  host_save_shut e = (ground arith, ground arith)

  host_delete_shut :
      handle_host_delete c w app body ≡ reply left r sent
      → (left.manager.hosts ≡ app.manager.hosts) × (left.manager.mode ≡ app.manager.mode)
  unfolding handle_host_delete with_json is_shut
  host_delete_shut e = (ground arith, ground arith)

  config_change_password_shut :
      handle_config_change_password c w app body ≡ reply left r sent
      → (left.manager.hosts ≡ app.manager.hosts) × (left.manager.mode ≡ app.manager.mode)
  unfolding handle_config_change_password with_json is_shut change_password
  config_change_password_shut e = (ground arith, ground arith)

  config_r2_settings_post_shut :
      handle_config_r2_settings_post c w app body ≡ reply left r sent
      → (left.manager.hosts ≡ app.manager.hosts) × (left.manager.mode ≡ app.manager.mode)
  unfolding handle_config_r2_settings_post with_json is_shut set_r2_config
  config_r2_settings_post_shut e = (ground arith, ground arith)

  config_r2_test_shut :
      handle_config_r2_test c w app body ≡ reply left r sent
      → (left.manager.hosts ≡ app.manager.hosts) × (left.manager.mode ≡ app.manager.mode)
  unfolding handle_config_r2_test with_json is_shut
  config_r2_test_shut e = (ground arith, ground arith)

  -- While the mode is FIRST_RUN or LOCKED, no POST request changes the mode or the hosts of the config
  -- manager, but one to the addresses of the setup, of the unlocking and of the local mode.
  pub route_post_shut :
      (url : Bytes)
      → opens url ≡ false
      → route_post c w app url body ≡ reply left r sent
      → (left.manager.hosts ≡ app.manager.hosts) × (left.manager.mode ≡ app.manager.mode)
  unfolding route_post opens
  route_post_shut url other e = ground (
    arith, tunnel_start_shut, tunnel_stop_shut, terminal_open_shut, password_shut, host_save_shut,
    host_delete_shut, config_change_password_shut, config_r2_settings_post_shut,
    config_r2_test_shut,
  )
