-- ===== src/Http/Config/Setup.antt =====
-- The answers of handle_config_setup of src/http_server.c.
use sshpad.Prelude.{List, ◌≡◌, ◌≢◌, Bytes, arith}
use sshpad.Json.{JsonC}
use sshpad.Manager.Setup.{setup}
use sshpad.Http.{App, Response, World, Sent, reply, with_json}
use sshpad.Http.Config.{handle_config_setup}

-- The setup is never answered with 502, the status that its code has for a network error: whatever keeps
-- the server from being reached is answered as a wrong password or as a failed setup.
pub handle_config_setup_status :
    (c : JsonC) (w : World) (app left : App) (body : Bytes) (r : Response) (sent : List Sent)
    → handle_config_setup c w app body ≡ reply left r sent
    → r.status ≢ 502
unfolding handle_config_setup with_json setup
handle_config_setup_status c w app left body r sent e bad = ground arith
