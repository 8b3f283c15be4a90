-- ===== src/Http/Router/Rejected.antt =====
-- Requests that src/http_server.c rejects.
use sshpad.Prelude.{ℕ, Bool, not, ◌&&◌, ◌||◌, ◌==◌}

-- Bad Request, Forbidden and Not Found; and Unauthorized, but for the answer of the setup.
unfoldable pub is_rejection : Bool → ℕ → Bool
is_rejection is_setup status =
    status == 400 || status == 403 || status == 404 || (not is_setup && status == 401)
