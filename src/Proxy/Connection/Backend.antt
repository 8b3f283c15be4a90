-- ===== src/Proxy/Connection/Backend.antt =====
-- A connection goes to the backend of the virtual host whose certificate it was shown.
use sshpad.Prelude.{ℕ, ◌%◌, Option, none, some, List, [], ◌∷◌, ◌≡◌, if◌then◌else◌, ℤ, negsuc, pos}
use sshpad.Proxy.Pipe.{Flow, State, pipe_data}
use sshpad.Proxy.Connection.{Peer, Call, connect, carry}

-- The ports that are connected, in order.
unfoldable pub connected : List Call → List ℕ
connected [] = []
connected (connect port ∷ cs) = port ∷ connected cs
connected (_ ∷ cs) = connected cs

-- What pipe_data carried.
unfoldable pub carried_by : List Call → Option (Flow × State)
carried_by [] = none
carried_by (carry f s ∷ cs) = some (f, s)
carried_by (_ ∷ cs) = carried_by cs

-- The one port that is asked for; a port below zero is not.
abbrev pub asked : ℤ → List ℕ
asked (pos port) = port ∷ []
asked (negsuc n) = []

-- What pipe_data carries between the client and the port, if that accepts the connection.
abbrev pub piped : Peer → ℤ → Option (Flow × State)
piped p (pos port) = if p.connects (port % 65536) then pipe_data p.rounds else none
piped p (negsuc n) = none

abbrev Goes : Peer → ℤ → Option (List Call) → Type 0
Goes p port none = Unit
Goes p port (some calls) = (connected calls ≡ asked port) × (carried_by calls ≡ piped p port)
