-- ===== src/Ports.antt =====
-- src/port_finder.c: find_free_port. What the calls of the system answer is an argument.
use sshpad.Prelude.{ℕ, Bool, Option, none, some, List, [], ◌∷◌, if◌then◌else◌, not}

-- The descriptor that socket gives, whether bind succeeds, and the port (ntohs of sin_port) that
-- getsockname gives.
pub record Network : Type 0 where
  pub socket : Option ℕ
  pub binds : Bool
  pub port : Option ℕ

abbrev pub named_port : ℕ → Option ℕ → Option ℕ × List ℕ
named_port fd none = (none, fd ∷ [])
named_port fd (some port) = (some port, fd ∷ [])

abbrev pub port_on : Network → Option ℕ → Option ℕ × List ℕ
port_on net none = (none, [])
port_on net (some fd) = if not net.binds then (none, fd ∷ []) else named_port fd net.port

-- The port, none for -1, and the descriptors that were closed.
unfoldable pub find_free_port : Network → Option ℕ × List ℕ
find_free_port net = port_on net net.socket
