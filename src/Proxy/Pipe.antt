-- ===== src/Proxy/Pipe.antt =====
-- pipe_data of src/local_proxy.c: the loop that carries bytes between the client and the backend. What
-- poll and the reads and writes answer in each round is an argument.
pub mod Order
pub mod Returns
use sshpad.Prelude.{
  ℕ, zero, suc, Bool, true, false, Option, none, some, List, [], ◌∷◌, ◌++◌, Bytes, map,
}
use sshpad.Output
use sshpad.Output.{wrote, failed, write_all}

-- What SSL_write answers: a number that is not positive is a failure.
abbrev pub ssl_answer : ℕ → Output.Answer
ssl_answer zero = failed
ssl_answer (suc n) = wrote (suc n)

unfoldable pub ssl_write_all : List ℕ → Bytes → Option (Bytes × Bool)
unfolding write_all
ssl_write_all answers buf = write_all (map ssl_answer answers) buf

-- One direction: what was read so far, and what was written.
pub record Channel : Type 0 where
  pub received : Bytes
  pub sent : Bytes

pub record Flow : Type 0 where
  pub up : Channel
  pub down : Channel

-- `going` is still in the loop; `finished` and `broken` have left it, the second one because a write failed.
pub data State : Type 0 where
  going finished broken : State

abbrev pub after_write : Bool → State
after_write true = going
after_write false = broken

-- The bytes of a read, and how their write ended; none while it still waits.
unfoldable pub push : Channel → Bytes → Option (Bytes × Bool) → Option (Channel × State)
push ch buf none = none
push ch buf (some (out, done)) =
    some (record { received = ch.received ++ buf; sent = ch.sent ++ out }, after_write done)

abbrev pub with_up : Flow → Option (Channel × State) → Option (Flow × State)
with_up f none = none
with_up f (some (ch, s)) = some (record f { up = ch }, s)

abbrev pub with_down : Flow → Option (Channel × State) → Option (Flow × State)
with_down f none = none
with_down f (some (ch, s)) = some (record f { down = ch }, s)

-- SSL_read, none if it gives no bytes, and write_all to the backend.
unfoldable pub from_client : Option Bytes → List Output.Answer → Flow → Option (Flow × State)
unfolding push write_all
from_client none answers f = some (f, finished)
from_client (some buf) answers f = with_up f (push f.up buf (write_all answers buf))

-- read, and ssl_write_all to the client.
unfoldable pub from_backend : Option Bytes → List ℕ → Flow → Option (Flow × State)
unfolding push ssl_write_all
from_backend none answers f = some (f, finished)
from_backend (some buf) answers f = with_down f (push f.down buf (ssl_write_all answers buf))

-- A round of the loop: bytes that OpenSSL holds; a poll without an event; a poll with an error on
-- a side; a poll after which each side may have bytes.
pub data Round : Type 0 where
  pending : Option Bytes → List Output.Answer → Round
  no_event hung_up : Round
  events : Option (Option Bytes × List Output.Answer) → Option (Option Bytes × List ℕ) → Round

abbrev pub client_event : Option (Option Bytes × List Output.Answer) → Flow → Option (Flow × State)
client_event none f = some (f, going)
client_event (some (got, answers)) f = from_client got answers f

abbrev pub backend_event : Option (Option Bytes × List ℕ) → Flow → Option (Flow × State)
backend_event none f = some (f, going)
backend_event (some (got, answers)) f = from_backend got answers f

abbrev pub then_backend :
    Option (Option Bytes × List ℕ) → Option (Flow × State) → Option (Flow × State)
then_backend ev none = none
then_backend ev (some (f, going)) = backend_event ev f
then_backend ev (some (f, finished)) = some (f, finished)
then_backend ev (some (f, broken)) = some (f, broken)

unfoldable pub run_round : Round → Flow → Option (Flow × State)
unfolding from_client from_backend
run_round (pending got answers) f = from_client got answers f
run_round no_event f = some (f, finished)
run_round hung_up f = some (f, finished)
run_round (events client backend) f = then_backend backend (client_event client f)

-- The loop over these rounds: with the state `going` at their end it is in the loop still.
unfoldable pub run_rounds : List Round → Option (Flow × State) → Option (Flow × State)
unfolding run_round
run_rounds [] o = o
run_rounds (r ∷ rs) none = none
run_rounds (r ∷ rs) (some (f, going)) = run_rounds rs (run_round r f)
run_rounds (r ∷ rs) (some (f, finished)) = some (f, finished)
run_rounds (r ∷ rs) (some (f, broken)) = some (f, broken)

abbrev pub empty_flow : Flow
empty_flow = record {
  up = record { received = []; sent = [] };
  down = record { received = []; sent = [] };
}

unfoldable pub pipe_data : List Round → Option (Flow × State)
unfolding run_rounds
pipe_data rounds = run_rounds rounds (some (empty_flow, going))
