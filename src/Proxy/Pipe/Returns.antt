-- ===== src/Proxy/Pipe/Returns.antt =====
-- pipe_data goes through its rounds when its writes come to their ends.
use sshpad.Prelude.{
  ℕ, ◌≤◌, Bool, true, false, ◌||◌, arith, Option, none, some, List, [], ◌∷◌, ◌≡◌, refl, ◌∙◌, ap,
  Bytes, All, length, map,
}
use sshpad.Output
use sshpad.Output.{write_all, progress, write_all_returns}
use sshpad.Proxy.Pipe.{
  ssl_answer, ssl_write_all, Flow, State, going, finished, broken, push, with_up, with_down,
  from_client, from_backend, Round, pending, no_event, hung_up, events, client_event, then_backend,
  backend_event, run_round, run_rounds, empty_flow, pipe_data,
}

-- The writes of a round: as many bring them on as there are bytes.
abbrev EnoughUp : Option Bytes → List Output.Answer → Type 0
EnoughUp none answers = Unit
EnoughUp (some buf) answers = length buf ≤ progress answers

abbrev EnoughDown : Option Bytes → List ℕ → Type 0
EnoughDown none answers = Unit
EnoughDown (some buf) answers = length buf ≤ progress (map ssl_answer answers)

abbrev ClientEnough : Option (Option Bytes × List Output.Answer) → Type 0
ClientEnough none = Unit
ClientEnough (some (got, answers)) = EnoughUp got answers

abbrev BackendEnough : Option (Option Bytes × List ℕ) → Type 0
BackendEnough none = Unit
BackendEnough (some (got, answers)) = EnoughDown got answers

abbrev pub Enough : Round → Type 0
Enough (pending got answers) = EnoughUp got answers
Enough no_event = Unit
Enough hung_up = Unit
Enough (events client backend) = ClientEnough client × BackendEnough backend

-- A round that has the loop left: nothing could be read, no event came in time, or a side hung up.
abbrev pub is_eof : Option Bytes → Bool
is_eof none = true
is_eof (some buf) = false

abbrev client_eof : Option (Option Bytes × List Output.Answer) → Bool
client_eof none = false
client_eof (some (got, answers)) = is_eof got

abbrev backend_eof : Option (Option Bytes × List ℕ) → Bool
backend_eof none = false
backend_eof (some (got, answers)) = is_eof got

abbrev pub is_last : Round → Bool
is_last (pending got answers) = is_eof got
is_last no_event = true
is_last hung_up = true
is_last (events client backend) = client_eof client || backend_eof backend

unfoldable pub has_last : List Round → Bool
has_last [] = false
has_last (r ∷ rs) = is_last r || has_last rs

abbrev pub is_left : State → Bool
is_left going = false
is_left finished = true
is_left broken = true

-- The step ends, and leaves the loop if it is a last one.
abbrev pub Returns : Bool → Option (Flow × State) → Type 0
Returns last o = (f : Flow) × (s : State) × (o ≡ some (f, s)) × (last ≡ true → is_left s ≡ true)

from_client-Returns :
    (got : Option Bytes) (answers : List Output.Answer) (f : Flow)
    → EnoughUp got answers
    → Returns (is_eof got) (from_client got answers f)
unfolding from_client push
from_client-Returns none answers f h = (f, finished, refl, λ e. refl)
from_client-Returns (some buf) answers f h =
    let (r, e) = write_all_returns answers buf h in
    (_, _, ap (λ o. with_up f (push f.up buf o)) e, λ last. absurd (cc))

from_backend-Returns :
    (got : Option Bytes) (answers : List ℕ) (f : Flow)
    → EnoughDown got answers
    → Returns (is_eof got) (from_backend got answers f)
unfolding from_backend push ssl_write_all
from_backend-Returns none answers f h = (f, finished, refl, λ e. refl)
from_backend-Returns (some buf) answers f h =
    let (r, e) = write_all_returns (map ssl_answer answers) buf h in
    (_, _, ap (λ o. with_down f (push f.down buf o)) e, λ last. absurd (cc))

client_event-Returns :
    (ev : Option (Option Bytes × List Output.Answer)) (f : Flow)
    → ClientEnough ev
    → Returns (client_eof ev) (client_event ev f)
client_event-Returns none f h = (f, going, refl, λ last. absurd (cc))
client_event-Returns (some (got, answers)) f h = from_client-Returns got answers f h

backend_event-Returns :
    (ev : Option (Option Bytes × List ℕ)) (f : Flow)
    → BackendEnough ev
    → Returns (backend_eof ev) (backend_event ev f)
backend_event-Returns none f h = (f, going, refl, λ last. absurd (cc))
backend_event-Returns (some (got, answers)) f h = from_backend-Returns got answers f h

-- The second half of a round, after a first half that ended.
then_backend-Returns :
    (ev : Option (Option Bytes × List ℕ)) (f : Flow) (s : State) (last : Bool)
    → BackendEnough ev
    → (last ≡ true → is_left s ≡ true)
    → Returns (last || backend_eof ev) (then_backend ev (some (f, s)))
then_backend-Returns ev f going true h l = absurd (ground (arith, l refl))
then_backend-Returns ev f going false h l = backend_event-Returns ev f h
then_backend-Returns ev f finished last h l = (f, finished, refl, λ e. refl)
then_backend-Returns ev f broken last h l = (f, broken, refl, λ e. refl)

run_round-Returns : (r : Round) (f : Flow) → Enough r → Returns (is_last r) (run_round r f)
unfolding run_round
run_round-Returns (pending got answers) f h = from_client-Returns got answers f h
run_round-Returns no_event f h = (f, finished, refl, λ e. refl)
run_round-Returns hung_up f h = (f, finished, refl, λ e. refl)
run_round-Returns (events client backend) f h =
    let (a, s, e, l) = client_event-Returns client f h.0 in
    let (b, t, e', l') = then_backend-Returns backend a s (client_eof client) h.1 l in
    (b, t, ap (then_backend backend) e ∙ e', l')

-- A loop that was left is not entered again.
run_rounds_left :
    (rs : List Round) (f : Flow) (s : State)
    → is_left s ≡ true
    → run_rounds rs (some (f, s)) ≡ some (f, s)
unfolding run_rounds
run_rounds_left [] f s left = refl
run_rounds_left (r ∷ rs) f going left = absurd (cc)
run_rounds_left (r ∷ rs) f finished left = refl
run_rounds_left (r ∷ rs) f broken left = refl

run_rounds-Returns :
    (rs : List Round) (f : Flow) (s : State) (last : Bool)
    → All Enough rs
    → (last ≡ true → is_left s ≡ true)
    → Returns (last || has_last rs) (run_rounds rs (some (f, s)))
unfolding run_rounds has_last
run_rounds-Returns rs f finished last h l =
    (f, finished, run_rounds_left rs f finished refl, λ e. refl)
run_rounds-Returns rs f broken last h l = (f, broken, run_rounds_left rs f broken refl, λ e. refl)
run_rounds-Returns rs f going true h l = absurd (ground (arith, l refl))
run_rounds-Returns [] f going false h l = (f, going, refl, λ e. absurd (cc))
run_rounds-Returns (r ∷ rs) f going false h l =
    let (b, t, e, l') = run_round-Returns r f h.0 in
    let (d, u, e', l'') = run_rounds-Returns rs b t (is_last r) h.1 l' in
    (d, u, ap (run_rounds rs) e ∙ e', l'')

-- pipe_data leaves its loop, and does not wait for ever in a write.
pub pipe_data-Returns : (rs : List Round) → All Enough rs → Returns (has_last rs) (pipe_data rs)
unfolding pipe_data
pipe_data-Returns rs h = run_rounds-Returns rs empty_flow going false h (λ e. absurd (cc))
