-- ===== src/Proxy/Pipe/Order.antt =====
-- The bytes of each direction arrive in order, once and unchanged.
use sshpad.Prelude.{
  Bool, true, false, Option, none, some, List, [], ◌∷◌, ◌++◌, ◌≡◌, refl, ap₂, subst, ◌∙◌, Bytes, ℕ,
  map, append_assoc, append-nil,
}
use sshpad.Output
use sshpad.Output.{write_all, write_all_lem}
use sshpad.Proxy.Pipe.{
  ssl_answer, ssl_write_all, Channel, Flow, State, going, finished, broken, after_write, push,
  with_up, with_down, from_client, from_backend, Round, pending, no_event, hung_up, events,
  client_event, then_backend, run_round, run_rounds, empty_flow, pipe_data,
}

abbrev pub is_broken : State → Bool
is_broken going = false
is_broken finished = false
is_broken broken = true

-- What was written is a front of what was read, and all of it unless a write failed.
pub record InOrder (ch : Channel) (failed : Bool) : Type 0 where
  pub left : Bytes
  pub front : ch.sent ++ left ≡ ch.received
  pub whole : failed ≡ false → ch.sent ≡ ch.received

abbrev Even : Channel → Type 0
Even ch = ch.sent ≡ ch.received

InOrder-Even : (ch : Channel) (failed : Bool) → Even ch → InOrder ch failed
InOrder-Even ch failed even = record {
  left = [];
  front = append-nil ch.sent ∙ even;
  whole = λ h. even;
}

push_written :
    (ch : Channel) (out buf left : Bytes) (done : Bool)
    → Even ch
    → out ++ left ≡ buf
    → (done ≡ true → out ≡ buf)
    → InOrder
        (record { received = ch.received ++ buf; sent = ch.sent ++ out })
        (is_broken (after_write done))
push_written ch out buf left true even l d = record {
  left = left;
  front = append_assoc ch.sent out left ∙ ap₂ ◌++◌ even l;
  whole = λ h. ap₂ ◌++◌ even (d refl);
}
push_written ch out buf left false even l d = record {
  left = left;
  front = append_assoc ch.sent out left ∙ ap₂ ◌++◌ even l;
  whole = λ h. absurd (cc);
}

-- How the write of a buffer can end.
abbrev Written : Bytes → Option (Bytes × Bool) → Type 0
Written buf none = Unit
Written buf (some (out, done)) = ((left : Bytes) × (out ++ left ≡ buf)) × (done ≡ true → out ≡ buf)

write_all-Written :
    (answers : List Output.Answer) (buf : Bytes) → Written buf (write_all answers buf)
write_all-Written answers buf =
    (elim (write_all answers buf) as (λ o. write_all answers buf ≡ o → Written buf o) [
      | none ↦ λ e. tt
      | some (out, done) ↦ write_all_lem answers buf out done
    ])
      refl

abbrev PushInOrder : Option (Channel × State) → Type 0
PushInOrder none = Unit
PushInOrder (some (ch, s)) = InOrder ch (is_broken s)

push-InOrder :
    (ch : Channel) (buf : Bytes) (o : Option (Bytes × Bool))
    → Even ch
    → Written buf o
    → PushInOrder (push ch buf o)
unfolding push
push-InOrder ch buf none even w = tt
push-InOrder ch buf (some (out, done)) even w =
    push_written ch out buf (w.0).0 done even (w.0).1 w.1

-- Both directions, in each state that the loop can be in.
abbrev Sound : Option (Flow × State) → Type 0
Sound none = Unit
Sound (some (f, s)) = InOrder f.up (is_broken s) × InOrder f.down (is_broken s)

with_up-Sound :
    (f : Flow) (o : Option (Channel × State)) → Even f.down → PushInOrder o → Sound (with_up f o)
with_up-Sound f none even h = tt
with_up-Sound f (some (ch, s)) even h = (h, InOrder-Even f.down (is_broken s) even)

with_down-Sound :
    (f : Flow) (o : Option (Channel × State)) → Even f.up → PushInOrder o → Sound (with_down f o)
with_down-Sound f none even h = tt
with_down-Sound f (some (ch, s)) even h = (InOrder-Even f.up (is_broken s) even, h)

still :
    (f : Flow) (failed : Bool)
    → Even f.up
    → Even f.down
    → InOrder f.up failed × InOrder f.down failed
still f failed up down = (InOrder-Even f.up failed up, InOrder-Even f.down failed down)

from_client-Sound :
    (got : Option Bytes) (answers : List Output.Answer) (f : Flow)
    → Even f.up
    → Even f.down
    → Sound (from_client got answers f)
unfolding from_client
from_client-Sound none answers f up down = still f false up down
from_client-Sound (some buf) answers f up down =
    with_up-Sound f _ down (push-InOrder f.up buf _ up (write_all-Written answers buf))

from_backend-Sound :
    (got : Option Bytes) (answers : List ℕ) (f : Flow)
    → Even f.up
    → Even f.down
    → Sound (from_backend got answers f)
unfolding from_backend ssl_write_all
from_backend-Sound none answers f up down = still f false up down
from_backend-Sound (some buf) answers f up down =
    with_down-Sound f _ up
      (push-InOrder f.down buf _ down (write_all-Written (map ssl_answer answers) buf))

then_backend-Sound :
    (ev : Option (Option Bytes × List ℕ)) (o : Option (Flow × State))
    → Sound o
    → Sound (then_backend ev o)
then_backend-Sound ev none h = tt
then_backend-Sound none (some (f, going)) h = h
then_backend-Sound (some (got, answers)) (some (f, going)) h =
    from_backend-Sound got answers f (h.0.whole refl) (h.1.whole refl)
then_backend-Sound ev (some (f, finished)) h = h
then_backend-Sound ev (some (f, broken)) h = h

client_event-Sound :
    (ev : Option (Option Bytes × List Output.Answer)) (f : Flow)
    → Even f.up
    → Even f.down
    → Sound (client_event ev f)
client_event-Sound none f up down = still f false up down
client_event-Sound (some (got, answers)) f up down = from_client-Sound got answers f up down

run_round-Sound : (r : Round) (f : Flow) → Even f.up → Even f.down → Sound (run_round r f)
unfolding run_round
run_round-Sound (pending got answers) f up down = from_client-Sound got answers f up down
run_round-Sound no_event f up down = still f false up down
run_round-Sound hung_up f up down = still f false up down
run_round-Sound (events client backend) f up down =
    then_backend-Sound backend (client_event client f) (client_event-Sound client f up down)

run_rounds-Sound : (rs : List Round) (o : Option (Flow × State)) → Sound o → Sound (run_rounds rs o)
unfolding run_rounds
run_rounds-Sound [] o h = h
run_rounds-Sound (r ∷ rs) none h = tt
run_rounds-Sound (r ∷ rs) (some (f, going)) h =
    run_rounds-Sound rs (run_round r f) (run_round-Sound r f (h.0.whole refl) (h.1.whole refl))
run_rounds-Sound (r ∷ rs) (some (f, finished)) h = h
run_rounds-Sound (r ∷ rs) (some (f, broken)) h = h

-- Whatever poll answers, and however the reads and writes cut the bytes into pieces: in each direction
-- of a connection, what was written is a front of what was read, in order and unchanged; and it is all
-- of it, unless the loop was left because a write failed.
pub pipe_data-InOrder :
    (rounds : List Round) (f : Flow) (s : State)
    → pipe_data rounds ≡ some (f, s)
    → InOrder f.up (is_broken s) × InOrder f.down (is_broken s)
unfolding pipe_data
pipe_data-InOrder rounds f s e =
    subst Sound e
      (run_rounds-Sound rounds (some (empty_flow, going)) (still empty_flow false refl refl))
