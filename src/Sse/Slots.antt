-- ===== src/Sse/Slots.antt =====
-- How many clients fit, over the life of the program.
use sshpad.Prelude.{
  ℕ, zero, suc, ◌≤◌, Bool, false, Option, none, some, List, [], ◌∷◌, ◌++◌, ◌≡◌, refl, ap, ◌∙◌, sym,
  append_assoc, arith, Bytes, length, length-append,
}
use sshpad.Sse.{
  Client, Clients, max_sse_clients, open_client, drop_last, enter, undo, add_client, free_client,
  offer_all, broadcast,
}

-- What can happen to the clients.
pub data Event : Type 0 where
  add : Option (ℕ × ℕ) → Option Bool → Event
  close : ℕ → Event
  send : (ℕ → Bool) → Bytes → Bytes → Event

unfoldable pub step : Clients → Event → Clients
step cs (add pipe made) = (add_client pipe made cs).0
step cs (close slot) = free_client slot cs
step cs (send sent event body) = (broadcast sent event body cs).0

unfoldable pub run : Clients → List Event → Clients
run cs [] = cs
run cs (e ∷ es) = run (step cs e) es

pub drop_last-snoc : (cs : Clients) (c : Client) → drop_last (cs ++ c ∷ []) ≡ cs
unfolding drop_last
drop_last-snoc [] c = refl
drop_last-snoc (x ∷ []) c = refl
drop_last-snoc (x ∷ y ∷ cs) c = ap (◌∷◌ x) (drop_last-snoc (y ∷ cs) c)

length-free_client : (slot : ℕ) (cs : Clients) → length (free_client slot cs) ≡ length cs
unfolding free_client
length-free_client slot [] = refl
length-free_client zero (c ∷ cs) = refl
length-free_client (suc slot) (c ∷ cs) = omega (arith, length-free_client slot cs)

length-offer_all : (sent : ℕ → Bool) (cs : Clients) → length (offer_all sent cs) ≡ length cs
unfolding offer_all
length-offer_all sent [] = refl
length-offer_all sent (c ∷ cs) = omega (arith, length-offer_all sent cs)

length-broadcast :
    (sent : ℕ → Bool) (event body : Bytes) (cs : Clients)
    → length (broadcast sent event body cs).0 ≡ length cs
unfolding broadcast
length-broadcast sent event body cs = ground (arith, length-offer_all sent cs)

-- The client without its pipe.
abbrev pub gone : Client
gone = record { read_fd = none; write_fd = none; active = false }

free_client-append :
    (cs ds : Clients) (c : Client) → free_client (length cs) (cs ++ c ∷ ds) ≡ cs ++ gone ∷ ds
unfolding free_client
free_client-append [] ds c = refl
free_client-append (x ∷ cs) ds c = ap (◌∷◌ x) (free_client-append cs ds c)

-- Undone at once, the entry of a client leaves nothing.
pub undo-snoc : (cs : Clients) (c : Client) → undo (length cs) (cs ++ c ∷ []) ≡ cs
unfolding undo
undo-snoc cs c = ap drop_last (free_client-append cs [] c) ∙ drop_last-snoc cs gone

-- With another client in between it is not the one that is undone which is dropped, but the other, with
-- its pipe.
undo-append : (cs : Clients) (c d : Client) → undo (length cs) (cs ++ c ∷ d ∷ []) ≡ cs ++ gone ∷ []
unfolding undo
undo-append cs c d =
    ap drop_last (free_client-append cs (d ∷ []) c ∙ sym (append_assoc cs (gone ∷ []) (d ∷ [])))
    ∙ drop_last-snoc (cs ++ gone ∷ []) d

enter-bounds :
    (pipe : Option (ℕ × ℕ)) (cs : Clients)
    → length cs ≤ max_sse_clients
    → (length cs ≤ length (enter pipe cs).0) × (length (enter pipe cs).0 ≤ max_sse_clients)
unfolding enter
enter-bounds none cs h = ground arith
enter-bounds (some fds) cs h = ground (arith, length-append cs (open_client fds ∷ []))

pub length-add_client :
    (pipe : Option (ℕ × ℕ)) (made : Option Bool) (cs : Clients)
    → length cs ≤ max_sse_clients
    → (length cs ≤ length (add_client pipe made cs).0)
      × (length (add_client pipe made cs).0 ≤ max_sse_clients)
unfolding add_client enter
length-add_client none made cs h = ground arith
length-add_client (some fds) (some queued) cs h =
    ground (arith, length-append cs (open_client fds ∷ []))
length-add_client (some fds) none cs h = ground (arith, undo-snoc cs (open_client fds))

step-bounds :
    (cs : Clients) (e : Event)
    → length cs ≤ max_sse_clients
    → (length cs ≤ length (step cs e)) × (length (step cs e) ≤ max_sse_clients)
unfolding step
step-bounds cs (add pipe made) h = length-add_client pipe made cs h
step-bounds cs (close slot) h = omega (arith, length-free_client slot cs)
step-bounds cs (send sent event body) h = omega (arith, length-broadcast sent event body cs)

-- The array of clients is never overrun, and a slot that was given out is never given back: the
-- count only grows, whichever clients leave.
pub run_bounds :
    (cs : Clients) (es : List Event)
    → length cs ≤ max_sse_clients
    → (length cs ≤ length (run cs es)) × (length (run cs es) ≤ max_sse_clients)
unfolding run
run_bounds cs [] h = omega arith
run_bounds cs (e ∷ es) h =
    omega (arith, step-bounds cs e h, run_bounds (step cs e) es (step-bounds cs e h).1)

add_client_full :
    (pipe : Option (ℕ × ℕ)) (made : Option Bool) (cs : Clients)
    → max_sse_clients ≤ length cs
    → (add_client pipe made cs).1 ≡ false
unfolding add_client enter
add_client_full pipe made cs h = ground arith

-- Once 32 clients have been accepted, every later one is refused, also when all of the 32 have
-- long closed their connections.
pub run_full :
    (cs : Clients) (es : List Event) (pipe : Option (ℕ × ℕ)) (made : Option Bool)
    → length cs ≡ max_sse_clients
    → (add_client pipe made (run cs es)).1 ≡ false
run_full cs es pipe made h =
    add_client_full pipe made (run cs es) (omega (arith, run_bounds cs es (omega arith)))
