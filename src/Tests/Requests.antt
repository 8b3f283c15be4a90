-- ===== src/Tests/Requests.antt =====
-- src/askpass.c, src/sse.c and src/util.c at concrete inputs.
use sshpad.Prelude.{true, none, some, List, [], ◌∷◌, ◌≡◌, refl, ◌≢◌, arith, Bytes, codes, str_eq}
use sshpad.Config.Host.{copy}
use sshpad.Config.Fields.{is_empty}
use sshpad.Askpass.{
  Requests, zero_request, new_request, begin_wait, end_wait, find_slot, store_password, is_request,
  find_free, clear_request,
}
use sshpad.Askpass.Handover.{late_delivery}
use sshpad.Sse.{Client, Clients, broadcast, message}
use sshpad.Sse.Slots.{Event, add, close}
use sshpad.Sse.Delivery.{connected, broadcast-connected}

abbrev three_bytes : Bytes
three_bytes = 255 ∷ 0 ∷ 77 ∷ 128 ∷ []

abbrev slots : Requests
slots = new_request (codes "first") ∷ zero_request ∷ []

second_begins :
    begin_wait (codes "second") slots
    ≡ some (new_request (codes "first") ∷ new_request (codes "second") ∷ [], 1)
unfolding begin_wait end_wait find_slot is_request is_empty find_free clear_request str_eq copy
second_begins = refl

second_fresh : find_slot (codes "second") slots ≡ none
unfolding begin_wait end_wait find_slot is_request is_empty find_free clear_request str_eq copy
second_fresh = refl

not_empty : codes "pw" ≢ []
not_empty = cc

first_found : find_slot (codes "first") slots ≡ some 0
unfolding begin_wait end_wait find_slot is_request is_empty find_free clear_request str_eq copy
first_found = refl

slot_taken :
    begin_wait (codes "second") (end_wait 0 slots).1
    ≡ some (new_request (codes "second") ∷ zero_request ∷ [], 0)
unfolding begin_wait end_wait find_slot is_request is_empty find_free clear_request str_eq copy
slot_taken = refl

late_delivery_example :
    (end_wait 0
      (store_password 0 (codes "pw") (new_request (codes "second") ∷ zero_request ∷ []))).0
    ≡ some (codes "pw")
late_delivery_example =
    late_delivery (codes "first") (codes "second") (codes "pw") slots
      (new_request (codes "second") ∷ zero_request ∷ []) 0 not_empty (omega arith) first_found
      slot_taken

abbrev client : Client
client = record { read_fd = some 3; write_fd = some 4; active = true }

abbrev clients : Clients
clients = client ∷ client ∷ []

broadcast-connected_example :
    connected (broadcast (λ i. true) (codes "config_changed") (codes "{}") clients).0
    ≡ (broadcast (λ i. true) (codes "config_changed") (codes "{}") clients).1
broadcast-connected_example =
    broadcast-connected (λ i. true) (codes "config_changed") (codes "{}") clients
      (unfold message in omega arith)

abbrev events : List Event
events = add (some (5, 6)) (some true) ∷ close 0 ∷ []
