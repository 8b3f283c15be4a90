-- ===== src/Sse.antt =====
-- src/sse.c: the array of clients and the operations on it. The first `num_clients` slots are a
-- list; a descriptor of -1 is none. Each operation holds the lock from its start to its end, but for
-- sse_broadcaster_add_client, which has two critical sections (enter, undo), and sse_free_callback, which
-- takes no lock.
pub mod Slots
pub mod Delivery
pub mod Descriptors
use sshpad.Prelude.{
  ℕ, zero, suc, ◌+◌, ◌-◌, Bool, true, false, not, ◌&&◌, ◌||◌, Option, none, some, List, [], ◌∷◌,
  ◌++◌, leb, ltb, if◌then◌else◌, Bytes, length, codes, take,
}

pub record Client : Type 0 where
  pub read_fd : Option ℕ
  pub write_fd : Option ℕ
  pub active : Bool

abbrev pub Clients : Type 0
Clients = List Client

abbrev pub max_sse_clients : ℕ
max_sse_clients = 32

abbrev pub sse_buf_size : ℕ
sse_buf_size = 4096

abbrev pub open_client : ℕ × ℕ → Client
open_client fds = record { read_fd = some fds.0; write_fd = some fds.1; active = true }

-- num_clients--
unfoldable pub drop_last : Clients → Clients
drop_last [] = []
drop_last (c ∷ []) = []
drop_last (c ∷ d ∷ cs) = c ∷ drop_last (d ∷ cs)

abbrev pub entered : Clients → Option (ℕ × ℕ) → Clients × Bool
entered cs none = (cs, false)
entered cs (some fds) = (cs ++ open_client fds ∷ [], true)

-- The first critical section of sse_broadcaster_add_client; `pipe` is the answer of pipe. The client's
-- slot is the count before.
unfoldable pub enter : Option (ℕ × ℕ) → Clients → Clients × Bool
enter pipe cs = if leb max_sse_clients (length cs) then (cs, false) else entered cs pipe

-- sse_free_callback, for the client in the slot.
unfoldable pub free_client : ℕ → Clients → Clients
free_client slot [] = []
free_client zero (c ∷ cs) = record { read_fd = none; write_fd = none; active = false } ∷ cs
free_client (suc slot) (c ∷ cs) = c ∷ free_client slot cs

-- The second critical section, when the response could not be created: the client in the slot is
-- emptied, and the count goes down by one.
unfoldable pub undo : ℕ → Clients → Clients
unfolding free_client drop_last
undo slot cs = drop_last (free_client slot cs)

abbrev pub respond : Option Bool → ℕ → Clients × Bool → Clients × Bool
respond made slot (cs, false) = (cs, false)
respond none slot (cs, true) = (undo slot cs, false)
respond (some queued) slot (cs, true) = (cs, queued)

-- The two critical sections with nothing in between. `made` is none if the response could not be created,
-- and else says whether it could be queued; the result is false where the call returns MHD_NO.
unfoldable pub add_client : Option (ℕ × ℕ) → Option Bool → Clients → Clients × Bool
unfolding enter undo
add_client pipe made cs = respond made (length cs) (enter pipe cs)

-- "event: %s\ndata: %s\n\n"
unfoldable pub message : Bytes → Bytes → Bytes
message event body = codes "event: " ++ (event ++ (codes "\ndata: " ++ (body ++ codes "\n\n")))

unfoldable pub has_writer : Option ℕ → Bool
has_writer none = false
has_writer (some fd) = true

unfoldable pub takes : (ℕ → Bool) → Option ℕ → Bool
takes sent none = false
takes sent (some fd) = sent fd

-- One client's turn: it is deactivated if it has a pipe and the message did not go through. `sent` says
-- whether the loop of write reached the end of the message.
unfoldable pub offer : (ℕ → Bool) → Client → Client
offer sent c = record c {
  active = c.active && (not (has_writer c.write_fd) || takes sent c.write_fd);
}

unfoldable pub receives : (ℕ → Bool) → Client → Bool
receives sent c = c.active && takes sent c.write_fd

unfoldable pub offer_all : (ℕ → Bool) → Clients → Clients
offer_all sent [] = []
offer_all sent (c ∷ cs) = offer sent c ∷ offer_all sent cs

-- The clients that get the whole message, in the order of their slots.
unfoldable pub receivers : (ℕ → Bool) → Clients → Clients
receivers sent [] = []
receivers sent (c ∷ cs) = if receives sent c then c ∷ receivers sent cs else receivers sent cs

-- A message that does not fit the buffer with its NUL is sent to no one.
unfoldable pub broadcast : (ℕ → Bool) → Bytes → Bytes → Clients → Clients × Clients
broadcast sent event body cs =
    if leb sse_buf_size (length (message event body))
    then (cs, [])
    else (offer_all sent cs, receivers sent cs)

pub data Read : Type 0 where
  got : ℕ → Read
  closed again broken : Read

pub data Reply : Type 0 where
  content : ℕ → Reply
  end_of_stream end_with_error : Reply

unfoldable pub reply_of : Read → Reply
reply_of (got n) = content n
reply_of closed = end_of_stream
reply_of again = content 0
reply_of broken = end_with_error

-- sse_reader_callback: what is read from the pipe, as an answer to the web server.
unfoldable pub reader_callback : Client → Read → Reply
reader_callback c r = if not c.active then end_of_stream else reply_of r
