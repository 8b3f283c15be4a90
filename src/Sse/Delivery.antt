-- ===== src/Sse/Delivery.antt =====
-- Who gets a message.
use sshpad.Prelude.{ℕ, ◌<◌, Bool, ◌&&◌, [], ◌∷◌, ◌≡◌, refl, arith, if◌then◌else◌, Bytes, length}
use sshpad.Sse.{
  Clients, sse_buf_size, message, offer, receives, offer_all, receivers, broadcast, has_writer,
  takes,
}

-- The clients that are connected: active, with a pipe to write to.
unfoldable pub connected : Clients → Clients
unfolding has_writer
connected [] = []
connected (c ∷ cs) = if c.active && has_writer c.write_fd then c ∷ connected cs else connected cs

receivers_sent :
    (sent : ℕ → Bool) (cs : Clients) → receivers sent cs ≡ connected (offer_all sent cs)
unfolding connected offer_all receivers offer receives takes
receivers_sent sent [] = refl
receivers_sent sent (c ∷ cs) = ground (arith, receivers_sent sent cs)

-- A message that fits the buffer reaches exactly the clients that are connected after the call, in the
-- order of their slots: who does not get the whole of it is disconnected.
pub broadcast-connected :
    (sent : ℕ → Bool) (event body : Bytes) (cs : Clients)
    → length (message event body) < sse_buf_size
    → connected (broadcast sent event body cs).0 ≡ (broadcast sent event body cs).1
unfolding broadcast
broadcast-connected sent event body cs fits = ground (arith, receivers_sent sent cs)
