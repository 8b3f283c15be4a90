-- ===== src/Proxy/Connection/Closes.antt =====
-- What the thread of a connection closes and frees.
use sshpad.Prelude.{
  ℕ, ◌+◌, ◌%◌, Bool, true, false, Option, none, some, List, [], ◌∷◌, ◌++◌, ◌≡◌, refl, subst, ap,
  ◌∙◌, arith, inl, inr, Bool-cases, Option-cases, ℤ, negsuc, pos, All, if◌then◌else◌,
}
use sshpad.Proxy.{Vhost, find_backend_port}
use sshpad.Proxy.Pipe.{Flow, State, going, finished, broken, pipe_data}
use sshpad.Proxy.Pipe.Returns.{Enough, has_last, is_left, pipe_data-Returns}
use sshpad.Proxy.Connection.{
  Peer, Call, open_backend, close_client, close_backend, ssl_new, ssl_free, connect, carried,
  prefixed, connect_backend, serve_backend, connection_handler,
}

-- How often a call stands in a list.
unfoldable pub count_calls : (Call → Bool) → List Call → ℕ
count_calls is [] = 0
count_calls is (c ∷ cs) = (if is c then 1 else 0) + count_calls is cs

abbrev pub is_close_client : Call → Bool
is_close_client close_client = true
is_close_client _ = false

abbrev pub is_ssl_new : Call → Bool
is_ssl_new ssl_new = true
is_ssl_new _ = false

abbrev pub is_ssl_free : Call → Bool
is_ssl_free ssl_free = true
is_ssl_free _ = false

abbrev pub is_open_backend : Call → Bool
is_open_backend open_backend = true
is_open_backend _ = false

abbrev pub is_close_backend : Call → Bool
is_close_backend close_backend = true
is_close_backend _ = false

-- The client is closed once, and what was made or opened is freed or closed.
abbrev Closes : Option (List Call) → Type 0
Closes none = Unit
Closes (some calls) =
    (count_calls is_close_client calls ≡ 1)
    × (count_calls is_ssl_free calls ≡ count_calls is_ssl_new calls)
    × (count_calls is_close_backend calls ≡ count_calls is_open_backend calls)

-- The same after ssl_new, and after the socket for the backend.
abbrev ClosesLater : ℕ → ℕ → Option (List Call) → Type 0
ClosesLater made opened none = Unit
ClosesLater made opened (some calls) =
    (count_calls is_close_client calls ≡ 1)
    × (count_calls is_ssl_free calls ≡ made + count_calls is_ssl_new calls)
    × (count_calls is_close_backend calls ≡ opened + count_calls is_open_backend calls)

carried-Closes : (o : Option (Flow × State)) → ClosesLater 1 1 (carried o)
unfolding count_calls
carried-Closes none = tt
carried-Closes (some (f, going)) = tt
carried-Closes (some (f, finished)) = (refl, refl, refl)
carried-Closes (some (f, broken)) = (refl, refl, refl)

connect-Closes :
    (port : ℕ) (o : Option (List Call))
    → ClosesLater 1 1 o
    → ClosesLater 1 0 (prefixed (open_backend ∷ connect port ∷ []) o)
unfolding count_calls
connect-Closes port none h = tt
connect-Closes port (some calls) h = (omega (arith, h.0), omega (arith, h.1), omega (arith, h.2))

serve_backend-Closes : (p : Peer) (port : Option ℤ) → ClosesLater 1 0 (serve_backend p port)
unfolding serve_backend connect_backend count_calls
serve_backend-Closes p none = (refl, refl, refl)
serve_backend-Closes p (some (negsuc n)) = (refl, refl, refl)
serve_backend-Closes p (some (pos port)) = elim (Option-cases p.backend_socket) [
  | inl none_left ↦ rw none_left (refl, refl, refl)
  | inr (fd, got) ↦ elim (Bool-cases (p.connects (port % 65536))) [
    | inl up ↦ rw (got, up) (connect-Closes port _ (carried-Closes (pipe_data p.rounds)))
    | inr down ↦ rw (got, down) (refl, refl, refl)
  ]
]

ssl_new-Closes : (o : Option (List Call)) → ClosesLater 1 0 o → Closes (prefixed (ssl_new ∷ []) o)
unfolding count_calls
ssl_new-Closes none h = tt
ssl_new-Closes (some calls) h = (omega (arith, h.0), omega (arith, h.1), omega (arith, h.2))

connection_handler-Closes : (vs : List Vhost) (p : Peer) → Closes (connection_handler vs p)
unfolding connection_handler count_calls
connection_handler-Closes vs p = elim (Bool-cases p.ssl_created) [
  | inr failed ↦ rw failed (refl, refl, refl)
  | inl made ↦ elim (Bool-cases p.accepted) [
    | inr refused ↦ rw (made, refused) (refl, refl, refl)
    | inl accepted ↦
        rw (made, accepted)
          (ssl_new-Closes _ (serve_backend-Closes p (find_backend_port vs p.servername)))
  ]
]

-- The thread returns.
abbrev Returned : Option (List Call) → Type 0
Returned o = (calls : List Call) × (o ≡ some calls)

prefixed-Returned :
    (pre : List Call) (o : Option (List Call)) → Returned o → Returned (prefixed pre o)
prefixed-Returned pre o (calls, e) = (pre ++ calls, ap (prefixed pre) e)

carried_left : (f : Flow) (s : State) → is_left s ≡ true → Returned (carried (some (f, s)))
carried_left f going left = absurd (cc)
carried_left f finished left = (_, refl)
carried_left f broken left = (_, refl)

module _ (p : Peer) (enough : All Enough p.rounds) (last : has_last p.rounds ≡ true) where
  carried-Returned : Returned (carried (pipe_data p.rounds))
  carried-Returned =
      let (f, s, e, left) = pipe_data-Returns p.rounds enough in
      let (calls, e') = carried_left f s (left last) in (calls, ap carried e ∙ e')

  serve_backend-Returned : (port : Option ℤ) → Returned (serve_backend p port)
  unfolding serve_backend connect_backend
  serve_backend-Returned none = (_, refl)
  serve_backend-Returned (some (negsuc n)) = (_, refl)
  serve_backend-Returned (some (pos port)) = elim (Option-cases p.backend_socket) [
    | inl none_left ↦ rw none_left (_, refl)
    | inr (fd, got) ↦ elim (Bool-cases (p.connects (port % 65536))) [
      | inl up ↦
          rw (got, up) (prefixed-Returned (open_backend ∷ connect port ∷ []) _ carried-Returned)
      | inr down ↦ rw (got, down) (_, refl)
    ]
  ]

  connection_handler-Returned : (vs : List Vhost) → Returned (connection_handler vs p)
  unfolding connection_handler
  connection_handler-Returned vs = elim (Bool-cases p.ssl_created) [
    | inr failed ↦ rw failed (_, refl)
    | inl made ↦ elim (Bool-cases p.accepted) [
      | inr refused ↦ rw (made, refused) (_, refl)
      | inl accepted ↦
          rw (made, accepted)
            (prefixed-Returned (ssl_new ∷ []) _
              (serve_backend-Returned (find_backend_port vs p.servername)))
    ]
  ]

-- When the writes of pipe_data come to their ends, and some round of its loop is a last one (a read gives
-- nothing, poll ends without an event, or a side hangs up), the thread of a connection returns; and on
-- every way through it the connection of the client is closed exactly once, the TLS state is freed as
-- often as it is made, and the socket for the backend is closed as often as one is opened, also when it
-- does not connect.
pub connection_handler-closes :
    (vs : List Vhost) (p : Peer)
    → All Enough p.rounds
    → has_last p.rounds ≡ true
    → (calls : List Call) × (connection_handler vs p ≡ some calls)
      × (count_calls is_close_client calls ≡ 1)
      × (count_calls is_ssl_free calls ≡ count_calls is_ssl_new calls)
      × (count_calls is_close_backend calls ≡ count_calls is_open_backend calls)
connection_handler-closes vs p enough last =
    let (calls, e) = connection_handler-Returned p enough last vs in
    let c = subst Closes e (connection_handler-Closes vs p) in (calls, e, c.0, c.1, c.2)
