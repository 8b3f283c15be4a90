-- ===== src/Proxy/Accept.antt =====
-- accept_loop of src/local_proxy.c.
use sshpad.Prelude.{ℕ, Bool, true, false, List, [], ◌∷◌, map, ◌≡◌, refl, ap}

-- A round of the loop: `running` was cleared; poll or accept gave no client; or a client came, and malloc
-- and pthread_create succeed or not.
pub data Turn : Type 0 where
  stopped no_client : Turn
  client : ℕ → Bool → Bool → Turn

-- A connection is given to a thread (connection_handler), or closed.
pub data Given : Type 0 where
  to_thread closed : ℕ → Given

abbrev pub give : ℕ → Bool → Bool → Given
give fd false made = closed fd
give fd true false = closed fd
give fd true true = to_thread fd

unfoldable pub accept_loop : List Turn → List Given
accept_loop [] = []
accept_loop (stopped ∷ ts) = []
accept_loop (no_client ∷ ts) = accept_loop ts
accept_loop (client fd allocated made ∷ ts) = give fd allocated made ∷ accept_loop ts

-- The connections that were accepted while the loop ran.
unfoldable pub arrived : List Turn → List ℕ
arrived [] = []
arrived (stopped ∷ ts) = []
arrived (no_client ∷ ts) = arrived ts
arrived (client fd allocated made ∷ ts) = fd ∷ arrived ts

abbrev pub fd_of : Given → ℕ
fd_of (to_thread fd) = fd
fd_of (closed fd) = fd

-- Every connection that is accepted is given to one thread or closed, once and in the order of arrival.
accept_loop-arrived : (ts : List Turn) → map fd_of (accept_loop ts) ≡ arrived ts
unfolding accept_loop arrived
accept_loop-arrived [] = refl
accept_loop-arrived (stopped ∷ ts) = refl
accept_loop-arrived (no_client ∷ ts) = accept_loop-arrived ts
accept_loop-arrived (client fd false made ∷ ts) = ap (◌∷◌ fd) (accept_loop-arrived ts)
accept_loop-arrived (client fd true false ∷ ts) = ap (◌∷◌ fd) (accept_loop-arrived ts)
accept_loop-arrived (client fd true true ∷ ts) = ap (◌∷◌ fd) (accept_loop-arrived ts)
