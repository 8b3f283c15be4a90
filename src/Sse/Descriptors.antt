-- ===== src/Sse/Descriptors.antt =====
-- The pipes of the clients: what each operation of src/sse.c opens and closes.
use sshpad.Prelude.{
  ℕ, zero, suc, ◌+◌, Bool, false, Option, none, some, List, [], ◌∷◌, ◌++◌, ◌≡◌, refl, arith, ◌==◌,
  leb, Bytes, if◌then◌else◌, length,
}
use mathlib.Core.Quot
use mathlib.Core.Quot.{Quot}
use sshpad.Sse.{
  Client, Clients, max_sse_clients, open_client, drop_last, enter, undo, free_client, offer,
  offer_all, broadcast,
}

abbrev fd_of : Option ℕ → List ℕ
fd_of none = []
fd_of (some fd) = fd ∷ []

abbrev fds_of : Client → List ℕ
fds_of c = fd_of c.read_fd ++ fd_of c.write_fd

-- What sse_free_callback closes for the client in the slot.
unfoldable pub freed : ℕ → Clients → List ℕ
freed slot [] = []
freed zero (c ∷ cs) = fds_of c
freed (suc slot) (c ∷ cs) = freed slot cs

-- What sse_broadcaster_free closes.
unfoldable pub broadcaster_free : Clients → List ℕ
broadcaster_free [] = []
broadcaster_free (c ∷ cs) = fds_of c ++ broadcaster_free cs

-- What the threads do to the clients: the two critical sections of sse_broadcaster_add_client, and what
-- sse_free_callback and sse_broadcast do.
pub data Act : Type 0 where
  come : Option (ℕ × ℕ) → Act
  fail leave : ℕ → Act
  send : (ℕ → Bool) → Bytes → Bytes → Act

unfoldable pub act : Clients → Act → Clients
act cs (come pipe) = (enter pipe cs).0
act cs (fail slot) = undo slot cs
act cs (leave slot) = free_client slot cs
act cs (send sent event body) = (broadcast sent event body cs).0

unfoldable pub acts : Clients → List Act → Clients
acts cs [] = cs
acts cs (a ∷ todo) = acts (act cs a) todo

-- A response fails while its slot is the last one.
abbrev InTime : Clients → Act → Type 0
InTime cs (come pipe) = Unit
InTime cs (fail slot) = suc slot ≡ length cs
InTime cs (leave slot) = Unit
InTime cs (send sent event body) = Unit

unfoldable pub AreInTime : Clients → List Act → Type 0
AreInTime cs [] = Unit
AreInTime cs (a ∷ todo) = InTime cs a × AreInTime (act cs a) todo

-- What pipe gives to sse_broadcaster_add_client: it is not called when the array is full.
unfoldable pub opened : Clients → Act → List ℕ
opened cs (come (some fds)) = if leb max_sse_clients (length cs) then [] else fds.0 ∷ fds.1 ∷ []
opened cs (come none) = []
opened cs (fail slot) = []
opened cs (leave slot) = []
opened cs (send sent event body) = []

unfoldable pub closed : Clients → Act → List ℕ
unfolding freed
closed cs (come pipe) = []
closed cs (fail slot) = freed slot cs
closed cs (leave slot) = freed slot cs
closed cs (send sent event body) = []

unfoldable pub all_opened : Clients → List Act → List ℕ
all_opened cs [] = []
all_opened cs (a ∷ todo) = opened cs a ++ all_opened (act cs a) todo

unfoldable pub all_closed : Clients → List Act → List ℕ
all_closed cs [] = []
all_closed cs (a ∷ todo) = closed cs a ++ all_closed (act cs a) todo

unfoldable pub count : ℕ → List ℕ → ℕ
count d [] = 0
count d (x ∷ xs) = (if x == d then 1 else 0) + count d xs

-- The same descriptors, each as often.
abbrev pub SameFds : List ℕ → List ℕ → Type 0
SameFds xs ys = (d : ℕ) → count d xs ≡ count d ys

-- Descriptors without their order.
abbrev pub Bag : Type 0
Bag = Quot SameFds

abbrev pub bag : List ℕ → Bag
bag xs = Quot.mk xs

count-append : (d : ℕ) (xs ys : List ℕ) → count d (xs ++ ys) ≡ count d xs + count d ys
unfolding count
count-append d [] ys = omega arith
count-append d (x ∷ xs) ys = omega (arith, count-append d xs ys)

count_nil : (d : ℕ) → count d [] ≡ 0
unfolding count
count_nil d = refl

-- `held` counts a descriptor among the pipes of the clients.
abbrev held : ℕ → Clients → ℕ
held d cs = count d (broadcaster_free cs)

held-cons : (d : ℕ) (c : Client) (cs : Clients) → held d (c ∷ cs) ≡ count d (fds_of c) + held d cs
unfolding broadcaster_free
held-cons d c cs = count-append d (fds_of c) (broadcaster_free cs)

held-snoc :
    (d : ℕ) (cs : Clients) (c : Client) → held d (cs ++ c ∷ []) ≡ held d cs + count d (fds_of c)
held-snoc d [] c = omega (arith, held-cons d c [], count_nil d)
held-snoc d (x ∷ cs) c =
    omega (arith, held-cons d x cs, held-cons d x (cs ++ c ∷ []), held-snoc d cs c)

held-free_client :
    (d slot : ℕ) (cs : Clients) → count d (freed slot cs) + held d (free_client slot cs) ≡ held d cs
unfolding freed free_client
held-free_client d slot [] = omega (arith, count_nil d)
held-free_client d zero (c ∷ cs) = omega (
  arith,
  held-cons d c cs,
  held-cons d (record { read_fd = none; write_fd = none; active = false }) cs,
  count_nil d,
)
held-free_client d (suc slot) (c ∷ cs) =
    omega (arith, held-cons d c cs, held-cons d c (free_client slot cs), held-free_client d slot cs)

held-offer_all : (d : ℕ) (sent : ℕ → Bool) (cs : Clients) → held d (offer_all sent cs) ≡ held d cs
unfolding offer_all offer
held-offer_all d sent [] = refl
held-offer_all d sent (c ∷ cs) = omega (
  arith,
  held-cons d c cs,
  held-cons d (offer sent c) (offer_all sent cs),
  held-offer_all d sent cs,
)

held-add :
    (d : ℕ) (cs : Clients) (fds : ℕ × ℕ)
    → held d (cs ++ open_client fds ∷ []) ≡ count d (fds.0 ∷ fds.1 ∷ []) + held d cs
held-add d cs fds = omega (arith, held-snoc d cs (open_client fds))

held-broadcast :
    (d : ℕ) (sent : ℕ → Bool) (event body : Bytes) (cs : Clients)
    → held d (broadcast sent event body cs).0 ≡ held d cs
unfolding broadcast
held-broadcast d sent event body cs = ground (arith, held-offer_all d sent cs)

-- In time, the slot that the count gives up is empty.
held-undo :
    (d slot : ℕ) (cs : Clients)
    → suc slot ≡ length cs
    → held d (undo slot cs) ≡ held d (free_client slot cs)
unfolding undo free_client drop_last
held-undo d slot [] h = absurd (omega arith)
held-undo d zero (c ∷ []) h = omega (
  arith,
  held-cons d (record { read_fd = none; write_fd = none; active = false }) [],
  count_nil d,
)
held-undo d zero (c ∷ e ∷ cs) h = absurd (omega arith)
held-undo d (suc slot) (c ∷ []) h = absurd (omega arith)
held-undo d (suc zero) (c ∷ e ∷ cs) h = omega (
  arith,
  held-cons d c (undo zero (e ∷ cs)),
  held-cons d c (free_client zero (e ∷ cs)),
  held-undo d zero (e ∷ cs) (omega arith),
)
held-undo d (suc (suc slot)) (c ∷ e ∷ cs) h = omega (
  arith,
  held-cons d c (undo (suc slot) (e ∷ cs)),
  held-cons d c (free_client (suc slot) (e ∷ cs)),
  held-undo d (suc slot) (e ∷ cs) (omega arith),
)

-- Each act accounts for its descriptors.
act_account :
    (d : ℕ) (cs : Clients) (a : Act)
    → InTime cs a
    → count d (closed cs a) + held d (act cs a) ≡ count d (opened cs a) + held d cs
unfolding closed opened act enter
act_account d cs (come none) h = ground (arith, count_nil d)
act_account d cs (come (some fds)) h = ground (arith, held-add d cs fds, count_nil d)
act_account d cs (fail slot) h =
    omega (arith, held-free_client d slot cs, held-undo d slot cs h, count_nil d)
act_account d cs (leave slot) h = omega (arith, held-free_client d slot cs, count_nil d)
act_account d cs (send sent event body) h =
    omega (arith, held-broadcast d sent event body cs, count_nil d)

acts_account :
    (d : ℕ) (cs : Clients) (todo : List Act)
    → AreInTime cs todo
    → count d (all_closed cs todo) + held d (acts cs todo)
      ≡ count d (all_opened cs todo) + held d cs
unfolding all_closed all_opened acts AreInTime
acts_account d cs [] h = refl
acts_account d cs (a ∷ todo) h = omega (
  arith,
  count-append d (closed cs a) (all_closed (act cs a) todo),
  count-append d (opened cs a) (all_opened (act cs a) todo),
  act_account d cs a h.0,
  acts_account d (act cs a) todo h.1,
)

-- From the start of the program to sse_broadcaster_free, whatever clients come and go and whatever is sent
-- to them, in any order of the critical sections in which no client comes between the two of a response
-- that cannot be created: the descriptors that are closed are those that pipe gave, each as often, in
-- some order, so none leaks, and none is closed more often than it was opened.
pub all_closed-all_opened :
    (todo : List Act)
    → AreInTime [] todo
    → bag (all_closed [] todo ++ broadcaster_free (acts [] todo)) ≡ bag (all_opened [] todo)
unfolding broadcaster_free
all_closed-all_opened todo h = Quot.sound (λ d. omega (
  arith,
  count-append d (all_closed [] todo) (broadcaster_free (acts [] todo)),
  acts_account d [] todo h,
  count_nil d,
))
