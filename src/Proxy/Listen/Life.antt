-- ===== src/Proxy/Listen/Life.antt =====
-- The socket and the thread over the life of the proxy.
use sshpad.Prelude.{
  ℕ, ◌+◌, Bool, true, false, ◌&&◌, ◌||◌, Option, none, some, List, [], ◌∷◌, ◌++◌, ◌≡◌, refl, ◌∙◌,
  ap, ap₂, append-nil, Option-cases, inl, inr, arith, Bool-cases,
}
use sshpad.Proxy.{Vhost}
use sshpad.Proxy.Listen.{
  LocalProxy, System, Act, close_fd, free_ctx, notice, create_thread, join_thread, Started,
  first_bound, announce_start, start_accepting, start_bound, start_socket, lp_start, close_of,
  lp_stop, free_vhosts, free_of, lp_free, life,
}

-- The descriptors that are closed, in order.
unfoldable pub closed : List Act → List ℕ
closed [] = []
closed (close_fd fd ∷ acts) = fd ∷ closed acts
closed (free_ctx ctx ∷ acts) = closed acts
closed (notice text ∷ acts) = closed acts
closed (create_thread ∷ acts) = closed acts
closed (join_thread ∷ acts) = closed acts

unfoldable pub joined : List Act → ℕ
joined [] = 0
joined (close_fd fd ∷ acts) = joined acts
joined (free_ctx ctx ∷ acts) = joined acts
joined (notice text ∷ acts) = joined acts
joined (create_thread ∷ acts) = joined acts
joined (join_thread ∷ acts) = 1 + joined acts

closed-append : (xs ys : List Act) → closed (xs ++ ys) ≡ closed xs ++ closed ys
unfolding closed
closed-append [] ys = refl
closed-append (x ∷ xs) ys = ground (arith, closed-append xs ys)

joined-append : (xs ys : List Act) → joined (xs ++ ys) ≡ joined xs + joined ys
unfolding joined
joined-append [] ys = omega arith
joined-append (x ∷ xs) ys = ground (arith, joined-append xs ys)

free_vhosts_quiet :
    (vs : List Vhost) (ctx : Option ℕ)
    → (closed (free_vhosts vs ++ free_of ctx) ≡ []) × (joined (free_vhosts vs ++ free_of ctx) ≡ 0)
unfolding closed joined free_vhosts
free_vhosts_quiet [] none = (refl, refl)
free_vhosts_quiet [] (some c) = (refl, refl)
free_vhosts_quiet (v ∷ vs) ctx = free_vhosts_quiet vs ctx

abbrev pub count : Bool → ℕ
count true = 1
count false = 0

plus_none : (n : ℕ) → 0 + n ≡ n
plus_none n = omega arith

-- The descriptor of the socket, if there is one.
abbrev pub opened : Option ℕ → List ℕ
opened none = []
opened (some fd) = fd ∷ []

-- lp_start came as far as pthread_create.
unfoldable pub tries_thread : System → Bool
tries_thread sys = elim sys.socket [
  | none ↦ false
  | some fd ↦ (sys.binds 443 || sys.binds 8443) && sys.listens
]

lp_free_lem :
    (lp : LocalProxy) → (closed (lp_free lp) ≡ opened lp.listen_fd) × (joined (lp_free lp) ≡ 0)
unfolding lp_free closed joined
lp_free_lem lp = elim (Option-cases lp.listen_fd) [
  | inl shut ↦ rw shut (free_vhosts_quiet lp.vhosts lp.dispatcher_ctx)
  | inr (fd, shown) ↦
      let quiet = free_vhosts_quiet lp.vhosts lp.dispatcher_ctx in
      rw shown (ap (◌∷◌ fd) quiet.0, quiet.1)
]

-- The end of the proxy, from the state that lp_start left.
unfoldable ending : LocalProxy → List Act
ending lp = (lp_stop lp).1 ++ lp_free (lp_stop lp).0

stopped_acts :
    (lp : LocalProxy) (fd : Option ℕ)
    → (closed (close_of fd ++ join_thread ∷ []) ≡ opened fd)
      × (joined (close_of fd ++ join_thread ∷ []) ≡ 1)
unfolding closed joined
stopped_acts lp none = (refl, refl)
stopped_acts lp (some fd) = (refl, refl)

ending_lem :
    (lp : LocalProxy)
    → (closed (ending lp) ≡ opened lp.listen_fd) × (joined (ending lp) ≡ count lp.running)
unfolding ending lp_stop lp_free
ending_lem lp = elim (Bool-cases lp.running) [
  | inr idle ↦ rw idle (lp_free_lem lp)
  | inl running ↦
      let s = stopped_acts lp lp.listen_fd in
      let gone = record lp { running = false; listen_fd = none } in
      let f = lp_free_lem gone in
      rw running (
        closed-append (close_of lp.listen_fd ++ join_thread ∷ []) (lp_free gone)
            ∙ ap₂ ◌++◌ s.0 f.0
            ∙ append-nil (opened lp.listen_fd),
        joined-append (close_of lp.listen_fd ++ join_thread ∷ []) (lp_free gone) ∙ ap₂ ◌+◌ s.1 f.1,
      )
]

announce_quiet :
    (lp : LocalProxy) (acts : List Act)
    → (closed (announce_start lp ++ acts) ≡ closed acts)
      × (joined (announce_start lp ++ acts) ≡ joined acts)
unfolding announce_start closed joined
announce_quiet lp acts = ground arith

-- What lp_start has closed and what it leaves open are together the sockets `fds`; it joins no thread,
-- and the proxy runs if `tried`.
abbrev IsStarted : List ℕ → Bool → Started → Type 0
IsStarted fds tried st =
    (closed st.acts ++ opened st.proxy.listen_fd ≡ fds)
    × (joined st.acts ≡ 0)
    × (st.proxy.running ≡ tried)

start_accepting-IsStarted :
    (sys : System) (fd : ℕ) (lp : LocalProxy)
    → lp.running ≡ false
    → IsStarted (fd ∷ []) sys.listens (start_accepting sys fd lp)
unfolding start_accepting closed joined
start_accepting-IsStarted sys fd lp fresh = elim (Bool-cases sys.listens) [
  | inr deaf ↦ rw deaf (refl, refl, fresh)
  | inl listens ↦ elim (Bool-cases sys.creates_thread) [
    | inl made ↦
        let q = announce_quiet lp (create_thread ∷ []) in
        rw (listens, made) (ap (λ xs. xs ++ fd ∷ []) q.0, q.1, refl)
    | inr failed ↦
        let q = announce_quiet lp (close_fd fd ∷ []) in
        rw (listens, failed) (append-nil _ ∙ q.0, q.1, refl)
  ]
]

lp_start-IsStarted :
    (sys : System) (lp : LocalProxy)
    → lp.running ≡ false
    → IsStarted (opened sys.socket) (tries_thread sys) (lp_start sys lp)
unfolding lp_start start_socket start_bound first_bound tries_thread closed joined
lp_start-IsStarted sys lp fresh = elim (Option-cases sys.socket) [
  | inl nothing ↦ rw nothing (refl, refl, fresh)
  | inr (fd, made) ↦ elim (Bool-cases (sys.binds 443)) [
    | inl low ↦ rw (made, low) (start_accepting-IsStarted sys fd (record lp { port = 443 }) fresh)
    | inr taken ↦ elim (Bool-cases (sys.binds 8443)) [
      | inl high ↦
          rw (made, taken, high)
            (start_accepting-IsStarted sys fd (record lp { port = 8443 }) fresh)
      | inr none_free ↦ rw (made, taken, none_free) (refl, refl, fresh)
    ]
  ]
]

-- From a proxy that does not run, as lp_create makes it, to the end of the program: whatever fails, the
-- socket that
-- lp_start got is closed exactly once and no other descriptor is; and lp_stop joins a thread exactly
-- if lp_start came as far as pthread_create, whether or not that made one.
pub life-closed :
    (sys : System) (lp : LocalProxy)
    → lp.running ≡ false
    → (closed (life sys lp) ≡ opened sys.socket) × (joined (life sys lp) ≡ count (tries_thread sys))
unfolding life ending
life-closed sys lp fresh =
    let st = lp_start sys lp in
    let i = lp_start-IsStarted sys lp fresh in
    let e = ending_lem st.proxy in
    (
      closed-append st.acts _ ∙ ap (◌++◌ (closed st.acts)) e.0 ∙ i.0,
      joined-append st.acts _
          ∙ ap₂ ◌+◌ i.1 (e.1 ∙ ap count i.2)
          ∙ plus_none (count (tries_thread sys)),
    )
