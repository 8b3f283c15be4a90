-- ===== src/Tunnels/Stop.antt =====
-- process_manager_stop_tunnel, process_manager_get_tunnel_status and process_manager_kill_all.
use sshpad.Prelude.{
  ℕ, suc, ◌<◌, true, false, Option, none, some, [], ◌∷◌, ◌++◌, ◌≡◌, refl, ◌⊎◌, inl, inr, arith,
  Bytes, length, set, Bool-cases, Option-cases, str_eq_refl, All,
}
use sshpad.Config.Host.{copy, copy_fits}
use sshpad.Tunnels.{
  Tunnel, zero_tunnel, Table, runs_host, has_active, find_active, find_inactive, shift_slot,
  take_slot, reserve, register, start_tunnel, is_valid_host_alias, stop_tunnel, get_tunnel_status,
  active_status, deactivate_all,
}

find_active-has_active :
    (name : Bytes) (ts : Table) → has_active name ts ≡ false → find_active name ts ≡ none
unfolding find_active has_active
find_active-has_active name [] h = refl
find_active-has_active name (t ∷ ts) h = ground (arith, find_active-has_active name ts)

find_active-set :
    (name : Bytes) (ts : Table) (i : ℕ) (u : Tunnel)
    → find_inactive ts ≡ some i
    → has_active name ts ≡ false
    → runs_host name u ≡ true
    → find_active name (set ts i u) ≡ some u
unfolding find_active has_active find_inactive shift_slot
find_active-set name [] i u e off on = cc
find_active-set name (t ∷ ts) i u e off on = elim (Bool-cases t.active) [
  | inl busy ↦ elim (Option-cases (find_inactive ts)) [
    | inl nothing ↦ absurd (ground arith)
    | inr (j, found) ↦
        let at : i ≡ suc j = ground arith in
        rw at (ground (arith, find_active-set name ts j u found))
  ]
  | inr free ↦ let at : i ≡ 0 = ground arith in rw at (ground arith)
]

find_active-set_end :
    (name : Bytes) (ts : Table) (u : Tunnel)
    → has_active name ts ≡ false
    → runs_host name u ≡ true
    → find_active name (set (ts ++ zero_tunnel ∷ []) (length ts) u) ≡ some u
unfolding find_active has_active
find_active-set_end name [] u off on = rw on
find_active-set_end name (t ∷ ts) u off on = ground (arith, find_active-set_end name ts u)

find_active-take_slot :
    (name : Bytes) (ts : Table) (o : Option ℕ) (ts' : Table) (slot : ℕ) (u : Tunnel)
    → find_inactive ts ≡ o
    → take_slot ts o ≡ some (ts', slot)
    → has_active name ts ≡ false
    → runs_host name u ≡ true
    → find_active name (set ts' slot u) ≡ some u
unfolding take_slot
find_active-take_slot name ts (some i) ts' slot u e h off on =
    let same : ts' ≡ ts = ground arith in
    let at : slot ≡ i = ground arith in rw (same, at) (find_active-set name ts i u e off on)
find_active-take_slot name ts none ts' slot u e h off on =
    let same : ts' ≡ ts ++ zero_tunnel ∷ [] = ground arith in
    let at : slot ≡ length ts = ground arith in rw (same, at) (find_active-set_end name ts u off on)

reserve_inv :
    (name : Bytes) (ts : Table) (r : Table × ℕ)
    → reserve name ts ≡ some r
    → (has_active name ts ≡ false) × (take_slot ts (find_inactive ts) ≡ some r)
unfolding reserve
reserve_inv name ts r e = ground arith

-- After a call that starts a tunnel with process `p`, for a name of less than 128 bytes, stopping
-- that host signals the group of `p`, and no other.
pub start_tunnel-stop_tunnel :
    (name : Bytes) (fd : Option ℕ) (p : ℕ) (ts : Table)
    → length name < 128
    → (start_tunnel name fd (some p) ts).succeeded ≡ true
    → stop_tunnel name (start_tunnel name fd (some p) ts).table ≡ some p
unfolding start_tunnel stop_tunnel
start_tunnel-stop_tunnel name fd p ts short ok = elim (Bool-cases (is_valid_host_alias name)) [
  | inr invalid ↦ absurd (ground arith)
  | inl valid ↦ elim (Option-cases (reserve name ts)) [
    | inl refused ↦ absurd (ground arith)
    | inr ((ts', slot), e) ↦ rw (valid, e, found ts' slot e)
  ]
]
  where
    new : Tunnel
    new = record { host = copy 128 name; pid = p; active = true; stderr_fd = fd }

    runs : runs_host name new ≡ true
    runs = unfold runs_host in rw (copy_fits 128 name short, str_eq_refl name)

    found :
        (ts' : Table) (slot : ℕ)
        → reserve name ts ≡ some (ts', slot)
        → find_active name (register name p fd slot ts') ≡ some new
    found ts' slot e =
        let (off, taken) = reserve_inv name ts (ts', slot) e in
        unfold register in
        find_active-take_slot name ts (find_inactive ts) ts' slot new refl taken off runs

-- While a tunnel of the host is active no second one is started, and the table stays as it is.
pub start_tunnel_busy :
    (name : Bytes) (fd pid : Option ℕ) (ts : Table)
    → get_tunnel_status name ts ≡ active_status
    → ((start_tunnel name fd pid ts).succeeded ≡ false) × ((start_tunnel name fd pid ts).table ≡ ts)
unfolding start_tunnel get_tunnel_status reserve
start_tunnel_busy name fd pid ts busy = ground arith

-- After kill_all no tunnel that has a process is active.
pub IsStopped : Tunnel → Type 0
IsStopped t = (t.active ≡ false) ⊎ (t.pid ≡ 0)

pub deactivate_all-IsStopped : (ts : Table) → All IsStopped (deactivate_all ts)
unfolding deactivate_all IsStopped
deactivate_all-IsStopped [] = tt
deactivate_all-IsStopped (t ∷ ts) = (ground arith, deactivate_all-IsStopped ts)
