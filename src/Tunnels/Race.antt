-- ===== src/Tunnels/Race.antt =====
-- The table lock is given up between the two critical sections of process_manager_start_tunnel.
use sshpad.Prelude.{
  ℕ, zero, suc, false, Option, none, some, List, [], ◌∷◌, ◌++◌, ◌≡◌, refl, ap, inl, inr, arith,
  Bytes, length, set, Bool-cases, Option-cases,
}
use sshpad.Tunnels.{
  zero_tunnel, Table, has_active, find_inactive, shift_slot, take_slot, reserve, register,
}

set-set {ℓ} : {A : Type ℓ} (xs : List A) (i : ℕ) (u v : A) → set (set xs i u) i v ≡ set xs i v
set-set [] i u v = refl
set-set (x ∷ xs) zero u v = refl
set-set (x ∷ xs) (suc i) u v = ap (◌∷◌ x) (set-set xs i u v)

find_inactive-snoc :
    (ts : Table)
    → find_inactive ts ≡ none
    → find_inactive (ts ++ zero_tunnel ∷ []) ≡ some (length ts)
unfolding find_inactive shift_slot
find_inactive-snoc [] e = refl
find_inactive-snoc (t ∷ ts) e = elim (Option-cases (find_inactive ts)) [
  | inl nothing ↦ ground (arith, find_inactive-snoc ts nothing)
  | inr (i, found) ↦ absurd (ground arith)
]

take_slot-again :
    (ts : Table) (o : Option ℕ) (ts' : Table) (slot : ℕ)
    → find_inactive ts ≡ o
    → take_slot ts o ≡ some (ts', slot)
    → find_inactive ts' ≡ some slot
unfolding take_slot
take_slot-again ts (some i) ts' slot e h = ground arith
take_slot-again ts none ts' slot e h = ground (arith, find_inactive-snoc ts e)

-- Between the two critical sections a reserved slot still counts as inactive, so a second call, for
-- any host with no active tunnel (the same one too), is given the same slot; and once both have
-- filled it, only the second tunnel is in the table: the process of the first runs on with no entry.
pub reserve_twice :
    (a b : Bytes) (ts ts' : Table) (slot pa pb : ℕ) (fa fb : Option ℕ)
    → reserve a ts ≡ some (ts', slot)
    → has_active b ts' ≡ false
    → (reserve b ts' ≡ some (ts', slot))
      × (register b pb fb slot (register a pa fa slot ts') ≡ register b pb fb slot ts')
unfolding reserve register
reserve_twice a b ts ts' slot pa pb fa fb e off = elim (Bool-cases (has_active a ts)) [
  | inl on ↦ absurd (ground arith)
  | inr free ↦
      let again = take_slot-again ts (find_inactive ts) ts' slot refl (ground arith) in
      (rw (off, again) (unfold take_slot in refl), set-set ts' slot _ _)
]
