-- ===== src/Tunnels/KillAll.antt =====
-- process_manager_kill_all: between its two passes the lock is given up, and monitors may release slots.
use sshpad.Prelude.{
  ℕ, zero, suc, Bool, true, false, ◌&&◌, ◌||◌, some, List, [], ◌∷◌, ◌≡◌, refl, sym, subst, some-inj,
  ◌⊎◌, inl, inr, ◌∙◌, arith, ◌==◌, ltb, get_elem?, Bool-cases, ==_refl,
}
use sshpad.Tunnels.{
  Waited, running, collected, wait_failed, Tunnel, Table, term_targets, kill_targets, release_slot,
}

Waited-cases : (a : Waited) → (a ≡ running) ⊎ ((a ≡ collected) ⊎ (a ≡ wait_failed))
Waited-cases running = inl refl
Waited-cases collected = inr (inl refl)
Waited-cases wait_failed = inr (inr refl)

unfoldable pub is_in : ℕ → List ℕ → Bool
is_in n [] = false
is_in n (x ∷ xs) = x == n || is_in n xs

-- The monitors whose processes ended between the passes, by their slots.
unfoldable pub release_all : List ℕ → Table → Table
unfolding release_slot
release_all [] ts = ts
release_all (s ∷ ss) ts = release_all ss (release_slot s ts)

term_targets_first :
    (t : Tunnel) (ts : Table)
    → (t.active && ltb 0 t.pid) ≡ true
    → is_in t.pid (term_targets (t ∷ ts)) ≡ true
unfolding term_targets is_in
term_targets_first t ts runs = ground (arith, ==_refl t.pid)

kill_targets_first :
    (answer : ℕ → Waited) (t : Tunnel) (ts : Table)
    → (t.active && ltb 0 t.pid) ≡ true
    → answer t.pid ≡ running
    → is_in t.pid (kill_targets answer (t ∷ ts)) ≡ true
unfolding kill_targets is_in
kill_targets_first answer t ts runs lives = ground (arith, ==_refl t.pid)

term_targets-is_in :
    (ts : Table) (i : ℕ) (t : Tunnel)
    → get_elem? ts i ≡ some t
    → (t.active && ltb 0 t.pid) ≡ true
    → is_in t.pid (term_targets ts) ≡ true
unfolding term_targets is_in
term_targets-is_in [] i t at runs = cc
term_targets-is_in (u ∷ ts) zero t at runs =
    subst (λ v. is_in t.pid (term_targets (v ∷ ts)) ≡ true) (sym (some-inj at))
      (term_targets_first t ts runs)
term_targets-is_in (u ∷ ts) (suc i) t at runs = ground (arith, term_targets-is_in ts i t at runs)

kill_targets-is_in :
    (answer : ℕ → Waited) (ts : Table) (i : ℕ) (t : Tunnel)
    → get_elem? ts i ≡ some t
    → (t.active && ltb 0 t.pid) ≡ true
    → answer t.pid ≡ running
    → is_in t.pid (kill_targets answer ts) ≡ true
unfolding kill_targets is_in
kill_targets-is_in answer [] i t at runs lives = cc
kill_targets-is_in answer (u ∷ ts) zero t at runs lives =
    subst (λ v. is_in t.pid (kill_targets answer (v ∷ ts)) ≡ true) (sym (some-inj at))
      (kill_targets_first answer t ts runs lives)
kill_targets-is_in answer (u ∷ ts) (suc i) t at runs lives =
    ground (arith, kill_targets-is_in answer ts i t at runs lives)

release_slot_other :
    (s i : ℕ) (ts : Table) → (s == i) ≡ false → get_elem? (release_slot s ts) i ≡ get_elem? ts i
unfolding release_slot
release_slot_other zero i [] ne = refl
release_slot_other (suc s) i [] ne = refl
release_slot_other zero zero (t ∷ ts) ne = absurd (ground arith)
release_slot_other zero (suc i) (t ∷ ts) ne = refl
release_slot_other (suc s) zero (t ∷ ts) ne = refl
release_slot_other (suc s) (suc i) (t ∷ ts) ne = release_slot_other s i ts (ground arith)

release_all_other :
    (ss : List ℕ) (i : ℕ) (ts : Table)
    → is_in i ss ≡ false
    → get_elem? (release_all ss ts) i ≡ get_elem? ts i
unfolding release_all is_in
release_all_other [] i ts out = refl
release_all_other (s ∷ ss) i ts out =
    release_all_other ss i (release_slot s ts) (ground arith)
    ∙ release_slot_other s i ts (ground arith)

-- For each entry that is active with a process when process_manager_kill_all begins, its group gets
-- SIGTERM in the first pass; and by the end its monitor has released the slot, or waitpid has collected the
-- process, or waitpid has failed, or its group gets SIGKILL in the second pass, whichever slots the
-- monitors release in between. Processes that the table has lost are not reached.
pub kill_all_reaches :
    (ts : Table) (released : List ℕ) (answer : ℕ → Waited) (i : ℕ) (t : Tunnel)
    → get_elem? ts i ≡ some t
    → (t.active && ltb 0 t.pid) ≡ true
    → (is_in t.pid (term_targets ts) ≡ true)
      × ((is_in i released ≡ true)
          ⊎ ((answer t.pid ≡ collected)
              ⊎ ((answer t.pid ≡ wait_failed)
                  ⊎ (is_in t.pid (kill_targets answer (release_all released ts)) ≡ true))))
kill_all_reaches ts released answer i t at runs = (
  term_targets-is_in ts i t at runs,
  elim (Bool-cases (is_in i released)) [
    | inl seen ↦ inl seen
    | inr kept ↦ elim (Waited-cases (answer t.pid)) [
      | inr (inl gone) ↦ inr (inl gone)
      | inr (inr failed) ↦ inr (inr (inl failed))
      | inl lives ↦ inr (
          inr (
            inr (
              kill_targets-is_in answer (release_all released ts) i t
                (release_all_other released i ts kept ∙ at) runs lives)))
    ]
  ],
)
