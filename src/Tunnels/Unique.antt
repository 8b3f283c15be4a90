-- ===== src/Tunnels/Unique.antt =====
-- At most one tunnel of a host is active, and the table stays within its array.
use sshpad.Prelude.{
  ℕ, zero, suc, ◌+◌, ◌≤◌, ◌<◌, true, false, Option, none, some, [], ◌∷◌, ◌++◌, ◌≡◌, refl, inl, inr,
  arith, if◌then◌else◌, Bytes, length, length-append, length-set, set, str_eq_iff, Bool-cases,
  Option-cases,
}
use sshpad.Config.Host.{copy, copy_fits}
use sshpad.Tunnels.{
  Tunnel, zero_tunnel, Table, max_tunnels, is_valid_host_alias, runs_host, has_active,
  find_inactive, shift_slot, take_slot, reserve, register, start_tunnel, fork_and_register,
  release_slot,
}

-- How many active tunnels the host has.
unfoldable pub count_active : Bytes → Table → ℕ
count_active name [] = 0
count_active name (t ∷ ts) = (if runs_host name t then 1 else 0) + count_active name ts

pub record IsWf (ts : Table) : Type 0 where
  pub single : (name : Bytes) → count_active name ts ≤ 1
  pub bounded : length ts ≤ max_tunnels

pub count_active-has_active :
    (name : Bytes) (ts : Table) → has_active name ts ≡ false → count_active name ts ≡ 0
unfolding count_active has_active
count_active-has_active name [] h = refl
count_active-has_active name (t ∷ ts) h = ground (arith, count_active-has_active name ts)

count_active-append :
    (name : Bytes) (ts us : Table)
    → count_active name (ts ++ us) ≡ count_active name ts + count_active name us
unfolding count_active
count_active-append name [] us = omega arith
count_active-append name (t ∷ ts) us = omega (arith, count_active-append name ts us)

abbrev weight : Bytes → Tunnel → ℕ
weight name t = if runs_host name t then 1 else 0

-- Filling the slot that the search finds adds the new tunnel and loses none.
count_active-set :
    (name : Bytes) (ts : Table) (i : ℕ) (u : Tunnel)
    → find_inactive ts ≡ some i
    → count_active name (set ts i u) ≡ weight name u + count_active name ts
unfolding count_active runs_host find_inactive shift_slot
count_active-set name [] i u e = cc
count_active-set name (t ∷ ts) i u e = elim (Bool-cases t.active) [
  | inl on ↦ elim (Option-cases (find_inactive ts)) [
    | inl nothing ↦ absurd (ground arith)
    | inr (j, found) ↦
        let i_eq : i ≡ suc j = ground arith in
        rw i_eq (omega (arith, count_active-set name ts j u found))
  ]
  | inr off ↦ let i_eq : i ≡ 0 = ground arith in rw i_eq (ground arith)
]

count_active-set_end :
    (name : Bytes) (ts : Table) (u : Tunnel)
    → count_active name (set (ts ++ zero_tunnel ∷ []) (length ts) u)
      ≡ weight name u + count_active name ts
unfolding count_active
count_active-set_end name [] u = refl
count_active-set_end name (t ∷ ts) u = omega (arith, count_active-set_end name ts u)

-- What a reserved slot is good for: the host was not active, and filling the slot adds one tunnel.
pub record IsFree (name : Bytes) (ts ts' : Table) (slot : ℕ) : Type 0 where
  pub absent : has_active name ts ≡ false
  pub filled :
      (other : Bytes) (u : Tunnel)
      → count_active other (set ts' slot u) ≡ weight other u + count_active other ts
  pub bounded : length ts ≤ max_tunnels → length ts' ≤ max_tunnels
  pub unchanged : (other : Bytes) → count_active other ts' ≡ count_active other ts

take_slot-IsFree :
    (name : Bytes) (ts : Table) (o : Option ℕ) (ts' : Table) (slot : ℕ)
    → find_inactive ts ≡ o
    → has_active name ts ≡ false
    → take_slot ts o ≡ some (ts', slot)
    → IsFree name ts ts' slot
unfolding take_slot
take_slot-IsFree name ts (some i) ts' slot found absent e =
    let same : ts' ≡ ts = ground arith in
    let at : slot ≡ i = ground arith in
    rw (same, at)
      (record {
        absent = absent;
        filled = λ other u. count_active-set other ts i u found;
        bounded = λ h. h;
        unchanged = λ other. refl;
      })
take_slot-IsFree name ts none ts' slot found absent e =
    let same : ts' ≡ ts ++ zero_tunnel ∷ [] = ground arith in
    let at : slot ≡ length ts = ground arith in
    rw (same, at)
      (record {
        absent = absent;
        filled = λ other u. count_active-set_end other ts u;
        bounded = λ h. ground (arith, length-append ts (zero_tunnel ∷ []));
        unchanged = λ other.
            unfold count_active runs_host in
            omega (arith, count_active-append other ts (zero_tunnel ∷ []));
      })

pub reserve-IsFree :
    (name : Bytes) (ts ts' : Table) (slot : ℕ)
    → reserve name ts ≡ some (ts', slot)
    → IsFree name ts ts' slot
unfolding reserve
reserve-IsFree name ts ts' slot e = elim (Bool-cases (has_active name ts)) [
  | inl on ↦ absurd (ground arith)
  | inr off ↦ take_slot-IsFree name ts (find_inactive ts) ts' slot refl off (ground arith)
]

register-IsWf :
    (name : Bytes) (pid : ℕ) (fd : Option ℕ) (ts ts' : Table) (slot : ℕ)
    → length name < 128
    → IsFree name ts ts' slot
    → IsWf ts
    → IsWf (register name pid fd slot ts')
unfolding register
register-IsWf name pid fd ts ts' slot short free w = record {
  single = λ other. single other;
  bounded = omega (arith, length-set ts' slot new, free.bounded w.bounded);
}
  where
    new : Tunnel
    new = record { host = copy 128 name; pid = pid; active = true; stderr_fd = fd }

    single : (other : Bytes) → count_active other (set ts' slot new) ≤ 1
    single other =
        unfold runs_host in
        ground (
          arith,
          free.filled other new,
          w.single other,
          str_eq_iff (copy 128 name) other,
          copy_fits 128 name short,
          count_active-has_active name ts free.absent,
        )

keep-IsWf :
    (name : Bytes) (ts ts' : Table) (slot : ℕ) → IsFree name ts ts' slot → IsWf ts → IsWf ts'
keep-IsWf name ts ts' slot free w = record {
  single = λ other. omega (arith, free.unchanged other, w.single other);
  bounded = free.bounded w.bounded;
}

fork_and_register-IsWf :
    (name : Bytes) (fd pid : Option ℕ) (ts ts' : Table) (slot : ℕ)
    → length name < 128
    → IsFree name ts ts' slot
    → IsWf ts
    → IsWf (fork_and_register name fd pid ts (some (ts', slot))).table
fork_and_register-IsWf name fd none ts ts' slot short free w = keep-IsWf name ts ts' slot free w
fork_and_register-IsWf name fd (some p) ts ts' slot short free w =
    register-IsWf name p fd ts ts' slot short free w

-- Starting a tunnel for a name of less than 128 bytes, with whatever pipe and fork answer, keeps at
-- most one active tunnel for each host, and the table within its 64 slots.
pub start_tunnel-IsWf :
    (name : Bytes) (fd pid : Option ℕ) (ts : Table)
    → length name < 128
    → IsWf ts
    → IsWf (start_tunnel name fd pid ts).table
unfolding start_tunnel
start_tunnel-IsWf name fd pid ts short w = elim (Bool-cases (is_valid_host_alias name)) [
  | inl valid ↦ elim (Option-cases (reserve name ts)) [
    | inl refused ↦ rw (valid, refused) w
    | inr ((ts', slot), e) ↦
        rw (valid, e)
          (fork_and_register-IsWf name fd pid ts ts' slot short (reserve-IsFree name ts ts' slot e)
            w)
  ]
  | inr invalid ↦ rw invalid w
]

count_active-release_slot :
    (name : Bytes) (slot : ℕ) (ts : Table)
    → count_active name (release_slot slot ts) ≤ count_active name ts
unfolding count_active release_slot runs_host
count_active-release_slot name zero [] = omega arith
count_active-release_slot name (suc slot) [] = omega arith
count_active-release_slot name zero (t ∷ ts) = ground arith
count_active-release_slot name (suc slot) (t ∷ ts) =
    omega (arith, count_active-release_slot name slot ts)

length-release_slot : (slot : ℕ) (ts : Table) → length (release_slot slot ts) ≡ length ts
unfolding release_slot
length-release_slot zero [] = refl
length-release_slot (suc slot) [] = refl
length-release_slot zero (t ∷ ts) = refl
length-release_slot (suc slot) (t ∷ ts) = omega (arith, length-release_slot slot ts)

-- The end of a process keeps the table well formed.
pub release_slot-IsWf : (slot : ℕ) (ts : Table) → IsWf ts → IsWf (release_slot slot ts)
release_slot-IsWf slot ts wf = record {
  single = λ name. omega (arith, count_active-release_slot name slot ts, wf.single name);
  bounded = omega (arith, length-release_slot slot ts, wf.bounded);
}
