-- ===== src/Askpass/Handover.antt =====
-- A password goes from the browser to the request that asked for it.
use sshpad.Prelude.{
  ℕ, suc, ◌<◌, true, none, some, [], ◌∷◌, ◌≡◌, refl, ◌≢◌, inl, inr, arith, Bytes, length, set,
  get_elem?, take_fits, str_eq_refl, Bool-cases, Option-cases,
}
use sshpad.Config.Host.{copy, copy_fits}
use sshpad.Config.Fields.{is_empty}
use sshpad.Askpass.{
  Request, Requests, find_free, new_request, begin_wait, is_request, find_slot, store_password,
  deliver_password, answer_of, end_wait,
}

-- Where the free slot is, the request of a fresh id is found, and nowhere else.
find_slot-set :
    (id : Bytes) (rs : Requests) (i : ℕ) (r : Request)
    → find_free rs ≡ some i
    → find_slot id rs ≡ none
    → is_request id r ≡ true
    → find_slot id (set rs i r) ≡ some i
unfolding find_slot find_free
find_slot-set id [] i r free fresh mine = cc
find_slot-set id (x ∷ rs) i r free fresh mine = elim (Bool-cases x.in_use) [
  | inl used ↦ elim (Option-cases (find_free rs)) [
    | inl full ↦ absurd (ground arith)
    | inr (j, found) ↦
        let at : i ≡ suc j = ground arith in
        rw at (ground (arith, find_slot-set id rs j r found, Option-cases (find_slot id rs)))
  ]
  | inr idle ↦ let at : i ≡ 0 = ground arith in rw at (rw mine)
]

get_elem?-store :
    (rs : Requests) (i : ℕ) (id password : Bytes)
    → find_free rs ≡ some i
    → get_elem? (store_password i password (set rs i (new_request id))) i
      ≡ some (record (new_request id) { password = copy 512 password; ready = true })
unfolding store_password find_free
get_elem?-store [] i id password free = cc
get_elem?-store (x ∷ rs) i id password free = elim (Bool-cases x.in_use) [
  | inl used ↦ elim (Option-cases (find_free rs)) [
    | inl full ↦ absurd (ground arith)
    | inr (j, found) ↦
        let at : i ≡ suc j = ground arith in rw at (get_elem?-store rs j id password found)
  ]
  | inr idle ↦ let at : i ≡ 0 = ground arith in rw at refl
]

new_request_is : (id : Bytes) → length id < 64 → is_request id (new_request id) ≡ true
unfolding is_request
new_request_is id short = rw (copy_fits 64 id short, take_fits 64 id (omega arith), str_eq_refl id)

answer_of_ready :
    (id password : Bytes)
    → password ≢ []
    → length password < 512
    → answer_of (record (new_request id) { password = copy 512 password; ready = true })
      ≡ some password
unfolding answer_of
answer_of_ready id [] ne short = absurd (ne refl)
answer_of_ready id (c ∷ p) ne short = rw (copy_fits 512 (c ∷ p) short) (unfold is_empty in refl)

-- A request that got a slot, and whose id (of less than 64 bytes) no other request uses, is answered
-- with exactly the password that is delivered for it, not empty and of less than 512 bytes.
pub deliver-end_wait :
    (id password : Bytes) (rs rs' : Requests) (slot : ℕ)
    → length id < 64
    → password ≢ []
    → length password < 512
    → find_slot id rs ≡ none
    → begin_wait id rs ≡ some (rs', slot)
    → (rs'' : Requests) × (deliver_password id password rs' ≡ some rs'')
      × ((end_wait slot rs'').0 ≡ some password)
unfolding begin_wait deliver_password end_wait
deliver-end_wait id password rs rs' slot short ne fits fresh e = elim (Bool-cases (is_empty id)) [
  | inl empty ↦ absurd (ground arith)
  | inr filled ↦ elim (Option-cases (find_free rs)) [
    | inl full ↦ absurd (ground arith)
    | inr (i, free) ↦
        let at : slot ≡ i = ground arith in
        let table : rs' ≡ set rs i (new_request id) = ground arith in
        rw (at, table)
          (
            store_password i password (set rs i (new_request id)),
            rw (
              filled,
              find_slot-set id rs i (new_request id) free fresh (new_request_is id short),
            ),
            rw (get_elem?-store rs i id password free) (answer_of_ready id password ne fits),
          )
  ]
]

begin_wait-stored :
    (id password : Bytes) (rs rs' : Requests) (slot : ℕ)
    → begin_wait id rs ≡ some (rs', slot)
    → get_elem? (store_password slot password rs') slot
      ≡ some (record (new_request id) { password = copy 512 password; ready = true })
unfolding begin_wait
begin_wait-stored id password rs rs' slot e = elim (Bool-cases (is_empty id)) [
  | inl empty ↦ absurd (ground arith)
  | inr filled ↦ elim (Option-cases (find_free rs)) [
    | inl full ↦ absurd (ground arith)
    | inr (i, free) ↦
        let at : slot ≡ i = ground arith in
        let table : rs' ≡ set rs i (new_request id) = ground arith in
        rw (at, table) (get_elem?-store rs i id password free)
  ]
]

-- The table lock is given up between the halves of askpass_deliver_password. If the request that was
-- found ends by timeout meanwhile, and its slot goes to another request, then that other request
-- returns the password (not empty, of less than 512 bytes) that was typed for the first one.
pub late_delivery :
    (first second password : Bytes) (rs rs' : Requests) (slot : ℕ)
    → password ≢ []
    → length password < 512
    → find_slot first rs ≡ some slot
    → begin_wait second (end_wait slot rs).1 ≡ some (rs', slot)
    → (end_wait slot (store_password slot password rs')).0 ≡ some password
unfolding end_wait
late_delivery first second password rs rs' slot ne fits found e =
    rw (begin_wait-stored second password _ rs' slot e) (answer_of_ready second password ne fits)
