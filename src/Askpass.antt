-- ===== src/Askpass.antt =====
-- src/askpass.c: the table of password requests, and the two calls that meet in it. The bodies of
-- askpass_deliver_password and askpass_wait_for_password are cut where they hold no lock.
pub mod Handover
pub mod Script
use sshpad.Prelude.{
  ℕ, zero, suc, Bool, true, false, not, ◌&&◌, Option, none, some, List, [], ◌∷◌, ◌++◌, ◌==◌,
  if◌then◌else◌, Bytes, length, set, get_elem?, replicate, take, str_eq,
}
use sshpad.Config.Host.{copy}
use sshpad.Config.Fields.{is_empty}

pub record Request : Type 0 where
  pub request_id : Bytes
  pub password : Bytes
  pub ready : Bool
  pub in_use : Bool

abbrev pub Requests : Type 0
Requests = List Request

abbrev pub max_askpass_requests : ℕ
max_askpass_requests = 16

-- init_table
abbrev pub zero_request : Request
zero_request = record { request_id = []; password = []; ready = false; in_use = false }

unfoldable pub init_table : Requests
init_table = replicate max_askpass_requests zero_request

abbrev pub next_slot : Option ℕ → Option ℕ
next_slot none = none
next_slot (some i) = some (suc i)

unfoldable pub find_free : Requests → Option ℕ
find_free [] = none
find_free (r ∷ rs) = let later = next_slot (find_free rs) in if not r.in_use then some 0 else later

abbrev pub new_request : Bytes → Request
new_request id = record { request_id = copy 64 id; password = []; ready = false; in_use = true }

abbrev pub claim : Bytes → Requests → Option ℕ → Option (Requests × ℕ)
claim id rs none = none
claim id rs (some i) = some (set rs i (new_request id), i)

-- alloc_slot, and the guard of askpass_wait_for_password: the table with the request, and its slot.
unfoldable pub begin_wait : Bytes → Requests → Option (Requests × ℕ)
begin_wait id rs = if is_empty id then none else claim id rs (find_free rs)

-- strncmp(request_id, id, 64) == 0
unfoldable pub is_request : Bytes → Request → Bool
is_request id r = r.in_use && str_eq r.request_id (take 64 id)

unfoldable pub find_slot : Bytes → Requests → Option ℕ
find_slot id [] = none
find_slot id (r ∷ rs) =
    let later = next_slot (find_slot id rs) in if is_request id r then some 0 else later

-- The second half of askpass_deliver_password, under the slot's own lock.
unfoldable pub store_password : ℕ → Bytes → Requests → Requests
store_password slot password [] = []
store_password zero password (r ∷ rs) = record r { password = copy 512 password; ready = true } ∷ rs
store_password (suc slot) password (r ∷ rs) = r ∷ store_password slot password rs

abbrev pub store_at : Bytes → Requests → Option ℕ → Option Requests
store_at password rs none = none
store_at password rs (some i) = some (store_password i password rs)

-- askpass_deliver_password with nothing between its halves; none is the result -1.
unfoldable pub deliver_password : Bytes → Bytes → Requests → Option Requests
deliver_password id password rs =
    if is_empty id then none else store_at password rs (find_slot id rs)

-- What the waiting thread returns once it wakes up, by delivery or by timeout.
unfoldable pub answer_of : Request → Option Bytes
answer_of r = if r.ready && not (is_empty r.password) then some r.password else none

unfoldable pub clear_request : Request → Request
clear_request r = record r {
  password = if r.ready && not (is_empty r.password) then [] else r.password;
  in_use = false;
}

abbrev pub end_at : ℕ → Requests → Option Request → Option Bytes × Requests
end_at slot rs none = (none, rs)
end_at slot rs (some r) = (answer_of r, set rs slot (clear_request r))

-- The end of askpass_wait_for_password: the result, and the table with the slot given back.
unfoldable pub end_wait : ℕ → Requests → Option Bytes × Requests
end_wait slot rs = end_at slot rs (get_elem? rs slot)
