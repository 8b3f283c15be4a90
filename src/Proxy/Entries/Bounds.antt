-- ===== src/Proxy/Entries/Bounds.antt =====
-- The buffer of ensure_hosts_entries in src/local_proxy.c.
use sshpad.Prelude.{ℕ, ◌+◌, ◌<◌, List, [], ◌∷◌, ◌++◌, ◌≡◌, arith, leb, Bytes, length, total}
use sshpad.Proxy.Entries.{entries_size, room_at, prints, is_inside, all_inside}

is_inside_lem :
    (offset : ℕ) (text : Bytes)
    → offset + length text < 9223372036854775808
    → is_inside (record { offset = offset; text = text }) ≡ leb offset entries_size
unfolding is_inside room_at
is_inside_lem offset text small = ground arith

-- The calls of snprintf stay inside the 4096 bytes of the buffer exactly if all the texts before the
-- last come to 4096 bytes at most: beyond them the room is a negative number that snprintf takes for a
-- huge one. The texts come to less than 2^63 bytes.
pub all_inside-prints :
    (offset : ℕ) (front : List Bytes) (last : Bytes)
    → offset + total front + length last < 9223372036854775808
    → all_inside (prints offset (front ++ last ∷ [])) ≡ leb (offset + total front) entries_size
unfolding all_inside prints
all_inside-prints offset [] last small = ground (arith, is_inside_lem offset last)
all_inside-prints offset (text ∷ front) last small =
    ground (arith, is_inside_lem offset text, all_inside-prints (offset + length text) front last)
