-- ===== src/R2/Transfer/Chunks.antt =====
-- An object goes to the server and comes from it in pieces.
use sshpad.Prelude.{
  ℕ, zero, suc, ◌+◌, ◌-◌, ◌<◌, ◌≤◌, Bool, true, false, Option, none, some, List, [], ◌∷◌, ◌++◌, ◌≡◌,
  refl, subst, sym, ap, ◌∙◌, ◌==◌, ltb, arith, inl, inr, if◌then◌else◌, Bytes, length,
  length-append, length-drop, take, drop, drop-drop, take-append-drop, append-nil, append_assoc,
  cat, Bool-cases, ==_refl,
}
use sshpad.R2.Transfer.{max_body, received, write_cb, ReadBuf, read_cb}

abbrev send_step : Bytes → Option Bytes → Option Bytes
send_step [] rest = some []
send_step (b ∷ bs) none = none
send_step (b ∷ bs) (some more) = some ((b ∷ bs) ++ more)

-- libcurl asks for more until a call gives nothing. `spaces i` is the room at call `i`; `none` says that
-- the calls allowed were not enough.
unfoldable pub send : (ℕ → ℕ) → ℕ → ℕ → ReadBuf → Option Bytes
send spaces zero i r = none
send spaces (suc calls) i r =
    send_step (read_cb (spaces i) r).0 (send spaces calls (i + 1) (read_cb (spaces i) r).1)

unfoldable pub receive : (ℕ → Bool) → List Bytes → Option Bytes → Option (Option Bytes)
receive grow [] buf = some buf
receive grow (chunk ∷ chunks) buf =
    let rest = receive grow chunks (write_cb grow chunk buf).0 in
    if (write_cb grow chunk buf).1 == length chunk then rest else none

step_lem :
    (n : ℕ) (d : Bytes) (rest : Option Bytes)
    → (0 < length d → 0 < n)
    → (0 < length d → rest ≡ some (drop n d))
    → send_step (take n d) rest ≡ some d
step_lem zero [] rest pos e = refl
step_lem (suc n) [] rest pos e = refl
step_lem zero (x ∷ xs) rest pos e = absurd (ground (arith, pos))
step_lem (suc n) (x ∷ xs) rest pos e =
    rw (e (omega arith)) (ap some (ap (◌∷◌ x) (take-append-drop n xs)))

send_from :
    (spaces : ℕ → ℕ) (calls i : ℕ) (content : Bytes) (offset : ℕ)
    → ((j : ℕ) → 0 < spaces j)
    → offset ≤ length content
    → length content - offset < calls
    → send spaces calls i (record { content = content; offset = offset })
      ≡ some (drop offset content)
unfolding send read_cb
send_from spaces zero i content offset room inside enough = absurd (omega arith)
send_from spaces (suc calls) i content offset room inside enough =
    let avail : ℕ = length content - offset in
    let n : ℕ = if ltb avail (spaces i) then avail else spaces i in
    let positive : 0 < avail → 0 < n = λ p. ground (arith, room i) in
    let small : n ≤ avail = ground arith in
    let size : length (drop offset content) ≡ avail = length-drop offset content in
    step_lem n (drop offset content) _ (λ p. positive (omega arith))
      (λ p.
        let moved : 0 < n = positive (omega arith) in
        send_from spaces calls (i + 1) content (offset + n) room (omega arith) (omega arith)
        ∙ ap some (sym (drop-drop offset n content)))

-- read_cb gives the whole object, in order and once, however much room libcurl has at each call, and
-- one call more than the object has bytes is enough for the calls to end.
pub send_whole :
    (spaces : ℕ → ℕ) (content : Bytes)
    → ((j : ℕ) → 0 < spaces j)
    → send spaces (length content + 1) 0 (record { content = content; offset = 0 }) ≡ some content
send_whole spaces content room =
    send_from spaces (length content + 1) 0 content 0 room (omega arith) (omega arith)

abbrev pub body_of : Option (Option Bytes) → Option Bytes
body_of none = none
body_of (some none) = some []
body_of (some (some b)) = some b

body_of-some : (buf : Option Bytes) → body_of (some buf) ≡ some (received buf)
body_of-some none = refl
body_of-some (some b) = refl

receive_from :
    (grow : ℕ → Bool) (chunks : List Bytes) (buf : Option Bytes)
    → ((n : ℕ) → grow n ≡ true)
    → length (received buf) ≤ max_body
    → body_of (receive grow chunks buf) ≡ (
        if ltb max_body (length (received buf ++ cat chunks))
        then none
        else some (received buf ++ cat chunks))
unfolding receive write_cb
receive_from grow [] buf grows small =
    rw (append-nil (received buf)) (ground (arith, body_of-some buf))
receive_from grow (chunk ∷ chunks) buf grows small =
    elim (Bool-cases (ltb max_body (length (received buf) + length chunk))) [
      | inl over ↦
          let nonzero : (0 == length chunk) ≡ false = ground arith in
          let whole : length (received buf ++ (chunk ++ cat chunks))
              ≡ length (received buf) + (length chunk + length (cat chunks)) =
            omega (
              arith,
              length-append (received buf) (chunk ++ cat chunks),
              length-append chunk (cat chunks),
            ) in
          let big : ltb max_body (length (received buf ++ (chunk ++ cat chunks))) ≡ true =
            ground arith in
          rw (over, nonzero, big) refl
      | inr fits ↦
          let joined : (received buf ++ chunk) ++ cat chunks
              ≡ received buf ++ (chunk ++ cat chunks) =
            append_assoc (received buf) chunk (cat chunks) in
          let room : length (received buf ++ chunk) ≤ max_body =
            ground (arith, length-append (received buf) chunk) in
          rw (fits, grows (length (received buf) + length chunk + 1), ==_refl (length chunk))
            (subst
              (λ t.
                body_of (receive grow chunks (some (received buf ++ chunk)))
                ≡ (if ltb max_body (length t) then none else some t))
              joined (receive_from grow chunks (some (received buf ++ chunk)) grows room))
    ]

-- What write_cb collects of a reply is all its chunks in order, if they are 10 MB or less together, and
-- nothing if they are more: then the transfer fails. Memory suffices.
pub receive_lem :
    (grow : ℕ → Bool) (chunks : List Bytes)
    → ((n : ℕ) → grow n ≡ true)
    → body_of (receive grow chunks none)
      ≡ (if ltb max_body (length (cat chunks)) then none else some (cat chunks))
receive_lem grow chunks grows = receive_from grow chunks none grows (omega arith)
