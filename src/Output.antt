-- ===== src/Output.antt =====
-- The loops that write a whole buffer to a descriptor: write_all of src/local_proxy.c, the inner loop
-- of sse_broadcast in src/sse.c, and the loop of askpass_init in src/askpass.c. What each call of
-- write answers is a list of answers.
use sshpad.Prelude.{
  ℕ, zero, suc, ◌+◌, ◌≤◌, length, length-drop, Bool, true, false, Option, none, some, List, [], ◌∷◌,
  ◌++◌, ◌≡◌, refl, sym, ap, ◌∙◌, arith, Bytes, take, drop, take-append-drop, append-nil,
  append_assoc,
}

-- `interrupted` is -1 with EINTR, `failed` is -1 with any other error.
pub data Answer : Type 0 where
  wrote : ℕ → Answer
  interrupted failed : Answer

-- The bytes that went out, and whether the loop came to its end; `none` while it still waits.
unfoldable pub write_loop : List Answer → Bytes → Bytes → Option (Bytes × Bool)
write_loop answers out [] = some (out, true)
write_loop [] out (c ∷ cs) = none
write_loop (interrupted ∷ rest) out (c ∷ cs) = write_loop rest out (c ∷ cs)
write_loop (failed ∷ rest) out (c ∷ cs) = some (out, false)
write_loop (wrote n ∷ rest) out (c ∷ cs) =
    write_loop rest (out ++ take n (c ∷ cs)) (drop n (c ∷ cs))

unfoldable pub write_all : List Answer → Bytes → Option (Bytes × Bool)
unfolding write_loop
write_all answers buf = write_loop answers [] buf

-- What went out, and what the buffer still held when the loop ended.
pub record IsSent (before buf out : Bytes) (done : Bool) : Type 0 where
  pub left : Bytes
  pub whole : out ++ left ≡ before ++ buf
  pub complete : done ≡ true → left ≡ []

write_loop-IsSent :
    (answers : List Answer) (before buf out : Bytes) (done : Bool)
    → write_loop answers before buf ≡ some (out, done)
    → IsSent before buf out done
unfolding write_loop
write_loop-IsSent answers before [] out done e = record {
  left = [];
  whole = ap (λ x. x ++ []) (ground arith);
  complete = λ h. refl;
}
write_loop-IsSent [] before (c ∷ cs) out done e = cc
write_loop-IsSent (interrupted ∷ rest) before (c ∷ cs) out done e =
    write_loop-IsSent rest before (c ∷ cs) out done e
write_loop-IsSent (failed ∷ rest) before (c ∷ cs) out done e = record {
  left = c ∷ cs;
  whole = ap (λ x. x ++ c ∷ cs) (ground arith);
  complete = λ h. absurd (ground arith);
}
write_loop-IsSent (wrote n ∷ rest) before (c ∷ cs) out done e =
    let s = write_loop-IsSent rest (before ++ take n (c ∷ cs)) (drop n (c ∷ cs)) out done e in
    record {
      left = s.left;
      whole =
          s.whole
          ∙ append_assoc before (take n (c ∷ cs)) (drop n (c ∷ cs))
          ∙ ap (◌++◌ before) (take-append-drop n (c ∷ cs));
      complete = s.complete;
    }

-- A loop that ends well has sent the whole buffer, in order and once, however the system cut it
-- into pieces and interrupted it; one that fails has sent a front of it.
pub write_all_lem :
    (answers : List Answer) (buf out : Bytes) (done : Bool)
    → write_all answers buf ≡ some (out, done)
    → ((left : Bytes) × (out ++ left ≡ buf)) × (done ≡ true → out ≡ buf)
unfolding write_all
write_all_lem answers buf out done e =
    let s = write_loop-IsSent answers [] buf out done e in
    ((s.left, s.whole), λ h. sym (append-nil out) ∙ ap (◌++◌ out) (sym (s.complete h)) ∙ s.whole)

-- How many answers bring a loop on: those that took bytes, and a failure, which ends it.
unfoldable pub progress : List Answer → ℕ
progress [] = 0
progress (interrupted ∷ rest) = progress rest
progress (failed ∷ rest) = 1 + progress rest
progress (wrote zero ∷ rest) = progress rest
progress (wrote (suc n) ∷ rest) = 1 + progress rest

write_loop_returns :
    (answers : List Answer) (out buf : Bytes)
    → length buf ≤ progress answers
    → (r : Bytes × Bool) × (write_loop answers out buf ≡ some r)
unfolding write_loop progress
write_loop_returns answers out [] h = ((out, true), refl)
write_loop_returns [] out (c ∷ cs) h = absurd (omega arith)
write_loop_returns (interrupted ∷ rest) out (c ∷ cs) h = write_loop_returns rest out (c ∷ cs) h
write_loop_returns (failed ∷ rest) out (c ∷ cs) h = ((out, false), refl)
write_loop_returns (wrote zero ∷ rest) out (c ∷ cs) h =
    write_loop_returns rest (out ++ []) (c ∷ cs) h
write_loop_returns (wrote (suc n) ∷ rest) out (c ∷ cs) h =
    write_loop_returns rest (out ++ take (suc n) (c ∷ cs)) (drop n cs)
      (omega (arith, length-drop n cs))

-- The loop comes to its end when as many writes bring it on as there are bytes, however often it is
-- interrupted.
pub write_all_returns :
    (answers : List Answer) (buf : Bytes)
    → length buf ≤ progress answers
    → (r : Bytes × Bool) × (write_all answers buf ≡ some r)
unfolding write_all
write_all_returns answers buf h = write_loop_returns answers [] buf h
