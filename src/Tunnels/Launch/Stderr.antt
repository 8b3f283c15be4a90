-- ===== src/Tunnels/Launch/Stderr.antt =====
-- What read_stderr keeps of the output of ssh.
use sshpad.Prelude.{
  ℕ, zero, suc, ◌-◌, ◌≤◌, ◌<◌, true, false, some, List, [], ◌∷◌, ◌++◌, ◌≡◌, refl, sym, ap, ◌∙◌, inl,
  inr, arith, leb, Bytes, length, take, length-append, length-take, Bool-cases, append-nil,
  append_assoc, take_fits,
}
use sshpad.Tunnels.Launch.{read_pieces, read_stderr, stripped}

-- All that the process wrote, up to the end of the pipe.
unfoldable pub output : List Bytes → Bytes
output [] = []
output ([] ∷ ps) = []
output ((c ∷ cs) ∷ ps) = (c ∷ cs) ++ output ps

take-append :
    (n : ℕ) (xs ys : Bytes) → length xs ≤ n → take n (xs ++ ys) ≡ xs ++ take (n - length xs) ys
take-append n [] ys h = ap (λ k. take k ys) (omega arith)
take-append zero (x ∷ xs) ys h = absurd (omega arith)
take-append (suc n) (x ∷ xs) ys h =
    ap (◌∷◌ x) (take-append n xs ys (omega arith) ∙ ap (λ k. xs ++ take k ys) (omega arith))

take_front : (n : ℕ) (xs ys : Bytes) → n ≤ length xs → take n (xs ++ ys) ≡ take n xs
take_front zero xs ys h = refl
take_front (suc n) [] ys h = absurd (omega arith)
take_front (suc n) (x ∷ xs) ys h = ap (◌∷◌ x) (take_front n xs ys (omega arith))

-- The buffer is full after a piece, or the whole piece is in it.
read_pieces_full :
    (buf piece rest : Bytes)
    → length buf ≤ 2047
    → 2047 - length buf ≤ length piece
    → (buf ++ take (2047 - length buf) piece ≡ take 2047 (buf ++ (piece ++ rest)))
      × (leb 2047 (length (buf ++ take (2047 - length buf) piece)) ≡ true)
read_pieces_full buf piece rest fits long = (
  ap (◌++◌ buf) (sym (take_front (2047 - length buf) piece rest long))
      ∙ sym (take-append 2047 buf (piece ++ rest) fits),
  ground (
    arith,
    length-append buf (take (2047 - length buf) piece),
    length-take (2047 - length buf) piece long,
  ),
)

read_pieces-output :
    (buf : Bytes) (ps : List Bytes)
    → length buf < 2047
    → read_pieces buf ps ≡ take 2047 (buf ++ output ps)
unfolding read_pieces output
read_pieces-output buf [] h =
    sym (ap (take 2047) (append-nil buf) ∙ take_fits 2047 buf (omega arith))
read_pieces-output buf ([] ∷ ps) h =
    sym (ap (take 2047) (append-nil buf) ∙ take_fits 2047 buf (omega arith))
read_pieces-output buf ((c ∷ cs) ∷ ps) h =
    elim (Bool-cases (leb (2047 - length buf) (length (c ∷ cs)))) [
      | inl long ↦
          let full = read_pieces_full buf (c ∷ cs) (output ps) (omega arith) (ground arith) in
          rw (full.1) full.0
      | inr short ↦
          let whole : take (2047 - length buf) (c ∷ cs) ≡ c ∷ cs =
            take_fits (2047 - length buf) (c ∷ cs) (ground arith) in
          let sum = length-append buf (c ∷ cs) in
          let room : length (buf ++ c ∷ cs) < 2047 = ground arith in
          let open_ended : leb 2047 (length (buf ++ c ∷ cs)) ≡ false = ground arith in
          rw (whole, open_ended)
            (read_pieces-output (buf ++ c ∷ cs) ps room
              ∙ ap (take 2047) (append_assoc buf (c ∷ cs) (output ps)))
    ]

-- However read cuts the output of ssh into pieces: read_stderr gives the first 2047 bytes of all that
-- was written, without the line ends behind them, and nothing if nothing was written.
pub read_stderr-output :
    (pieces : List Bytes) → read_stderr (some pieces) ≡ stripped (take 2047 (output pieces))
unfolding read_stderr
read_stderr-output pieces = ap stripped (read_pieces-output [] pieces (omega arith))
