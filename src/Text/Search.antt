-- ===== src/Text/Search.antt =====
-- strchr and strrchr find a separator that one side does not hold.
use sshpad.Prelude.{
  ℕ, zero, suc, ◌<◌, none, some, [], ◌∷◌, ◌++◌, ◌≡◌, refl, ◌≢◌, arith, Bytes, All, length,
}
use sshpad.Text.{find_char, find_last}

-- The text does not hold the byte.
abbrev pub Lacks : ℕ → Bytes → Type 0
Lacks c = All (λ x. x ≢ c)

pub find_char-append :
    (c : ℕ) (front rest : Bytes)
    → Lacks c front
    → find_char c (front ++ c ∷ rest) ≡ some (length front)
unfolding find_char
find_char-append c [] rest h = ground arith
find_char-append c (x ∷ xs) rest h = ground (arith, find_char-append c xs rest h.1)

pub find_char-Lacks : (c : ℕ) (s : Bytes) → Lacks c s → find_char c s ≡ none
unfolding find_char
find_char-Lacks c [] h = refl
find_char-Lacks c (x ∷ xs) h = ground (arith, find_char-Lacks c xs h.1)

pub find_last-Lacks : (c : ℕ) (s : Bytes) → Lacks c s → find_last c s ≡ none
unfolding find_last
find_last-Lacks c [] h = refl
find_last-Lacks c (x ∷ xs) h = ground (arith, find_last-Lacks c xs h.1)

pub find_last-append :
    (c : ℕ) (front rest : Bytes)
    → Lacks c rest
    → find_last c (front ++ c ∷ rest) ≡ some (length front)
unfolding find_last
find_last-append c [] rest h = ground (arith, find_last-Lacks c rest h)
find_last-append c (x ∷ xs) rest h = ground (arith, find_last-append c xs rest h)

-- A byte that strchr does not find does not occur.
pub Lacks-of_find_char : (c : ℕ) (s : Bytes) → find_char c s ≡ none → Lacks c s
unfolding find_char
Lacks-of_find_char c [] h = tt
Lacks-of_find_char c (x ∷ xs) h = ground (arith, Lacks-of_find_char c xs)

-- Behind a text that lacks the byte, and another byte, strchr can only find it further on.
pub find_char_later :
    (c : ℕ) (front : Bytes) (x : ℕ) (rest : Bytes) (i : ℕ)
    → Lacks c front
    → x ≢ c
    → find_char c (front ++ x ∷ rest) ≡ some i
    → length front < i
unfolding find_char
find_char_later c [] x rest i h ne e = ground arith
find_char_later c (y ∷ front) x rest zero h ne e = absurd (ground arith)
find_char_later c (y ∷ front) x rest (suc i) h ne e =
    omega (arith, find_char_later c front x rest i h.1 ne (ground arith))
