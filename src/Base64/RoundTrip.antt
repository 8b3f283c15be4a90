-- ===== src/Base64/RoundTrip.antt =====
-- A reader of base64, and that it reads back what base64_encode writes.
use sshpad.Prelude.{
  ℕ, zero, suc, ◌+◌, ◌*◌, ◌/◌, ◌%◌, ◌<◌, Bool, true, false, ◌&&◌, Option, none, some, [], ◌∷◌, ◌≡◌,
  refl, ap, sym, ap₂, inl, inr, subst, arith, if◌then◌else◌, ◌==◌, ==_iff, Bytes, length, All,
  Bool-cases,
}
use sshpad.Text.{find_char}
use sshpad.Base64.{table, symbol, first, second, third, fourth, base64_encode}

abbrev pub value : ℕ → Option ℕ
value c = find_char c table

abbrev read_last : ℕ → ℕ → ℕ → Option ℕ → Option Bytes → Option Bytes
read_last x y z none rest = none
read_last x y z (some w) none = none
read_last x y z (some w) (some more) =
    some ((x * 4 + y / 16) ∷ ((y % 16) * 16 + z / 4) ∷ ((z % 4) * 64 + w) ∷ more)

abbrev read_third : ℕ → ℕ → Option ℕ → ℕ → Option Bytes → Option Bytes
read_third x y none d rest = none
read_third x y (some z) d rest =
    if d == 61
    then some ((x * 4 + y / 16) ∷ ((y % 16) * 16 + z / 4) ∷ [])
    else read_last x y z (value d) rest

abbrev read_group : Option ℕ → Option ℕ → ℕ → ℕ → Option Bytes → Option Bytes
read_group none y c d rest = none
read_group (some x) none c d rest = none
read_group (some x) (some y) c d rest =
    if c == 61 then some ((x * 4 + y / 16) ∷ []) else read_third x y (value c) d rest

unfoldable pub base64_decode : Bytes → Option Bytes
base64_decode [] = some []
base64_decode (a ∷ b ∷ c ∷ d ∷ rest) = read_group (value a) (value b) c d (base64_decode rest)
base64_decode (_ ∷ _ ∷ _ ∷ []) = none
base64_decode (_ ∷ _ ∷ []) = none
base64_decode (_ ∷ []) = none

abbrev is_index : Option ℕ → ℕ → Bool
is_index none n = false
is_index (some m) n = m == n

abbrev reads_back : ℕ → Bool
reads_back zero = true
reads_back (suc n) =
    is_index (value (symbol n)) n && (if symbol n == 61 then false else reads_back n)

sixty_four : reads_back 64 ≡ true
unfolding symbol find_char
sixty_four = refl

is_index-some : (o : Option ℕ) (n : ℕ) → is_index o n ≡ true → o ≡ some n
is_index-some none n h = cc
is_index-some (some m) n h = ap some ((==_iff m n).0 h)

below_last : (n k : ℕ) → n < suc k → (n == k) ≡ false → n < k
below_last n k lt apart = ground (arith, ==_iff n k)

symbol-reads_back :
    (k n : ℕ)
    → reads_back k ≡ true
    → n < k
    → (is_index (value (symbol n)) n ≡ true) × ((symbol n == 61) ≡ false)
symbol-reads_back zero n h lt = absurd (omega arith)
symbol-reads_back (suc k) n h lt = elim (Bool-cases (n == k)) [
  | inl last ↦
      subst (λ i. (is_index (value (symbol i)) i ≡ true) × ((symbol i == 61) ≡ false))
        (sym ((==_iff n k).0 last)) (ground arith)
  | inr below ↦ symbol-reads_back k n (ground arith) (omega (arith, below_last n k lt below))
]

value-symbol : (n : ℕ) → n < 64 → value (symbol n) ≡ some n
value-symbol n lt = is_index-some (value (symbol n)) n (symbol-reads_back 64 n sixty_four lt).0

symbol_not_padding : (n : ℕ) → n < 64 → (symbol n == 61) ≡ false
symbol_not_padding n lt = (symbol-reads_back 64 n sixty_four lt).1

abbrev pub IsByte : ℕ → Type 0
IsByte b = b < 256

-- What a group of one, two or three bytes is put together from.
one_byte : (a : ℕ) → a < 256 → Path Bytes ((first a * 4 + (a % 4 * 16) / 16) ∷ []) (a ∷ [])
one_byte a h = ap (λ x. x ∷ []) (omega arith)

byte_two : (a b : ℕ) → b < 256 → second a b % 16 * 16 + (b % 16 * 4) / 4 ≡ b
byte_two a b h = omega arith

two_bytes :
    (a b : ℕ)
    → a < 256
    → b < 256
    → Path Bytes
        ((first a * 4 + second a b / 16) ∷ (second a b % 16 * 16 + (b % 16 * 4) / 4) ∷ [])
        (a ∷ b ∷ [])
two_bytes a b ha hb = ap₂ (λ x y. x ∷ y ∷ []) (omega arith) (byte_two a b hb)

byte_three : (b c : ℕ) → c < 256 → third b c % 4 * 64 + fourth c ≡ c
byte_three b c h = omega arith

middle_byte : (a b c : ℕ) → b < 256 → second a b % 16 * 16 + third b c / 4 ≡ b
middle_byte a b c h = omega arith

first_byte : (a b : ℕ) → a < 256 → first a * 4 + second a b / 16 ≡ a
first_byte a b h = omega arith

three_bytes :
    (a b c : ℕ) (rest : Bytes)
    → a < 256
    → b < 256
    → c < 256
    → Path Bytes
        ((first a * 4 + second a b / 16)
          ∷ (second a b % 16 * 16 + third b c / 4)
          ∷ (third b c % 4 * 64 + fourth c)
          ∷ rest)
        (a ∷ b ∷ c ∷ rest)
three_bytes a b c rest ha hb hc =
    rw (first_byte a b ha, middle_byte a b c hb, byte_three b c hc) refl

-- The reader gives back the bytes (below 256) that base64_encode was given, whatever their
-- number.
pub base64_decode-base64_encode :
    (bytes : Bytes) → All IsByte bytes → base64_decode (base64_encode bytes) ≡ some bytes
unfolding base64_decode base64_encode
base64_decode-base64_encode [] h = refl
base64_decode-base64_encode (a ∷ []) h =
    rw (value-symbol (first a) (omega arith), value-symbol ((a % 4) * 16) (omega arith))
      (ap some (one_byte a h.0))
base64_decode-base64_encode (a ∷ b ∷ []) h =
    rw
      (
        value-symbol (first a) (omega arith),
        value-symbol (second a b) (omega arith),
        symbol_not_padding ((b % 16) * 4) (omega arith),
        value-symbol ((b % 16) * 4) (omega arith),
      )
      (ap some (two_bytes a b h.0 h.1.0))
base64_decode-base64_encode (a ∷ b ∷ c ∷ rest) h =
    rw
      (
        value-symbol (first a) (omega arith),
        value-symbol (second a b) (omega arith),
        symbol_not_padding (third b c) (omega arith),
        value-symbol (third b c) (omega arith),
        symbol_not_padding (fourth c) (omega arith),
        value-symbol (fourth c) (omega arith),
        base64_decode-base64_encode rest h.1.1.1,
      )
      (ap some (three_bytes a b c rest h.0 h.1.0 h.1.1.0))

-- The text has four characters for each three bytes or part of them.
pub length-base64_encode :
    (bytes : Bytes) → length (base64_encode bytes) ≡ ((length bytes + 2) / 3) * 4
unfolding base64_encode
length-base64_encode [] = refl
length-base64_encode (a ∷ []) = refl
length-base64_encode (a ∷ b ∷ []) = refl
length-base64_encode (a ∷ b ∷ c ∷ rest) = omega (arith, length-base64_encode rest)
