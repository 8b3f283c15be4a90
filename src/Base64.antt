-- ===== src/Base64.antt =====
-- src/util.c: base64_encode. The masks and shifts of bytes are quotients and remainders by powers of
-- two, and `|` of values that share no bit is their sum.
pub mod RoundTrip
use sshpad.Prelude.{
  ℕ, ◌+◌, ◌*◌, ◌/◌, ◌%◌, Option, none, some, List, [], ◌∷◌, Bytes, get_elem?, codes,
}

abbrev pub table : Bytes
table = codes "ABCDEFGHIJKLMNOPQRSTUVWXYZabcdefghijklmnopqrstuvwxyz0123456789+/"

abbrev symbol_or : Option ℕ → ℕ
symbol_or none = 0
symbol_or (some c) = c

-- table[n]
unfoldable pub symbol : ℕ → ℕ
symbol n = symbol_or (get_elem? table n)

-- The four six-bit values of the bytes of a group.
abbrev pub first : ℕ → ℕ
first a = (a / 4) % 64

abbrev pub second : ℕ → ℕ → ℕ
second a b = (a % 4) * 16 + (b / 16) % 16

abbrev pub third : ℕ → ℕ → ℕ
third b c = (b % 16) * 4 + (c / 64) % 4

abbrev pub fourth : ℕ → ℕ
fourth c = c % 64

-- The loop, and the padding of what is left, 61 being '='.
unfoldable pub base64_encode : Bytes → Bytes
base64_encode [] = []
base64_encode (a ∷ []) = symbol (first a) ∷ symbol ((a % 4) * 16) ∷ 61 ∷ 61 ∷ []
base64_encode (a ∷ b ∷ []) =
    symbol (first a) ∷ symbol (second a b) ∷ symbol ((b % 16) * 4) ∷ 61 ∷ []
base64_encode (a ∷ b ∷ c ∷ rest) =
    symbol (first a)
    ∷ symbol (second a b)
    ∷ symbol (third b c)
    ∷ symbol (fourth c)
    ∷ base64_encode rest
