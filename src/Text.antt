-- ===== src/Text.antt =====
-- The parts of the C library that the program works its strings with: <ctype.h> in the C locale,
-- strchr, strrchr, strpbrk, atoi, the `%d` of printf and sscanf; and the trim and kw_eq of
-- src/config_parser.c. A position in a string stands for a pointer into it.
pub mod Search
pub mod Decimal
pub mod Trim
use sshpad.Prelude.{
  ℕ, zero, suc, ◌+◌, ◌-◌, ◌*◌, ◌/◌, ◌%◌, ◌<◌, min, Bool, true, false, ◌&&◌, ◌||◌, Option, none,
  some, List, [], ◌∷◌, ◌++◌, leb, ltb, ◌==◌, if◌then◌else◌, Bytes, ℤ, pos, negsuc, int_of_bits,
}

unfoldable pub is_space : ℕ → Bool
is_space c = c == 32 || (leb 9 c && leb c 13)

unfoldable pub is_digit : ℕ → Bool
is_digit c = leb b'0' c && leb c b'9'

unfoldable pub to_lower : ℕ → ℕ
to_lower c = if leb b'A' c && leb c b'Z' then c + 32 else c

unfoldable pub is_alnum : ℕ → Bool
unfolding is_digit
is_alnum c = is_digit c || (leb b'a' c && leb c b'z') || (leb b'A' c && leb c b'Z')

-- strchr: the first position of the byte.
unfoldable pub find_char : ℕ → Bytes → Option ℕ
find_char c [] = none
find_char c (x ∷ xs) =
    let later = find_char c xs in
    if x == c then some 0 else elim later [ none ↦ none | some i ↦ some (suc i) ]

-- strrchr: the last position of the byte.
unfoldable pub find_last : ℕ → Bytes → Option ℕ
find_last c [] = none
find_last c (x ∷ xs) = elim (find_last c xs) [
  | some i ↦ some (suc i)
  | none ↦ if x == c then some 0 else none
]

-- The C string that begins at the start of the bytes: what stands before the first NUL.
unfoldable pub c_str : Bytes → Bytes
c_str [] = []
c_str (x ∷ xs) = if x == 0 then [] else x ∷ c_str xs

-- strpbrk(line, "\r\n"), and the NUL written there.
unfoldable pub cut_line_end : Bytes → Bytes
cut_line_end [] = []
cut_line_end (x ∷ xs) = if x == 13 || x == 10 then [] else x ∷ cut_line_end xs

unfoldable pub skip_space : Bytes → Bytes
unfolding is_space
skip_space [] = []
skip_space (x ∷ xs) = if is_space x then skip_space xs else x ∷ xs

-- The loop of trim from the end, over what follows the first byte.
unfoldable pub strip_end : Bytes → Bytes
unfolding is_space
strip_end [] = []
strip_end (x ∷ xs) = elim (strip_end xs) [
  | [] ↦ if is_space x then [] else x ∷ []
  | y ∷ ys ↦ x ∷ y ∷ ys
]

-- `end > s` keeps the first byte, which is no space.
abbrev pub trim_end : Bytes → Bytes
trim_end [] = []
trim_end (x ∷ xs) = x ∷ strip_end xs

unfoldable pub trim : Bytes → Bytes
unfolding skip_space strip_end
trim s = trim_end (skip_space s)

unfoldable pub kw_eq : Bytes → Bytes → Bool
unfolding to_lower
kw_eq (x ∷ xs) (y ∷ ys) = to_lower x == to_lower y && kw_eq xs ys
kw_eq [] [] = true
kw_eq _ _ = false

unfoldable pub read_digits : ℕ → Bytes → ℕ × Bytes
unfolding is_digit
read_digits acc [] = (acc, [])
read_digits acc (x ∷ xs) =
    if is_digit x then read_digits (acc * 10 + (x - b'0')) xs else (acc, x ∷ xs)

-- The C library reads a `long`, which saturates, and the program keeps its low 32 bits.
unfoldable pub int_of_long : Bool → ℕ → ℤ
int_of_long false m = int_of_bits (min m 9223372036854775807)
int_of_long true m = int_of_bits (4294967296 - min m 9223372036854775808 % 4294967296)

unfoldable pub scan_digits : Bool → Bytes → Option (ℤ × Bytes)
scan_digits minus [] = none
scan_digits minus (x ∷ xs) =
    if is_digit x
    then some (int_of_long minus (read_digits 0 (x ∷ xs)).0, (read_digits 0 (x ∷ xs)).1)
    else none

unfoldable pub scan_signed : Bytes → Option (ℤ × Bytes)
scan_signed [] = none
scan_signed (x ∷ xs) =
    if x == b'-'
    then scan_digits true xs
    else if x == b'+'
    then scan_digits false xs
    else scan_digits false (x ∷ xs)

-- `%d` of sscanf: the value and the rest of the input, or no match.
unfoldable pub scan_int : Bytes → Option (ℤ × Bytes)
unfolding scan_signed scan_digits read_digits is_digit int_of_long skip_space
scan_int s = scan_signed (skip_space s)

unfoldable pub atoi : Bytes → ℤ
unfolding scan_int
atoi s = elim (scan_int s) [ none ↦ pos 0 | some (v, rest) ↦ v ]

unfoldable pub digits_of : ℕ → ℕ → Bytes
digits_of zero n = []
digits_of (suc f) n =
    let front = digits_of f (n / 10) in
    if ltb n 10 then (b'0' + n) ∷ [] else front ++ ((b'0' + n % 10) ∷ [])

-- `%d` of printf.
unfoldable pub print_int : ℤ → Bytes
unfolding digits_of
print_int (pos n) = digits_of (suc n) n
print_int (negsuc n) = b'-' ∷ digits_of (suc (suc n)) (suc n)

unfoldable pub starts_with : Bytes → Bytes → Bool
starts_with [] s = true
starts_with (c ∷ cs) [] = false
starts_with (c ∷ cs) (x ∷ xs) = c == x && starts_with cs xs

-- strstr: where the text first occurs.
unfoldable pub find_text : Bytes → Bytes → Option ℕ
unfolding starts_with
find_text needle [] = if starts_with needle [] then some 0 else none
find_text needle (x ∷ xs) =
    let later = find_text needle xs in
    if starts_with needle (x ∷ xs)
    then some 0
    else elim later [ some i ↦ some (suc i) | none ↦ none ]
