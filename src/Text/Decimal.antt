-- ===== src/Text/Decimal.antt =====
-- atoi reads back what `%d` prints.
use sshpad.Prelude.{
  ℕ, zero, suc, ◌+◌, ◌/◌, ◌%◌, ◌<◌, true, false, some, [], ◌∷◌, ◌++◌, ◌≡◌, refl, ap, ◌≢◌, ◌∙◌,
  arith, ltb, Bytes, ℤ, All, pos, negsuc, Bool-cases, inl, inr, append_assoc, append-nil,
  All-append,
}
use sshpad.Text.{
  is_digit, read_digits, int_of_long, scan_digits, scan_int, atoi, digits_of, print_int,
}

abbrev pub Digits : Bytes → Type 0
Digits = All (λ c. is_digit c ≡ true)

pub digits_of-Digits : (f n : ℕ) → Digits (digits_of f n)
unfolding digits_of is_digit
digits_of-Digits zero n = tt
digits_of-Digits (suc f) n = elim (Bool-cases (ltb n 10)) [
  | inl small ↦ rw small (ground arith, tt)
  | inr large ↦
      rw large
        (All-append _ (digits_of f (n / 10)) _ (digits_of-Digits f (n / 10)) (ground arith, tt))
]

read_digits-digits_of :
    (f n : ℕ) (rest : Bytes) → n < f → read_digits 0 (digits_of f n ++ rest) ≡ read_digits n rest
unfolding digits_of read_digits
read_digits-digits_of zero n rest h = absurd (omega arith)
read_digits-digits_of (suc f) n rest h = elim (Bool-cases (ltb n 10)) [
  | inl small ↦ rw small (ground arith)
  | inr large ↦
      rw (large, append_assoc)
        (read_digits-digits_of f (n / 10) ((b'0' + n % 10) ∷ rest) (ground arith) ∙ ground arith)
]

digits_of-cons : (f n : ℕ) → n < f → (c : ℕ) × (cs : Bytes) × (digits_of f n ≡ c ∷ cs)
unfolding digits_of
digits_of-cons zero n h = absurd (omega arith)
digits_of-cons (suc f) n h = elim (Bool-cases (ltb n 10)) [
  | inl small ↦ (b'0' + n, [], rw small)
  | inr large ↦
      let (c, cs, e) = digits_of-cons f (n / 10) (ground arith) in
      (c, cs ++ ((b'0' + n % 10) ∷ []), rw (large, e))
]

-- A number is read as digits up to a byte that is none, or to the end.
abbrev pub Stops : Bytes → Type 0
Stops [] = Unit
Stops (c ∷ cs) = is_digit c ≡ false

read_digits-Stops : (n : ℕ) (rest : Bytes) → Stops rest → read_digits n rest ≡ (n, rest)
unfolding read_digits
read_digits-Stops n [] h = refl
read_digits-Stops n (c ∷ cs) h = ground arith

scan_signed-Digits :
    (c : ℕ) (cs : Bytes) → is_digit c ≡ true → scan_int (c ∷ cs) ≡ scan_digits false (c ∷ cs)
unfolding scan_int
scan_signed-Digits c cs h = ground arith

scan_digits_step :
    (c : ℕ) (cs rest : Bytes) (n : ℕ)
    → is_digit c ≡ true
    → read_digits 0 (c ∷ cs) ≡ (n, rest)
    → scan_digits false (c ∷ cs) ≡ some (int_of_long false n, rest)
unfolding scan_digits
scan_digits_step c cs rest n h e = rw (h, e)

scan_int_front :
    (s rest : Bytes) (c : ℕ) (cs : Bytes) (n : ℕ)
    → s ≡ c ∷ cs
    → Digits s
    → n < 2147483648
    → read_digits 0 (s ++ rest) ≡ (n, rest)
    → scan_int (s ++ rest) ≡ some (pos n, rest)
unfolding int_of_long
scan_int_front [] rest c cs n e d small r = cc
scan_int_front (x ∷ xs) rest c cs n e d small r =
    scan_signed-Digits x (xs ++ rest) d.0
    ∙ scan_digits_step x (xs ++ rest) rest n d.0 r
    ∙ ground arith

-- `%d` of sscanf reads back what `%d` of printf printed, for an `int` that is not
-- negative, when what follows does not start with a digit.
pub scan_int-print_int :
    (n : ℕ) (rest : Bytes)
    → n < 2147483648
    → Stops rest
    → scan_int (print_int (pos n) ++ rest) ≡ some (pos n, rest)
unfolding print_int
scan_int-print_int n rest small stops =
    let (c, cs, e) = digits_of-cons (suc n) n (omega arith) in
    scan_int_front (digits_of (suc n) n) rest c cs n e (digits_of-Digits (suc n) n) small
      (read_digits-digits_of (suc n) n rest (omega arith) ∙ read_digits-Stops n rest stops)

pub atoi-print_int : (n : ℕ) → n < 2147483648 → atoi (print_int (pos n)) ≡ pos n
unfolding atoi
atoi-print_int n small = rw (scan_int_end, atoi)
  where
    scan_int_end : scan_int (print_int (pos n)) ≡ some (pos n, [])
    scan_int_end = rw append-nil at (scan_int-print_int n [] small tt)

pub print_int-Digits : (n : ℕ) → Digits (print_int (pos n))
unfolding print_int
print_int-Digits n = digits_of-Digits (suc n) n

pub print_int-ne-nil : (n : ℕ) → print_int (pos n) ≢ []
unfolding print_int
print_int-ne-nil n h = let (c, cs, e) = digits_of-cons (suc n) n (omega arith) in cc

scan_signed-minus : (s : Bytes) → scan_int (b'-' ∷ s) ≡ scan_digits true s
unfolding scan_int
scan_signed-minus s = refl

scan_digits_minus :
    (c : ℕ) (cs rest : Bytes) (n : ℕ)
    → is_digit c ≡ true
    → read_digits 0 (c ∷ cs) ≡ (n, rest)
    → scan_digits true (c ∷ cs) ≡ some (int_of_long true n, rest)
unfolding scan_digits
scan_digits_minus c cs rest n h e = rw (h, e)

int_of_long_minus : (n : ℕ) → n < 2147483648 → int_of_long true (suc n) ≡ negsuc n
unfolding int_of_long
int_of_long_minus n small = ground arith

scan_minus_lem :
    (s rest : Bytes) (c : ℕ) (cs : Bytes) (n : ℕ)
    → s ≡ c ∷ cs
    → Digits s
    → n < 2147483648
    → read_digits 0 (s ++ rest) ≡ (suc n, rest)
    → scan_int (b'-' ∷ s ++ rest) ≡ some (negsuc n, rest)
scan_minus_lem [] rest c cs n e d small r = cc
scan_minus_lem (x ∷ xs) rest c cs n e d small r =
    scan_signed-minus (x ∷ xs ++ rest)
    ∙ scan_digits_minus x (xs ++ rest) rest (suc n) d.0 r
    ∙ ap (λ v. some (v, rest)) (int_of_long_minus n small)

-- The values of an `int` of 32 bits.
abbrev pub InInt : ℤ → Type 0
InInt (pos n) = n < 2147483648
InInt (negsuc n) = n < 2147483648

-- The same for every `int`.
pub scan_int-print_int_signed :
    (v : ℤ) (rest : Bytes) → InInt v → Stops rest → scan_int (print_int v ++ rest) ≡ some (v, rest)
scan_int-print_int_signed (pos n) rest small stops = scan_int-print_int n rest small stops
scan_int-print_int_signed (negsuc n) rest small stops =
    let (c, cs, e) = digits_of-cons (suc (suc n)) (suc n) (omega arith) in
    unfold print_int in
    scan_minus_lem (digits_of (suc (suc n)) (suc n)) rest c cs n e
      (digits_of-Digits (suc (suc n)) (suc n)) small
      (read_digits-digits_of (suc (suc n)) (suc n) rest (omega arith)
        ∙ read_digits-Stops (suc n) rest stops)
