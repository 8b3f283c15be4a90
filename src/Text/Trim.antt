-- ===== src/Text/Trim.antt =====
-- What trim leaves alone, and what it takes off.
use sshpad.Prelude.{true, false, [], ◌∷◌, ◌++◌, ◌≡◌, refl, ◌≢◌, ◌∙◌, ap, arith, Bytes, All}
use sshpad.Text.{is_space, skip_space, strip_end, trim, trim_end, c_str, cut_line_end}

-- The first byte, and the last, is no space.
abbrev pub StartsPlain : Bytes → Type 0
StartsPlain [] = ⊥
StartsPlain (x ∷ xs) = is_space x ≡ false

abbrev pub EndsPlain : Bytes → Type 0
EndsPlain [] = ⊥
EndsPlain (x ∷ []) = is_space x ≡ false
EndsPlain (x ∷ y ∷ ys) = EndsPlain (y ∷ ys)

pub EndsPlain-append : (front s : Bytes) → EndsPlain s → EndsPlain (front ++ s)
EndsPlain-append [] s h = h
EndsPlain-append (x ∷ []) [] h = absurd h
EndsPlain-append (x ∷ []) (y ∷ s) h = h
EndsPlain-append (x ∷ y ∷ front) s h = EndsPlain-append (y ∷ front) s h

strip_end-EndsPlain : (s : Bytes) → EndsPlain s → strip_end s ≡ s
unfolding strip_end is_space
strip_end-EndsPlain [] h = refl
strip_end-EndsPlain (x ∷ []) h = ground arith
strip_end-EndsPlain (x ∷ y ∷ ys) h = rw (strip_end-EndsPlain (y ∷ ys) h, strip_end)

trim_end-EndsPlain : (s : Bytes) → EndsPlain s → trim_end s ≡ s
trim_end-EndsPlain [] h = refl
trim_end-EndsPlain (x ∷ []) h = unfold strip_end in refl
trim_end-EndsPlain (x ∷ y ∷ ys) h = ap (◌∷◌ x) (strip_end-EndsPlain (y ∷ ys) h)

skip_space-StartsPlain : (s : Bytes) → StartsPlain s → skip_space s ≡ s
unfolding skip_space is_space
skip_space-StartsPlain [] h = refl
skip_space-StartsPlain (x ∷ xs) h = ground arith

skip_space-append :
    (front s : Bytes)
    → All (λ c. is_space c ≡ true) front
    → StartsPlain s
    → skip_space (front ++ s) ≡ s
unfolding skip_space is_space
skip_space-append [] s blank starts = skip_space-StartsPlain s starts
skip_space-append (x ∷ xs) s blank starts = ground (arith, skip_space-append xs s blank.1 starts)

-- trim takes off the blanks in front, and nothing else of a text that ends in no blank.
pub trim-append :
    (front s : Bytes)
    → All (λ c. is_space c ≡ true) front
    → StartsPlain s
    → EndsPlain s
    → trim (front ++ s) ≡ s
unfolding trim
trim-append front s blank starts ends =
    ap trim_end (skip_space-append front s blank starts) ∙ trim_end-EndsPlain s ends

-- A line that holds no NUL and no end of line, with its newline.
pub c_str-Plain : (s : Bytes) → All (λ c. c ≢ 0) s → c_str s ≡ s
unfolding c_str
c_str-Plain [] h = refl
c_str-Plain (x ∷ xs) h = ground (arith, c_str-Plain xs h.1)

pub cut_line_end-append :
    (s : Bytes) → All (λ c. (c ≢ 13) × (c ≢ 10)) s → cut_line_end (s ++ 10 ∷ []) ≡ s
unfolding cut_line_end
cut_line_end-append [] h = refl
cut_line_end-append (x ∷ xs) h = ground (arith, cut_line_end-append xs h.1)
