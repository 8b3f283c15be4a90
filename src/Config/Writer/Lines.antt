-- ===== src/Config/Writer/Lines.antt =====
-- The parser reads back each line that the writer writes.
use sshpad.Prelude.{
  ℕ, ◌-◌, ◌<◌, true, false, none, some, List, [], ◌∷◌, ◌++◌, ◌≡◌, refl, ◌≢◌, arith, Bytes, All,
  All-append, length, length-append, take_fits, take-length-append, drop-suc-length-append,
  append_assoc, Option-cases, inl, inr,
}
use sshpad.Text.{find_char, trim, is_space}
use sshpad.Text.Search.{Lacks, find_char-append, find_char_later}
use sshpad.Text.Trim.{
  StartsPlain, EndsPlain, EndsPlain-append, trim-append, c_str-Plain, cut_line_end-append,
}
use sshpad.Config.Forward.{find_blank}
use sshpad.Config.Parser.{fgets_all, separator, starts_comment, split_line, read_line}
use sshpad.Config.Parser.Blocks.{Entry, entries}

-- A byte that can stand in a line.
abbrev pub LineByte : ℕ → Type 0
LineByte c = (c ≢ 0) × (c ≢ 13) × (c ≢ 10)

-- A value that a line can hold: not empty, and with no blank at its ends.
pub record IsValue (v : Bytes) : Type 0 where
  pub bytes : All LineByte v
  pub starts : StartsPlain v
  pub ends : EndsPlain v
  pub short : length v < 900

pub record IsKeyword (k : Bytes) : Type 0 where
  pub bytes : All LineByte k
  pub starts : StartsPlain k
  pub no_blank : Lacks b' ' k
  pub no_equals : Lacks b'=' k
  pub no_comment : starts_comment k ≡ false
  pub short : length k < 64

pub All-no_nul : (s : Bytes) → All LineByte s → All (λ c. c ≢ 0) s
All-no_nul [] h = tt
All-no_nul (c ∷ s) h = (h.0.0, All-no_nul s h.1)

All-no_end : (s : Bytes) → All LineByte s → All (λ c. (c ≢ 13) × (c ≢ 10)) s
All-no_end [] h = tt
All-no_end (c ∷ s) h = ((h.0.1, h.0.2), All-no_end s h.1)

pub entry_bytes : (k v : Bytes) → IsKeyword k → IsValue v → All LineByte (k ++ b' ' ∷ v)
entry_bytes k v ik iv =
    All-append LineByte k (b' ' ∷ v) ik.bytes ((omega arith, omega arith, omega arith), iv.bytes)

-- fgets takes a line that fits the buffer up to its newline.
pub fgets_all-line :
    (room : ℕ) (front l rest : Bytes)
    → All LineByte l
    → length l < room
    → fgets_all room front (l ++ 10 ∷ rest) ≡ (front ++ (l ++ 10 ∷ [])) ∷ fgets_all 1023 [] rest
unfolding fgets_all
fgets_all-line room front [] rest h fits = refl
fgets_all-line room front (c ∷ l) rest h fits = ground (
  arith,
  fgets_all-line (room - 1) (front ++ c ∷ []) l rest h.1 (omega arith),
  append_assoc front (c ∷ []) (l ++ 10 ∷ []),
)

separator_blank :
    (k v : Bytes)
    → Lacks b' ' k
    → Lacks b'=' k
    → separator (find_char b'=' (k ++ b' ' ∷ v)) (find_blank (k ++ b' ' ∷ v)) ≡ some (length k)
unfolding separator find_blank
separator_blank k v no_blank no_equals = elim (Option-cases (find_char b'=' (k ++ b' ' ∷ v))) [
  | inl e ↦ rw (e, find_char-append b' ' k v no_blank)
  | inr (i, e) ↦
      let later = find_char_later b'=' k b' ' v i no_equals (omega arith) e in
      rw (e, find_char-append b' ' k v no_blank) (ground (arith, later))
]

trim-IsValue : (v : Bytes) → IsValue v → trim v ≡ v
trim-IsValue v h = trim-append [] v tt h.starts h.ends

split_line-entry :
    (k v : Bytes) → IsKeyword k → IsValue v → split_line (k ++ b' ' ∷ v) ≡ some (k, v)
unfolding split_line
split_line-entry [] v ik iv = absurd ik.starts
split_line-entry (c ∷ k) v ik iv =
    rw
      (
        plain,
        separator_blank (c ∷ k) v ik.no_blank ik.no_equals,
        take-length-append (c ∷ k) (b' ' ∷ v),
        drop-suc-length-append (c ∷ k) b' ' v,
        trim-IsValue v iv,
        take_fits 959 v (omega (arith, iv.short)),
      )
      (ground arith)
  where
    plain : starts_comment (c ∷ (k ++ b' ' ∷ v)) ≡ false
    plain = unfold starts_comment in ik.no_comment

-- The line of a keyword and a value, indented or not, reads as just these.
pub read_line-entry :
    (front k v : Bytes)
    → All LineByte front
    → All (λ c. is_space c ≡ true) front
    → IsKeyword k
    → IsValue v
    → read_line ((front ++ (k ++ b' ' ∷ v)) ++ 10 ∷ []) ≡ some (k, v)
unfolding read_line
read_line-entry front k v fb blank ik iv =
    rw
      (
        c_str-Plain _ whole,
        cut_line_end-append line (All-no_end line bytes),
        trim-append front (k ++ b' ' ∷ v) blank (starts k ik.starts)
            (EndsPlain-append k (b' ' ∷ v) (ends v iv.ends)),
      )
      (split_line-entry k v ik iv)
  where
    line : Bytes
    line = front ++ (k ++ b' ' ∷ v)

    bytes : All LineByte line
    bytes = All-append LineByte front (k ++ b' ' ∷ v) fb (entry_bytes k v ik iv)

    whole : All (λ c. c ≢ 0) (line ++ 10 ∷ [])
    whole = All-append (λ c. c ≢ 0) line (10 ∷ []) (All-no_nul line bytes) (omega arith, tt)

    starts : (k : Bytes) → StartsPlain k → StartsPlain (k ++ b' ' ∷ v)
    starts [] h = absurd h
    starts (c ∷ k) h = h

    ends : (v : Bytes) → EndsPlain v → EndsPlain (b' ' ∷ v)
    ends [] h = absurd h
    ends (c ∷ v) h = h

abbrev pub entries_of : Bytes → List Entry
entries_of content = entries (fgets_all 1023 [] content)

-- A line of the file that holds a keyword and a value is one entry.
pub entries_of-entry :
    (front k v rest : Bytes)
    → All LineByte front
    → All (λ c. is_space c ≡ true) front
    → length front < 10
    → IsKeyword k
    → IsValue v
    → entries_of (front ++ (k ++ (b' ' ∷ (v ++ (10 ∷ rest))))) ≡ (k, v) ∷ entries_of rest
unfolding entries
entries_of-entry front k v rest fb blank room ik iv = rw (
  regroup,
  fgets_all-line 1023 [] (front ++ (k ++ b' ' ∷ v)) rest bytes fits,
  read_line-entry front k v fb blank ik iv,
)
  where
    regroup : front ++ (k ++ (b' ' ∷ (v ++ (10 ∷ rest)))) ≡ (front ++ (k ++ b' ' ∷ v)) ++ 10 ∷ rest
    regroup = simp append_assoc

    bytes : All LineByte (front ++ (k ++ b' ' ∷ v))
    bytes = All-append LineByte front (k ++ b' ' ∷ v) fb (entry_bytes k v ik iv)

    fits : length (front ++ (k ++ b' ' ∷ v)) < 1023
    fits =
        omega (
          arith,
          length-append front (k ++ b' ' ∷ v),
          length-append k (b' ' ∷ v),
          ik.short,
          iv.short,
        )

-- A line that says nothing is no entry.
pub entries_of-skip :
    (l rest : Bytes)
    → All LineByte l
    → length l < 1023
    → read_line (l ++ 10 ∷ []) ≡ none
    → entries_of (l ++ 10 ∷ rest) ≡ entries_of rest
unfolding entries
entries_of-skip l rest bytes fits silent = rw (fgets_all-line 1023 [] l rest bytes fits, silent)
