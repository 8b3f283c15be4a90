-- ===== src/Proxy/Entries/Found.antt =====
-- The entries that are appended to /etc/hosts are found at the next start.
use sshpad.Prelude.{
  ℕ, ◌-◌, ◌<◌, Bool, true, Option, some, List, [], ◌∷◌, ◌++◌, ◌≡◌, ◌≢◌, refl, sym, ap, ◌∙◌, subst,
  inl, inr, arith, if◌then◌else◌, Bytes, All, All-append, codes, cat, length, total, map,
  Bool-cases, append_assoc, length-cat, some-inj,
}
use sshpad.Text.{c_str}
use sshpad.Text.Trim.{c_str-Plain}
use sshpad.Output.{Answer, write_all, write_all_lem}
use sshpad.Config.Host.{copy_fits}
use sshpad.Config.Parser.{fgets_all}
use sshpad.Config.Writer.Lines.{LineByte, fgets_all-line, All-no_nul}
use sshpad.Proxy.Entries.{
  line_has, any_line, host_entry_exists, missing, entry_text, entry_texts, entries_size,
  entries_text, with_header, with_texts, after_cat, append_entries,
}

-- The entry before its newline.
abbrev entry_line : Bytes → Bytes
entry_line name = codes "127.0.0.1 " ++ name

-- A name that can stand in a line, and that host_entry_exists finds in its own entry.
pub record IsEntry (name : Bytes) : Type 0 where
  pub bytes : All LineByte name
  pub short : length name < 256
  pub recognised : line_has name (entry_text name) ≡ true

-- `finds room front s`: a line of the rest of the file has the name.
abbrev finds : Bytes → ℕ → Bytes → Bytes → Bool
finds name room front s = any_line name (fgets_all room front s)

-- What is found behind a newline is found in the whole.
finds-behind :
    (name : Bytes) (room : ℕ) (front h rest : Bytes)
    → finds name 1023 [] rest ≡ true
    → finds name room front (h ++ 10 ∷ rest) ≡ true
unfolding fgets_all any_line
finds-behind name room front [] rest found = ground arith
finds-behind name room front (c ∷ h) rest found = ground (
  arith,
  finds-behind name 1023 [] h rest found,
  finds-behind name (room - 1) (front ++ c ∷ []) h rest found,
)

address_bytes : All LineByte (codes "127.0.0.1 ")
address_bytes =
    let plain : (c : ℕ) → 13 < c → LineByte c =
      λ c h. (λ e. omega (arith, e), λ e. omega (arith, e), λ e. omega (arith, e)) in
    (
      plain 49 (omega arith),
      (
        plain 50 (omega arith),
        (
          plain 55 (omega arith),
          (
            plain 46 (omega arith),
            (
              plain 48 (omega arith),
              (
                plain 46 (omega arith),
                (
                  plain 48 (omega arith),
                  (plain 46 (omega arith), (plain 49 (omega arith), (plain 32 (omega arith), tt))),
                ),
              ),
            ),
          ),
        ),
      ),
    )

entry_line_bytes : (name : Bytes) → IsEntry name → All LineByte (entry_line name)
entry_line_bytes name i = All-append LineByte (codes "127.0.0.1 ") name address_bytes i.bytes

c_str-entry : (name : Bytes) → IsEntry name → c_str (entry_text name) ≡ entry_text name
unfolding entry_text
c_str-entry name i = c_str-Plain (entry_line name ++ 10 ∷ []) (
    All-append (λ c. c ≢ 0) (entry_line name) (10 ∷ [])
      (All-no_nul (entry_line name) (entry_line_bytes name i)) (λ e. omega (arith, e), tt))

entry_seen :
    (name : Bytes) (lines : List Bytes)
    → IsEntry name
    → any_line name (entry_text name ∷ lines) ≡ true
unfolding any_line
entry_seen name lines i =
    ap (λ t. if line_has name t then true else any_line name lines) (c_str-entry name i)
    ∙ ap (λ b. if b then true else any_line name lines) i.recognised

finds-entry :
    (name rest : Bytes) → IsEntry name → finds name 1023 [] (entry_line name ++ 10 ∷ rest) ≡ true
unfolding entry_text
finds-entry name rest i =
    ap (any_line name) (
      fgets_all-line 1023 [] (entry_line name) rest (entry_line_bytes name i)
        (let s = i.short in omega arith))
    ∙ entry_seen name (fgets_all 1023 [] rest) i

entry_step : (m rest : Bytes) → entry_text m ++ rest ≡ entry_line m ++ 10 ∷ rest
unfolding entry_text
entry_step m rest = append_assoc (entry_line m) (10 ∷ []) rest

abbrev Found : Bytes → Bytes → Type 0
Found s name = finds name 1023 [] s ≡ true

Found-behind :
    (h rest : Bytes) (ms : List Bytes) → All (Found rest) ms → All (Found (h ++ 10 ∷ rest)) ms
Found-behind h rest [] a = tt
Found-behind h rest (m ∷ ms) a = (finds-behind m 1023 [] h rest a.0, Found-behind h rest ms a.1)

entries-Found : (ms : List Bytes) → All IsEntry ms → All (Found (cat (map entry_text ms))) ms
entries-Found [] a = tt
entries-Found (m ∷ ms) a =
    let rest = cat (map entry_text ms) in
    (
      subst (λ s. Found s m) (sym (entry_step m rest)) (finds-entry m rest a.0),
      subst (λ s. All (Found s) ms) (sym (entry_step m rest))
          (Found-behind (entry_line m) rest ms (entries-Found ms a.1)),
    )

missing-Found : (s : Bytes) (ms : List Bytes) → All (Found s) ms → missing (some s) ms ≡ []
unfolding missing host_entry_exists
missing-Found s [] a = refl
missing-Found s (m ∷ ms) a = rw (a.0) (missing-Found s ms a.1)

missing-All :
    (P : Bytes → Type 0) (hosts_file : Option Bytes) (names : List Bytes)
    → All P names
    → All P (missing hosts_file names)
unfolding missing
missing-All P hosts_file [] a = tt
missing-All P hosts_file (n ∷ ns) a = elim (Bool-cases (host_entry_exists hosts_file n)) [
  | inl there ↦ rw there (missing-All P hosts_file ns a.1)
  | inr gone ↦ rw gone (a.0, missing-All P hosts_file ns a.1)
]

-- The whole text comes to the file, if it fits the buffer.
written_text :
    (texts : List Bytes) (answers : List Answer) (out : Bytes)
    → total texts < entries_size
    → write_all answers (entries_text texts) ≡ some (out, true)
    → out ≡ cat texts
unfolding entries_text
written_text texts answers out fits w =
    (write_all_lem answers (entries_text texts) out true w).1 refl
    ∙ copy_fits entries_size (cat texts) (omega (arith, length-cat texts))

header_line : Bytes
header_line = codes "# --- SSHPad managed entries ---"

with_header-Found :
    (h : Bytes) (m : Bytes) (ms : List Bytes)
    → All IsEntry (m ∷ ms)
    → All (Found (h ++ cat (with_header (map entry_text (m ∷ ms))))) (m ∷ ms)
unfolding header_line
with_header-Found h m ms a =
    let rest = cat (map entry_text (m ∷ ms)) in
    Found-behind h (header_line ++ 10 ∷ rest) (m ∷ ms)
      (Found-behind header_line rest (m ∷ ms) (entries-Found (m ∷ ms) a))

file_after :
    (h out : Bytes) (file : Option Bytes)
    → after_cat true (some h) (some (out, true)) ≡ some (file, true)
    → file ≡ some (h ++ out)
file_after h out file e = sym (ap (λ p. p.0) (some-inj e))

texts-Found :
    (h out : Bytes) (ms : List Bytes) (answers : List Answer) (file : Option Bytes)
    → All IsEntry ms
    → total (with_header (map entry_text ms)) < entries_size
    → write_all answers (entries_text (with_header (map entry_text ms))) ≡ some (out, true)
    → with_texts true answers true (some h) (with_header (map entry_text ms)) ≡ some (file, true)
    → missing file ms ≡ []
texts-Found h out [] answers file a fits w e = unfold missing in refl
texts-Found h out (m ∷ ms) answers file a fits w e =
    let texts = with_header (map entry_text (m ∷ ms)) in
    let here : file ≡ some (h ++ cat texts) =
      file_after h out file (ap (after_cat true (some h)) (sym w) ∙ e)
      ∙ ap (λ t. some (h ++ t)) (written_text texts answers out fits w) in
    subst (λ f. missing f (m ∷ ms) ≡ []) (sym here)
      (missing-Found (h ++ cat texts) (m ∷ ms) (with_header-Found h m ms a))

-- When ensure_hosts_entries returns 0 over a file that could be read, whatever it held, no name that was
-- missing in it is missing any more: the next start adds none of them again. The names can stand in a
-- line and are found in their own entry (IsEntry), the entries fit the buffer, and the write of the
-- temporary file came to its end.
pub append_entries-missing :
    (h out : Bytes) (names : List Bytes) (answers : List Answer) (file : Option Bytes)
    → All IsEntry names
    → total (entry_texts (some h) names) < entries_size
    → write_all answers (entries_text (entry_texts (some h) names)) ≡ some (out, true)
    → append_entries true answers true (some h) names ≡ some (file, true)
    → missing file (missing (some h) names) ≡ []
unfolding append_entries entry_texts
append_entries-missing h out names answers file a fits w e =
    texts-Found h out (missing (some h) names) answers file (missing-All IsEntry (some h) names a)
      fits w e
