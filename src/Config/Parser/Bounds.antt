-- ===== src/Config/Parser/Bounds.antt =====
-- What holds of every host that the loop over the lines makes, whatever the file says.
use sshpad.Prelude.{
  ℕ, ◌*◌, ◌≤◌, ◌<◌, Bool, true, false, none, List, [], ◌∷◌, ◌≡◌, refl, arith, Bytes, leb, length,
  length-append, All, All-append, All-take, Bool-cases, Option-cases, inl, inr, ◌≢◌, codes,
}
use sshpad.Text.{kw_eq, find_char}
use sshpad.Text.Search.{Lacks, Lacks-of_find_char}
use sshpad.Config.Host.{SshHost, copy, length-copy, Fits, IsPort}
use sshpad.Config.Fields.{
  Env, has_wildcard, apply_defaults, process_kv, Directive, host_name, user, directive_of,
  apply_directive,
}
use sshpad.Config.Fields.Bounds.{process_kv-Fits, apply_defaults-Fits}
use sshpad.Config.Parser.{
  Parse, Current, global, last_host, Outcome, more, stop, modify_last, close_block, new_host,
  open_block, host_line, to_current, keyword_line, step_line, read_line, run_lines, start,
  parse_text, fgets_all, resume,
}

-- A host that can be handed to the rest of the program.
pub record IsSound (h : SshHost) : Type 0 where
  pub fits : Fits h
  pub has_port : IsPort h.port
  pub no_star : Lacks b'*' h.name
  pub no_question : Lacks b'?' h.name

apply_directive_port :
    (env : Env) (h : SshHost) (d : Directive) (key val : Bytes)
    → IsPort h.port
    → IsPort (apply_directive env h d key val).port
unfolding apply_directive
apply_directive_port env h host_name key val p = p
apply_directive_port env h user key val p = p
apply_directive_port env h _ key val p = ground arith

apply_directive_name :
    (env : Env) (h : SshHost) (d : Directive) (key val : Bytes)
    → (apply_directive env h d key val).name ≡ h.name
unfolding apply_directive
apply_directive_name env h host_name key val = refl
apply_directive_name env h _ key val = ground arith

process_kv-IsSound :
    (env : Env) (key val : Bytes) (h : SshHost) → IsSound h → IsSound (process_kv env h key val)
process_kv-IsSound env key val h s =
    let named : (process_kv env h key val).name ≡ h.name =
      unfold process_kv in apply_directive_name env h (directive_of key) key val in
    record {
      fits = process_kv-Fits env h key val s.fits;
      has_port =
          unfold process_kv in apply_directive_port env h (directive_of key) key val s.has_port;
      no_star = rw named s.no_star;
      no_question = rw named s.no_question;
    }

apply_defaults-IsSound :
    (d : SshHost) → Fits d → (h : SshHost) → IsSound h → IsSound (apply_defaults h d)
apply_defaults-IsSound d fd h s = record {
  fits = apply_defaults-Fits h d s.fits fd;
  has_port = unfold apply_defaults in ground arith;
  no_star = unfold apply_defaults in s.no_star;
  no_question = unfold apply_defaults in s.no_question;
}

not_wild : (c : ℕ) (s : Bytes) → find_char c s ≡ none → Lacks c (copy 128 s)
unfolding copy
not_wild c s e = All-take (λ x. x ≢ c) 127 s (Lacks-of_find_char c s e)

new_host-IsSound : (value : Bytes) → has_wildcard value ≡ false → IsSound (new_host value)
unfolding has_wildcard
new_host-IsSound value plain = record {
  fits = ground (arith, length-copy 128 value, length-copy 256 value);
  has_port = refl;
  no_star = not_wild b'*' value (ground arith);
  no_question = not_wild b'?' value (ground arith);
}

modify_last-All :
    (f : SshHost → SshHost) (hs : List SshHost)
    → ((h : SshHost) → IsSound h → IsSound (f h))
    → All IsSound hs
    → All IsSound (modify_last f hs)
unfolding modify_last
modify_last-All f [] keep s = tt
modify_last-All f (h ∷ []) keep s = (keep h s.0, tt)
modify_last-All f (h ∷ g ∷ hs) keep s = (s.0, modify_last-All f (g ∷ hs) keep s.1)

length-modify_last :
    (f : SshHost → SshHost) (hs : List SshHost) → length (modify_last f hs) ≡ length hs
unfolding modify_last
length-modify_last f [] = refl
length-modify_last f (h ∷ []) = refl
length-modify_last f (h ∷ g ∷ hs) = omega (arith, length-modify_last f (g ∷ hs))

-- The state between two lines: the array has room for the hosts, which are all sound.
pub record IsWf (st : Parse) : Type 0 where
  pub sound : All IsSound st.hosts
  pub defaults_fit : Fits st.defaults
  pub room : length st.hosts ≤ st.capacity
  pub positive : 0 < st.capacity

abbrev pub OutcomeWf : Outcome → Type 0
OutcomeWf (more st) = IsWf st
OutcomeWf (stop hosts) = All IsSound hosts

close_block-All :
    (c : Current) (skip : Bool) (d : SshHost) (hs : List SshHost)
    → Fits d
    → All IsSound hs
    → All IsSound (close_block c skip d hs)
unfolding close_block
close_block-All last_host false d hs f s = modify_last-All _ hs (apply_defaults-IsSound d f) s
close_block-All last_host true d hs f s = s
close_block-All global skip d hs f s = s

length-close_block :
    (c : Current) (skip : Bool) (d : SshHost) (hs : List SshHost)
    → length (close_block c skip d hs) ≡ length hs
unfolding close_block
length-close_block last_host false d hs = length-modify_last _ hs
length-close_block last_host true d hs = refl
length-close_block global skip d hs = refl

open_block-IsWf :
    (st : Parse) (hs : List SshHost) (capacity : ℕ) (value : Bytes)
    → IsWf st
    → All IsSound hs
    → length hs < capacity
    → has_wildcard value ≡ false
    → IsWf (open_block st hs capacity value)
open_block-IsWf st hs capacity value w s room plain = record {
  sound = All-append IsSound hs _ s (new_host-IsSound value plain, tt);
  defaults_fit = w.defaults_fit;
  room = omega (arith, length-append hs (new_host value ∷ []));
  positive = omega arith;
}

host_line-IsWf :
    (grow : ℕ → Bool) (st : Parse) (value : Bytes) → IsWf st → OutcomeWf (host_line grow st value)
unfolding host_line
host_line-IsWf grow st value w =
    let hs = close_block st.current st.skip_current st.defaults st.hosts in
    let closed =
      close_block-All st.current st.skip_current st.defaults st.hosts w.defaults_fit w.sound in
    let count = length-close_block st.current st.skip_current st.defaults st.hosts in
    elim (Bool-cases (has_wildcard value)) [
      | inl wild ↦ rw wild (record {
        sound = closed;
        defaults_fit = w.defaults_fit;
        room = omega (arith, count, w.room);
        positive = w.positive;
      })
      | inr plain ↦ elim (Bool-cases (leb st.capacity (length hs))) [
        | inl full ↦ elim (Bool-cases (grow (st.capacity * 2))) [
          | inl grown ↦
              rw (plain, full, grown)
                (open_block-IsWf st hs (st.capacity * 2) value w closed
                  (omega (arith, count, w.room, w.positive)) plain)
          | inr failed ↦ rw (plain, full, failed) closed
        ]
        | inr free ↦
            rw (plain, free)
              (open_block-IsWf st hs st.capacity value w closed (ground (arith, count)) plain)
      ]
    ]

to_current-IsWf :
    (env : Env) (key val : Bytes) (c : Current) (st : Parse)
    → IsWf st
    → IsWf (to_current (λ h. process_kv env h key val) c st)
unfolding to_current
to_current-IsWf env key val global st w = record {
  sound = w.sound;
  defaults_fit = process_kv-Fits env st.defaults key val w.defaults_fit;
  room = w.room;
  positive = w.positive;
}
to_current-IsWf env key val last_host st w = record {
  sound = modify_last-All _ st.hosts (process_kv-IsSound env key val) w.sound;
  defaults_fit = w.defaults_fit;
  room = omega (arith, length-modify_last (λ h. process_kv env h key val) st.hosts, w.room);
  positive = w.positive;
}

keyword_line-IsWf :
    (env : Env) (grow : ℕ → Bool) (st : Parse) (key val : Bytes)
    → IsWf st
    → OutcomeWf (keyword_line env grow st key val)
unfolding keyword_line
keyword_line-IsWf env grow st key val w = elim (Bool-cases (kw_eq key (codes "Host"))) [
  | inl host ↦ rw host (host_line-IsWf grow st val w)
  | inr other ↦ elim (Bool-cases st.skip_current) [
    | inl skip ↦ rw other (simp skip w)
    | inr keep ↦ rw other (simp keep (to_current-IsWf env key val st.current st w))
  ]
]

-- One line keeps the state well formed: the hosts are sound and never more than the array has room
-- for, the defaults fit, and if the line ends the parse the hosts it returns are sound.
pub step_line-IsWf :
    (env : Env) (grow : ℕ → Bool) (st : Parse) (line : Bytes)
    → IsWf st
    → OutcomeWf (step_line env grow st line)
unfolding step_line
step_line-IsWf env grow st line w = elim (Option-cases (read_line line)) [
  | inl e ↦ rw e w
  | inr (kv, e) ↦ rw e (keyword_line-IsWf env grow st kv.0 kv.1 w)
]

resume-IsSound :
    (loop : Parse → List SshHost) (o : Outcome)
    → ((st : Parse) → IsWf st → All IsSound (loop st))
    → OutcomeWf o
    → All IsSound (resume loop o)
resume-IsSound loop (more st) keep w = keep st w
resume-IsSound loop (stop hosts) keep w = w

run_lines-IsSound :
    (env : Env) (grow : ℕ → Bool) (st : Parse) (ls : List Bytes)
    → IsWf st
    → All IsSound (run_lines env grow st ls)
unfolding run_lines
run_lines-IsSound env grow st [] w =
    close_block-All st.current st.skip_current st.defaults st.hosts w.defaults_fit w.sound
run_lines-IsSound env grow st (l ∷ ls) w =
    resume-IsSound (λ st'. run_lines env grow st' ls) (step_line env grow st l)
      (λ st'. run_lines-IsSound env grow st' ls) (step_line-IsWf env grow st l w)

pub start-IsWf : IsWf start
start-IsWf = omega arith

-- Whatever the file holds, and whenever memory runs out, each host that comes back is sound: every
-- text and array fits, the port is one from 1 to 65535, and the name has no wildcard.
pub parse_text-IsSound :
    (env : Env) (grow : ℕ → Bool) (content : Bytes) → All IsSound (parse_text env grow content)
unfolding parse_text
parse_text-IsSound env grow content =
    run_lines-IsSound env grow start (fgets_all 1023 [] content) start-IsWf
