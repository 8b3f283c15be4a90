-- ===== src/Config/Parser/Blocks.antt =====
-- The loop with its pointer and its flag against a reading of the file in two steps: the lines are
-- cut into the directives before the first Host line and one block for each Host line, and each
-- block without wildcards is built on its own.
use mathlib.Core.Path.{fun_ext}
use sshpad.Prelude.{
  ℕ, ◌*◌, Bool, true, false, Option, none, some, List, [], ◌∷◌, ◌++◌, ◌≡◌, refl, sym, ap, ◌∙◌,
  if◌then◌else◌, Bytes, leb, length, Bool-cases, Option-cases, inl, inr, codes, append_assoc,
  append-nil,
}
use sshpad.Text.{kw_eq}
use sshpad.Config.Host.{SshHost, zero_host}
use sshpad.Config.Fields.{Env, has_wildcard, apply_defaults, process_kv}
use sshpad.Config.Parser.{
  Parse, global, last_host, more, modify_last, close_block, new_host, host_line, to_current,
  keyword_line, step_line, read_line, finish, run_lines, start, parse_text, fgets_all, resume,
}

-- A keyword and its value.
abbrev pub Entry : Type 0
Entry = Bytes × Bytes

abbrev keep_entry : Option Entry → List Entry → List Entry
keep_entry none es = es
keep_entry (some e) es = e ∷ es

-- The lines that say something.
unfoldable pub entries : List Bytes → List Entry
entries [] = []
entries (l ∷ ls) = keep_entry (read_line l) (entries ls)

abbrev pub is_host : Bytes → Bool
is_host key = kw_eq key (codes "Host")

-- What stands before the first Host line.
unfoldable pub preamble : List Entry → List Entry
preamble [] = []
preamble ((key, val) ∷ es) = if is_host key then [] else (key, val) ∷ preamble es

-- The value of each Host line with the directives up to the next one.
unfoldable pub blocks : List Entry → List (Bytes × List Entry)
blocks [] = []
blocks ((key, val) ∷ es) = if is_host key then (val, preamble es) ∷ blocks es else blocks es

unfoldable pub apply_all : Env → SshHost → List Entry → SshHost
apply_all env h [] = h
apply_all env h ((key, val) ∷ es) = apply_all env (process_kv env h key val) es

unfoldable pub build_host : Env → SshHost → Bytes → List Entry → SshHost
build_host env defaults value body = apply_defaults (apply_all env (new_host value) body) defaults

unfoldable pub build : Env → SshHost → List (Bytes × List Entry) → List SshHost
build env defaults [] = []
build env defaults ((value, body) ∷ bs) =
    if has_wildcard value
    then build env defaults bs
    else build_host env defaults value body ∷ build env defaults bs

unfoldable pub read_config : Env → List Entry → List SshHost
read_config env es = build env (apply_all env zero_host (preamble es)) (blocks es)

modify_last-append :
    (f : SshHost → SshHost) (hs : List SshHost) (h : SshHost)
    → modify_last f (hs ++ h ∷ []) ≡ hs ++ f h ∷ []
unfolding modify_last
modify_last-append f [] h = refl
modify_last-append f (g ∷ []) h = refl
modify_last-append f (g ∷ k ∷ hs) h = ap (◌∷◌ g) (modify_last-append f (k ∷ hs) h)

-- The loop over the entries.
unfoldable pub run_entries : Env → (ℕ → Bool) → Parse → List Entry → List SshHost
run_entries env grow st [] = finish st
run_entries env grow st ((key, val) ∷ es) =
    resume (λ st'. run_entries env grow st' es) (keyword_line env grow st key val)

run_lines-entries :
    (env : Env) (grow : ℕ → Bool) (ls : List Bytes) (st : Parse)
    → run_lines env grow st ls ≡ run_entries env grow st (entries ls)
unfolding run_lines step_line entries run_entries
run_lines-entries env grow [] st = refl
run_lines-entries env grow (l ∷ ls) st = elim (Option-cases (read_line l)) [
  | inl e ↦ rw e (run_lines-entries env grow ls st)
  | inr (kv, e) ↦ rw e (
      ap (λ loop. resume loop (keyword_line env grow st kv.0 kv.1))
        (fun_ext (run_lines-entries env grow ls)))
]

abbrev opened : List SshHost → SshHost → ℕ → SshHost → Parse
opened done h capacity d = record {
  hosts = done ++ h ∷ [];
  capacity = capacity;
  defaults = d;
  current = last_host;
  skip_current = false;
}

abbrev closed : List SshHost → ℕ → SshHost → Bool → Parse
closed done capacity d skip = record {
  hosts = done;
  capacity = capacity;
  defaults = d;
  current = global;
  skip_current = skip;
}

-- With memory for every host.
module _ (env : Env) (grow : ℕ → Bool) (grows : (n : ℕ) → grow n ≡ true) where
  -- The loop from an open block, and from a block that is skipped.
  abbrev Agrees : SshHost → List Entry → Type 0
  Agrees d es =
      ((done : List SshHost) (h : SshHost) (capacity : ℕ)
        → run_entries env grow (opened done h capacity d) es
          ≡ done ++ (apply_defaults (apply_all env h (preamble es)) d ∷ build env d (blocks es)))
      × ((done : List SshHost) (capacity : ℕ)
          → run_entries env grow (closed done capacity d true) es ≡ done ++ build env d (blocks es))

  host_line_opens :
      (st : Parse) (val : Bytes)
      → has_wildcard val ≡ false
      → (capacity : ℕ) × (host_line grow st val
          ≡ more (
              opened
                (close_block st.current st.skip_current st.defaults st.hosts)
                (new_host val)
                capacity
                st.defaults))
  unfolding host_line
  host_line_opens st val plain =
      let hs = close_block st.current st.skip_current st.defaults st.hosts in
      elim (Bool-cases (leb st.capacity (length hs))) [
        | inl full ↦ (st.capacity * 2, rw (plain, full, grows (st.capacity * 2)))
        | inr free ↦ (st.capacity, rw (plain, free))
      ]

  host_line_skips :
      (st : Parse) (val : Bytes)
      → has_wildcard val ≡ true
      → host_line grow st val
        ≡ more (
            closed
              (close_block st.current st.skip_current st.defaults st.hosts)
              st.capacity
              st.defaults
              true)
  unfolding host_line
  host_line_skips st val wild = rw wild

  host_step :
      (st : Parse) (val : Bytes) (es : List Entry)
      → Agrees st.defaults es
      → resume (λ st'. run_entries env grow st' es) (host_line grow st val)
        ≡ close_block st.current st.skip_current st.defaults st.hosts
          ++ build env st.defaults ((val, preamble es) ∷ blocks es)
  unfolding build
  host_step st val es (from_open, from_skip) = elim (Bool-cases (has_wildcard val)) [
    | inl wild ↦ rw (wild, host_line_skips st val wild) (from_skip _ st.capacity)
    | inr plain ↦
        let (capacity, e) = host_line_opens st val plain in
        rw (plain, e) (unfold build_host in from_open _ (new_host val) capacity)
  ]

  open_entry :
      (key val : Bytes) (done : List SshHost) (h : SshHost) (capacity : ℕ) (d : SshHost)
      → is_host key ≡ false
      → keyword_line env grow (opened done h capacity d) key val
        ≡ more (opened done (process_kv env h key val) capacity d)
  unfolding keyword_line to_current
  open_entry key val done h capacity d other = rw other (
      ap
        (λ hs. more (record {
          hosts = hs;
          capacity = capacity;
          defaults = d;
          current = last_host;
          skip_current = false;
        }))
        (modify_last-append (λ g. process_kv env g key val) done h))

  skip_entry :
      (key val : Bytes) (done : List SshHost) (capacity : ℕ) (d : SshHost)
      → is_host key ≡ false
      → keyword_line env grow (closed done capacity d true) key val
        ≡ more (closed done capacity d true)
  unfolding keyword_line
  skip_entry key val done capacity d other = rw other

  global_entry :
      (key val : Bytes) (capacity : ℕ) (d : SshHost)
      → is_host key ≡ false
      → keyword_line env grow (closed [] capacity d false) key val
        ≡ more (closed [] capacity (process_kv env d key val) false)
  unfolding keyword_line to_current
  global_entry key val capacity d other = rw other

  host_entry :
      (st : Parse) (key val : Bytes)
      → is_host key ≡ true
      → keyword_line env grow st key val ≡ host_line grow st val
  unfolding keyword_line
  host_entry st key val host = rw host

  close_open :
      (done : List SshHost) (h d : SshHost) (rest : List SshHost)
      → close_block last_host false d (done ++ h ∷ []) ++ rest ≡ done ++ (apply_defaults h d ∷ rest)
  unfolding close_block
  close_open done h d rest =
      rw modify_last-append (append_assoc done (apply_defaults h d ∷ []) rest)

  entries-Agrees : (d : SshHost) (es : List Entry) → Agrees d es
  unfolding run_entries preamble blocks apply_all build close_block
  entries-Agrees d [] = (
    λ done h capacity. sym (append-nil _) ∙ close_open done h d [],
    λ done capacity. sym (append-nil done),
  )
  entries-Agrees d ((key, val) ∷ es) = elim (Bool-cases (is_host key)) [
    | inl host ↦ (
      λ done h capacity.
          rw (host, host_entry (opened done h capacity d) key val host)
            (host_step (opened done h capacity d) val es (entries-Agrees d es)
              ∙ close_open done h d _),
      λ done capacity.
          rw (host, host_entry (closed done capacity d true) key val host)
            (host_step (closed done capacity d true) val es (entries-Agrees d es)),
    )
    | inr other ↦ (
      λ done h capacity.
          rw (other, open_entry key val done h capacity d other)
            ((entries-Agrees d es).0 done (process_kv env h key val) capacity),
      λ done capacity.
          rw (other, skip_entry key val done capacity d other)
            ((entries-Agrees d es).1 done capacity),
    )
  ]

  run_preamble :
      (es : List Entry) (d : SshHost) (capacity : ℕ)
      → run_entries env grow (closed [] capacity d false) es
        ≡ build env (apply_all env d (preamble es)) (blocks es)
  unfolding run_entries preamble blocks apply_all build close_block
  run_preamble [] d capacity = refl
  run_preamble ((key, val) ∷ es) d capacity = elim (Bool-cases (is_host key)) [
    | inl host ↦
        rw (host, host_entry (closed [] capacity d false) key val host)
          (host_step (closed [] capacity d false) val es (entries-Agrees d es))
    | inr other ↦
        rw (other, global_entry key val capacity d other)
          (run_preamble es (process_kv env d key val) capacity)
  ]

  -- With memory for every host, the loop returns one host for each block without wildcards, in the
  -- order of the file, built from its own directives and then from the defaults, which are the
  -- directives before the first Host line.
  pub parse_text-read_config :
      (content : Bytes)
      → parse_text env grow content ≡ read_config env (entries (fgets_all 1023 [] content))
  unfolding parse_text read_config
  parse_text-read_config content =
      run_lines-entries env grow (fgets_all 1023 [] content) start
      ∙ run_preamble (entries (fgets_all 1023 [] content)) zero_host 8
