-- ===== src/Config/Writer/RoundTrip.antt =====
-- Reading back a written configuration.
use sshpad.Prelude.{
  ℕ, Bool, true, List, [], ◌∷◌, ◌++◌, ◌≡◌, refl, ap, ◌∙◌, arith, Bytes, All, codes, and_false,
}
use sshpad.Text.{kw_eq, c_str, cut_line_end, trim, is_space}
use sshpad.Config.Host.{SshHost, zero_host}
use sshpad.Config.Fields.{Env, apply_defaults, merge_options, inherit, is_empty}
use sshpad.Config.Parser.{fgets_all, read_line, split_line, starts_comment, parse_text}
use sshpad.Config.Parser.Blocks.{
  Entry, entries, apply_all, preamble, blocks, build_host, build, read_config,
  parse_text-read_config,
}
use sshpad.Config.Writer.{host_pairs, write_pairs, write_hosts, header, write_text}
use sshpad.Config.Writer.Lines.{IsKeyword, entries_of, entries_of-entry, entries_of-skip}
use sshpad.Config.Writer.Writable.{
  IsWritable, IsGoodPair, host_pairs-Good, check_keyword, check_keyword_sound,
}
use sshpad.Config.Writer.Rebuild.{apply_host_pairs}

entries_of-write_pairs :
    (ps : List Entry) (rest : Bytes)
    → All IsGoodPair ps
    → entries_of (write_pairs ps rest) ≡ ps ++ entries_of rest
unfolding write_pairs is_space
entries_of-write_pairs [] rest good = refl
entries_of-write_pairs ((k, v) ∷ ps) rest good =
    entries_of-entry (codes "    ") k v (write_pairs ps rest) (omega arith)
      (refl, (refl, (refl, (refl, tt)))) (omega arith) good.0.0 good.0.1
    ∙ ap (◌∷◌ (k, v)) (entries_of-write_pairs ps rest good.1)

host_entries : List SshHost → List Entry
host_entries [] = []
host_entries (h ∷ hs) = (codes "Host", h.name) ∷ (host_pairs h ++ host_entries hs)

entries_of-write_hosts :
    (env : Env) (hs : List SshHost)
    → All (IsWritable env) hs
    → entries_of (write_hosts hs) ≡ host_entries hs
unfolding write_hosts host_entries
entries_of-write_hosts env [] w = unfold entries fgets_all is_empty in refl
entries_of-write_hosts env (h ∷ hs) w =
    entries_of-skip [] _ tt (omega arith)
      (unfold read_line c_str cut_line_end trim split_line starts_comment in refl)
    ∙ entries_of-entry [] (codes "Host") h.name (write_pairs (host_pairs h) (write_hosts hs)) tt tt
        (omega arith) host_keyword w.0.name_value
    ∙ ap (◌∷◌ (codes "Host", h.name)) (
        entries_of-write_pairs (host_pairs h) (write_hosts hs) (host_pairs-Good env h w.0)
        ∙ ap (◌++◌ (host_pairs h)) (entries_of-write_hosts env hs w.1))
  where
    host_keyword : IsKeyword (codes "Host")
    host_keyword = unfold check_keyword in check_keyword_sound (codes "Host") refl

entries_of-header : (rest : Bytes) → entries_of (header ++ 10 ∷ rest) ≡ entries_of rest
unfolding read_line split_line starts_comment c_str cut_line_end trim
entries_of-header rest = entries_of-skip header rest (omega arith) (omega arith) refl

preamble-host_entries : (hs : List SshHost) → preamble (host_entries hs) ≡ []
unfolding preamble host_entries kw_eq
preamble-host_entries [] = refl
preamble-host_entries (h ∷ hs) = refl

preamble-pairs :
    (ps : List Entry) (hs : List SshHost)
    → All IsGoodPair ps
    → preamble (ps ++ host_entries hs) ≡ ps
unfolding preamble
preamble-pairs [] hs good = preamble-host_entries hs
preamble-pairs ((k, v) ∷ ps) hs good = rw good.0.2 (ap (◌∷◌ (k, v)) (preamble-pairs ps hs good.1))

blocks-pairs :
    (ps : List Entry) (es : List Entry) → All IsGoodPair ps → blocks (ps ++ es) ≡ blocks es
unfolding blocks
blocks-pairs [] es good = refl
blocks-pairs ((k, v) ∷ ps) es good = rw good.0.2 (blocks-pairs ps es good.1)

apply_defaults-zero_host : (h : SshHost) → apply_defaults h zero_host ≡ h
unfolding apply_defaults merge_options inherit is_empty
apply_defaults-zero_host h = simp and_false

build-host_entries :
    (env : Env) (hs : List SshHost)
    → All (IsWritable env) hs
    → build env zero_host (blocks (host_entries hs)) ≡ hs
unfolding host_entries blocks kw_eq build build_host
build-host_entries env [] w = refl
build-host_entries env (h ∷ hs) w =
    rw
      (
        w.0.name_plain,
        preamble-pairs (host_pairs h) hs (host_pairs-Good env h w.0),
        blocks-pairs (host_pairs h) (host_entries hs) (host_pairs-Good env h w.0),
        apply_host_pairs env h w.0,
        apply_defaults-zero_host h,
      )
      (ap (◌∷◌ h) (build-host_entries env hs w.1))

-- What the writer writes, the parser reads back: the same hosts, in the same order, with every
-- field, rule and option, if memory suffices and each host is one that its block can express
-- (IsWritable).
pub parse_text-write_text :
    (env : Env) (grow : ℕ → Bool) (hosts : List SshHost)
    → ((n : ℕ) → grow n ≡ true)
    → All (IsWritable env) hosts
    → parse_text env grow (write_text hosts) ≡ hosts
unfolding write_text
parse_text-write_text env grow hosts grows w =
    parse_text-read_config env grow grows (header ++ 10 ∷ write_hosts hosts)
    ∙ ap (read_config env)
        (entries_of-header (write_hosts hosts) ∙ entries_of-write_hosts env hosts w)
    ∙ unfold read_config apply_all in rw preamble-host_entries (build-host_entries env hosts w)
