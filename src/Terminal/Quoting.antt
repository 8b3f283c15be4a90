-- ===== src/Terminal/Quoting.antt =====
-- A host name does not get out of the quotes of the command.
use sshpad.Prelude.{
  ℕ, suc, ◌+◌, ◌<◌, ◌≤◌, Bool, true, not, ◌||◌, Option, none, some, List, [], ◌∷◌, ◌++◌, ◌≡◌, refl,
  sym, ap, ◌∙◌, inl, inr, arith, ◌==◌, if◌then◌else◌, Bytes, codes, All, length, length-append,
  get_elem?, Bool-cases,
}
use sshpad.Text.{is_alnum}
use sshpad.Config.Host.{copy, copy_fits}
use sshpad.Config.Fields.{is_empty}
use sshpad.Tunnels.{is_valid_host_alias, all_alias_bytes}
use sshpad.Terminal.{
  Terminal, terminals, ssh_cmd, which_cmd, full_cmd, forked, launch_first, launch_terminal_with_ssh,
}

unfoldable pub is_special : ℕ → Bool
unfolding is_alnum
is_special c = not (is_alnum c || c == b'-' || c == b'_' || c == b'.' || c == b' ')

-- The bytes of a command that can mean something to a shell, in order.
unfoldable pub specials : Bytes → Bytes
unfolding is_special
specials [] = []
specials (c ∷ cs) = if is_special c then c ∷ specials cs else specials cs

specials-append : (xs ys : Bytes) → specials (xs ++ ys) ≡ specials xs ++ specials ys
unfolding specials
specials-append [] ys = refl
specials-append (c ∷ cs) ys = ground (arith, specials-append cs ys)

specials-alias : (name : Bytes) → all_alias_bytes name ≡ true → specials name ≡ []
unfolding specials all_alias_bytes
specials-alias [] h = refl
specials-alias (c ∷ cs) h = ground (arith, specials-alias cs)

-- The command is the one of a terminal of the table, with `ssh` and the name in the place of `%s`.
pub record Runs (name cmd : Bytes) (ts : List Terminal) : Type 0 where
  pub index : ℕ
  pub terminal : Terminal
  pub found : get_elem? ts index ≡ some terminal
  pub whole : cmd ≡ terminal.before ++ ((codes "ssh " ++ name) ++ terminal.after)
  pub same : specials cmd ≡ specials (terminal.before ++ terminal.after)

-- A format of the table fits its buffer with the longest ssh_cmd.
abbrev FitsTemplate : Terminal → Type 0
FitsTemplate t = length t.before + length t.after ≤ 700

terminals_fit : All FitsTemplate terminals
unfolding terminals
terminals_fit = (
  omega arith,
  (
    omega arith,
    (omega arith, (omega arith, (omega arith, (omega arith, (omega arith, (omega arith, tt)))))),
  ),
)

ssh_cmd_whole : (name : Bytes) → length name < 252 → ssh_cmd name ≡ codes "ssh " ++ name
unfolding ssh_cmd
ssh_cmd_whole name short = copy_fits 256 (codes "ssh " ++ name) (omega arith)

full_cmd_whole :
    (t : Terminal) (name : Bytes)
    → FitsTemplate t
    → length name < 252
    → full_cmd t name ≡ t.before ++ ((codes "ssh " ++ name) ++ t.after)
unfolding full_cmd
full_cmd_whole t name fits short =
    ap (λ x. copy 1024 (t.before ++ (x ++ t.after))) (ssh_cmd_whole name short)
    ∙ copy_fits 1024 _ (
        omega (
          arith,
          length-append t.before ((codes "ssh " ++ name) ++ t.after),
          length-append name t.after,
        ))

full_cmd_same :
    (t : Terminal) (name : Bytes)
    → all_alias_bytes name ≡ true
    → specials (t.before ++ ((codes "ssh " ++ name) ++ t.after)) ≡ specials (t.before ++ t.after)
unfolding specials
full_cmd_same t name alias =
    specials-append t.before ((codes "ssh " ++ name) ++ t.after)
    ∙ ap (◌++◌ (specials t.before)) (
        specials-append name t.after
        ∙ ap (λ xs. xs ++ specials t.after) (specials-alias name alias))
    ∙ sym (specials-append t.before t.after)

forked_cmd :
    (fork : Option ℕ) (text cmd : Bytes) (pid : ℕ) → forked fork text ≡ some (pid, cmd) → cmd ≡ text
forked_cmd none text cmd pid e = cc
forked_cmd (some p) text cmd pid e = cc

Runs-next :
    {name cmd : Bytes} {t : Terminal} {ts : List Terminal}
    → Runs name cmd ts
    → Runs name cmd (t ∷ ts)
Runs-next r = record {
  index = suc r.index;
  terminal = r.terminal;
  found = r.found;
  whole = r.whole;
  same = r.same;
}

launch_first-Runs :
    (available : Bytes → Bool) (fork : Option ℕ) (name cmd : Bytes) (pid : ℕ) (ts : List Terminal)
    → All FitsTemplate ts
    → length name < 252
    → all_alias_bytes name ≡ true
    → launch_first available fork name ts ≡ some (pid, cmd)
    → Runs name cmd ts
unfolding launch_first
launch_first-Runs available fork name cmd pid [] fit short alias e = cc
launch_first-Runs available fork name cmd pid (t ∷ ts) fit short alias e =
    elim (Bool-cases (available (which_cmd t))) [
      | inl here ↦
          let made : cmd ≡ full_cmd t name =
            forked_cmd fork (full_cmd t name) cmd pid (rw here at e) in
          let whole = made ∙ full_cmd_whole t name fit.0 short in
          record {
            index = 0;
            terminal = t;
            found = refl;
            whole = whole;
            same = ap specials whole ∙ full_cmd_same t name alias;
          }
      | inr missing ↦
          Runs-next
            (launch_first-Runs available fork name cmd pid ts fit.1 short alias (rw missing at e))
    ]

-- For a name that is_valid_host_alias accepts, of less than 252 bytes, the shell is given the command of
-- a terminal of the table with `ssh` and the whole name in it, and the bytes that mean something to
-- a shell are those of the table alone.
pub launch_terminal-Runs :
    (available : Bytes → Bool) (fork : Option ℕ) (name cmd : Bytes) (pid : ℕ)
    → is_valid_host_alias name ≡ true
    → length name < 252
    → launch_terminal_with_ssh available fork (some name) ≡ some (pid, cmd)
    → Runs name cmd terminals
unfolding launch_terminal_with_ssh is_valid_host_alias all_alias_bytes is_empty
launch_terminal-Runs available fork [] cmd pid alias short e = cc
launch_terminal-Runs available fork (c ∷ cs) cmd pid alias short e =
    launch_first-Runs available fork (c ∷ cs) cmd pid terminals terminals_fit short alias e
