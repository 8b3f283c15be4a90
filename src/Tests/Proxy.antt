-- ===== src/Tests/Proxy.antt =====
-- src/local_proxy.c at a concrete input.
use sshpad.Prelude.{
  ℕ, ◌<◌, Bytes, ◌+◌, some, List, [], ◌∷◌, ◌++◌, ◌≡◌, refl, arith, codes, pos, total, leb,
}
use sshpad.Text.{kw_eq, to_lower, find_text, starts_with, c_str}
use sshpad.Proxy.{Vhost, ok, set_context, sni_callback}
use sshpad.Proxy.Entries.{
  entries_header, entries_size, prints, all_inside, line_has, entry_text, entry_texts, missing,
  skip_blank, byte_before, byte_after, host_entry_exists, any_line, append_entries,
}
use sshpad.Proxy.Entries.Found.{IsEntry, append_entries-missing}
use sshpad.Config.Writer.Lines.{LineByte}
use sshpad.Output.{wrote}
use sshpad.Config.Parser.{fgets_all}
use sshpad.Config.Fields.{is_empty}
use sshpad.Proxy.Entries.Bounds.{all_inside-prints}

abbrev pub vhosts : List Vhost
vhosts =
    record { hostname = codes "a.local"; backend_port = pos 8080; ssl_ctx = 1 }
    ∷ record { hostname = codes "b.local"; backend_port = pos 9090; ssl_ctx = 2 }
    ∷ []

b_chosen : sni_callback vhosts (some (codes "B.local")) ≡ ok 2
unfolding sni_callback set_context kw_eq to_lower
b_chosen = refl

all_inside-prints_example :
    all_inside
      (prints 0 ((entries_header ∷ codes "127.0.0.1 web\n" ∷ []) ++ codes "127.0.0.1 db\n" ∷ []))
    ≡ leb (0 + total (entries_header ∷ codes "127.0.0.1 web\n" ∷ [])) entries_size
all_inside-prints_example =
    all_inside-prints 0 (entries_header ∷ codes "127.0.0.1 web\n" ∷ []) (codes "127.0.0.1 db\n")
      (omega arith)

abbrev hosts_text : Bytes
hosts_text = codes "127.0.0.1 localhost"

abbrev new_entry : Bytes
new_entry = codes "\n# --- SSHPad managed entries ---\n127.0.0.1 web\n"

web-IsEntry : IsEntry (codes "web")
unfolding line_has entry_text find_text starts_with skip_blank byte_before byte_after
web-IsEntry =
    let plain : (c : ℕ) → 13 < c → LineByte c =
      λ c h. (λ e. omega (arith, e), λ e. omega (arith, e), λ e. omega (arith, e)) in
    record {
      bytes = (plain 119 (omega arith), (plain 101 (omega arith), (plain 98 (omega arith), tt)));
      short = omega arith;
      recognised = refl;
    }

append_entries-missing_example :
    missing (some (hosts_text ++ new_entry)) (missing (some hosts_text) (codes "web" ∷ [])) ≡ []
unfolding append_entries entry_texts missing host_entry_exists any_line fgets_all is_empty line_has
    skip_blank c_str find_text entry_text
append_entries-missing_example =
    append_entries-missing hosts_text new_entry (codes "web" ∷ []) (wrote 900 ∷ [])
      (some (hosts_text ++ new_entry)) (web-IsEntry, tt) (omega arith) refl refl
