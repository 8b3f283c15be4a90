-- ===== src/Config/Writer/Rebuild.antt =====
-- Applying the lines of a written host to a fresh host.
use sshpad.Prelude.{List, [], ◌∷◌, ◌++◌, ◌≡◌, refl, ◌≢◌, ap, ap₂, ◌∙◌, arith, Bytes, pos}
use sshpad.Config.Host.{SshHost, zero_host, copy_fits}
use sshpad.Config.Fields.{Env}
use sshpad.Config.Parser.{new_host}
use sshpad.Config.Parser.Blocks.{Entry, apply_all}
use sshpad.Config.Writer.{host_pairs}
use sshpad.Config.Writer.Lines.{IsValue}
use sshpad.Config.Writer.Writable.{IsWritable}
use sshpad.Config.Writer.Replay.{
  apply_all-append, apply_hostname, apply_user, apply_port, apply_identity, apply_proxy,
  apply_local, apply_remote, apply_dynamic, apply_options,
}

apply_then :
    (env : Env) (g g' k : SshHost) (es rest : List Entry)
    → apply_all env g es ≡ g'
    → apply_all env g' rest ≡ k
    → apply_all env g (es ++ rest) ≡ k
apply_then env g g' k es rest p q =
    apply_all-append env g es rest ∙ ap (λ x. apply_all env x rest) p ∙ q

IsValue-ne-nil : (v : Bytes) → IsValue v → v ≢ []
IsValue-ne-nil [] iv e = absurd iv.starts
IsValue-ne-nil (c ∷ v) iv e = cc

module _ (env : Env) (h : SshHost) (w : IsWritable env h) where
  abbrev named : SshHost
  named = record zero_host { name = h.name; hostname = h.name; port = pos 22 }

  new_host-named : new_host h.name ≡ named
  new_host-named =
      ap₂ (λ x y. record zero_host { name = x; hostname = y; port = pos 22 })
        (copy_fits 128 h.name w.name_fits) (copy_fits 256 h.name (omega (arith, w.name_fits)))

  abbrev with_hostname : SshHost
  with_hostname = record named { hostname = h.hostname }

  abbrev with_user : SshHost
  with_user = record with_hostname { user = h.user }

  abbrev with_port : SshHost
  with_port = record with_user { port = h.port }

  abbrev with_identity : SshHost
  with_identity = record with_port { identity_file = h.identity_file }

  abbrev with_proxy : SshHost
  with_proxy = record with_identity { proxy_jump = h.proxy_jump }

  abbrev with_local : SshHost
  with_local = record with_proxy { local_forward = h.local_forward }

  abbrev with_remote : SshHost
  with_remote = record with_local { remote_forward = h.remote_forward }

  abbrev with_dynamic : SshHost
  with_dynamic = record with_remote { dynamic_forward = h.dynamic_forward }

  pub apply_host_pairs : apply_all env (new_host h.name) (host_pairs h) ≡ h
  unfolding host_pairs
  apply_host_pairs = rw new_host-named (
      apply_then env named with_hostname h _ _
        (apply_hostname env named h.name h.hostname refl
          (IsValue-ne-nil h.hostname w.hostname_value) w.hostname_fits)
        (apply_then env with_hostname with_user h _ _
          (apply_user env with_hostname h.user refl w.user_fits)
          (apply_then env with_user with_port h _ _ (apply_port env with_user h.port refl w.is_port)
            (apply_then env with_port with_identity h _ _
              (apply_identity env with_port h.identity_file refl w.identity_plain)
              (apply_then env with_identity with_proxy h _ _
                (apply_proxy env with_identity h.proxy_jump refl w.proxy_fits)
                (apply_then env with_proxy with_local h _ _
                  (apply_local env with_proxy h.local_forward w.local_rules
                    (omega (arith, w.local_count)))
                  (apply_then env with_local with_remote h _ _
                    (apply_remote env with_local h.remote_forward w.remote_rules
                      (omega (arith, w.remote_count)))
                    (apply_then env with_remote with_dynamic h _ _
                      (apply_dynamic env with_remote h.dynamic_forward w.dynamic_rules
                        (omega (arith, w.dynamic_count)))
                      (apply_options env with_dynamic h.options w.option_rules
                        (omega (arith, w.option_count)))))))))))
