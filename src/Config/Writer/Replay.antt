-- ===== src/Config/Writer/Replay.antt =====
-- The directives of a written host, applied in order, give the host back, field by field.
use sshpad.Prelude.{
  ◌+◌, ◌<◌, ◌≤◌, true, false, not, ◌&&◌, List, [], ◌∷◌, ◌++◌, ◌≡◌, refl, ◌≢◌, sym, ap, ◌∙◌, inl,
  inr, arith, Bytes, All, length, length-append, append_assoc, append-nil, codes, Bool-cases, ℤ,
  pos, negsuc, lt→ltb, str_eq, str_eq_iff,
}
use sshpad.Text.{kw_eq, atoi, print_int}
use sshpad.Config.Host.{
  ForwardRule, DynamicRule, SshOption, SshHost, copy_fits, FitsOption, IsPort, max_forwards,
  max_options,
}
use sshpad.Config.Fields.{
  Env, expand_tilde, is_empty, process_kv, directive_of, apply_directive, generic, set_port,
  add_forward, add_option,
}
use sshpad.Config.Parser.Blocks.{Entry, apply_all, is_host}
use sshpad.Config.Writer.{
  forward_text, dynamic_text, is_default_port, written_if, forward_pairs, dynamic_pairs,
  option_pairs,
}
use sshpad.Config.Writer.Lines.{IsKeyword, IsValue}
use sshpad.Config.Writer.Forwards.{
  IsWritableForward, IsWritableDynamic, parse_forward-text, parse_dynamic-text, atoi-port,
}

-- An option that reads back as an option.
pub record IsWritableOption (o : SshOption) : Type 0 where
  pub fits : FitsOption o
  pub keyword : IsKeyword o.key
  pub value_text : IsValue o.value
  pub is_generic : directive_of o.key ≡ generic
  pub not_host : is_host o.key ≡ false

pub apply_all-append :
    (env : Env) (h : SshHost) (es fs : List Entry)
    → apply_all env h (es ++ fs) ≡ apply_all env (apply_all env h es) fs
unfolding apply_all
apply_all-append env h [] fs = refl
apply_all-append env h ((k, v) ∷ es) fs = apply_all-append env (process_kv env h k v) es fs

module _ (env : Env) (h : SshHost) where
  pub apply_hostname :
      (name v : Bytes)
      → h.hostname ≡ name
      → v ≢ []
      → length v < 256
      → apply_all env h (written_if (not (is_empty v) && not (str_eq v name)) (codes "HostName") v)
        ≡ record h { hostname = v }
  unfolding apply_all written_if is_empty process_kv directive_of apply_directive kw_eq
  apply_hostname name [] e ne fits = absurd (ne refl)
  apply_hostname name (c ∷ v) e ne fits = elim (Bool-cases (str_eq (c ∷ v) name)) [
    | inl same ↦
        rw same (ap (λ x. record h { hostname = x }) (e ∙ sym ((str_eq_iff (c ∷ v) name).0 same)))
    | inr other ↦ rw other (ap (λ x. record h { hostname = x }) (copy_fits 256 (c ∷ v) fits))
  ]

  pub apply_user :
      (v : Bytes)
      → h.user ≡ []
      → length v < 64
      → apply_all env h (written_if (not (is_empty v)) (codes "User") v) ≡ record h { user = v }
  unfolding apply_all written_if is_empty process_kv directive_of apply_directive kw_eq
  apply_user [] e fits = ap (λ x. record h { user = x }) e
  apply_user (c ∷ v) e fits = ap (λ x. record h { user = x }) (copy_fits 64 (c ∷ v) fits)

  set_port-IsPort : (p q : ℤ) → IsPort p → q ≡ p → set_port h q ≡ record h { port = p }
  unfolding set_port
  set_port-IsPort p q port e = ground arith

  pub apply_port :
      (p : ℤ)
      → h.port ≡ pos 22
      → IsPort p
      → apply_all env h (written_if (not (is_default_port p)) (codes "Port") (print_int p))
        ≡ record h { port = p }
  unfolding apply_all written_if process_kv directive_of apply_directive kw_eq
  apply_port p e port = elim (Bool-cases (is_default_port p)) [
    | inl default ↦ rw default (ap (λ x. record h { port = x }) (e ∙ default_port p default port))
    | inr other ↦ rw other (set_port-IsPort p (atoi (print_int p)) port (atoi-port p port))
  ]
    where
      default_port : (p : ℤ) → is_default_port p ≡ true → IsPort p → pos 22 ≡ p
      default_port (pos n) d port = unfold is_default_port in ground arith
      default_port (negsuc n) d port = cc

  pub apply_identity :
      (v : Bytes)
      → h.identity_file ≡ []
      → expand_tilde env 512 v ≡ v
      → apply_all env h (written_if (not (is_empty v)) (codes "IdentityFile") v)
        ≡ record h { identity_file = v }
  unfolding apply_all written_if is_empty process_kv directive_of apply_directive kw_eq
  apply_identity [] e plain = ap (λ x. record h { identity_file = x }) e
  apply_identity (c ∷ v) e plain = ap (λ x. record h { identity_file = x }) plain

  pub apply_proxy :
      (v : Bytes)
      → h.proxy_jump ≡ []
      → length v < 128
      → apply_all env h (written_if (not (is_empty v)) (codes "ProxyJump") v)
        ≡ record h { proxy_jump = v }
  unfolding apply_all written_if is_empty process_kv directive_of apply_directive kw_eq
  apply_proxy [] e fits = ap (λ x. record h { proxy_jump = x }) e
  apply_proxy (c ∷ v) e fits = ap (λ x. record h { proxy_jump = x }) (copy_fits 128 (c ∷ v) fits)

snoc_assoc {ℓ} :
    {A : Type ℓ} (xs : List A) (y : A) (ys : List A) → (xs ++ y ∷ []) ++ ys ≡ xs ++ y ∷ ys
snoc_assoc xs y ys = append_assoc xs (y ∷ []) ys

-- One more directive, whose effect is known.
apply_all-cons :
    (env : Env) (h g : SshHost) (key val : Bytes) (es : List Entry)
    → process_kv env h key val ≡ g
    → apply_all env h ((key, val) ∷ es) ≡ apply_all env g es
unfolding apply_all
apply_all-cons env h g key val es e = ap (λ x. apply_all env x es) e

apply_all-nil : (env : Env) (h : SshHost) → apply_all env h [] ≡ h
unfolding apply_all
apply_all-nil env h = refl

module _ (env : Env) (h : SshHost) where
  add_local :
      (r : ForwardRule)
      → IsWritableForward r
      → length h.local_forward < max_forwards
      → process_kv env h (codes "LocalForward") (forward_text r)
        ≡ record h { local_forward = h.local_forward ++ r ∷ [] }
  unfolding process_kv directive_of apply_directive kw_eq add_forward
  add_local r w room =
      rw (lt→ltb (length h.local_forward) max_forwards room, parse_forward-text r w)

  add_remote :
      (r : ForwardRule)
      → IsWritableForward r
      → length h.remote_forward < max_forwards
      → process_kv env h (codes "RemoteForward") (forward_text r)
        ≡ record h { remote_forward = h.remote_forward ++ r ∷ [] }
  unfolding process_kv directive_of apply_directive kw_eq add_forward
  add_remote r w room =
      rw (lt→ltb (length h.remote_forward) max_forwards room, parse_forward-text r w)

  add_dynamic :
      (r : DynamicRule)
      → IsWritableDynamic r
      → length h.dynamic_forward < max_forwards
      → process_kv env h (codes "DynamicForward") (dynamic_text r)
        ≡ record h { dynamic_forward = h.dynamic_forward ++ r ∷ [] }
  unfolding process_kv directive_of apply_directive kw_eq
  add_dynamic r w room =
      rw (lt→ltb (length h.dynamic_forward) max_forwards room, parse_dynamic-text r w)

  add_generic :
      (o : SshOption)
      → IsWritableOption o
      → length h.options < max_options
      → process_kv env h o.key o.value ≡ record h { options = h.options ++ o ∷ [] }
  unfolding process_kv apply_directive add_option
  add_generic o w room = rw (
    w.is_generic,
    lt→ltb (length h.options) max_options room,
    copy_fits 64 o.key w.fits.key_fits,
    copy_fits 256 o.value w.fits.value_fits,
  )

pub apply_local :
    (env : Env) (h : SshHost) (rs : List ForwardRule)
    → All IsWritableForward rs
    → length h.local_forward + length rs ≤ max_forwards
    → apply_all env h (forward_pairs (codes "LocalForward") rs)
      ≡ record h { local_forward = h.local_forward ++ rs }
unfolding forward_pairs
apply_local env h [] w room =
    apply_all-nil env h
    ∙ ap (λ x. record h { local_forward = x }) (sym (append-nil h.local_forward))
apply_local env h (r ∷ rs) w room =
    let g = record h { local_forward = h.local_forward ++ r ∷ [] } in
    apply_all-cons env h g _ _ _ (add_local env h r w.0 (omega arith))
    ∙ apply_local env g rs w.1 (omega (arith, length-append h.local_forward (r ∷ [])))
    ∙ ap (λ x. record h { local_forward = x }) (snoc_assoc h.local_forward r rs)

pub apply_remote :
    (env : Env) (h : SshHost) (rs : List ForwardRule)
    → All IsWritableForward rs
    → length h.remote_forward + length rs ≤ max_forwards
    → apply_all env h (forward_pairs (codes "RemoteForward") rs)
      ≡ record h { remote_forward = h.remote_forward ++ rs }
unfolding forward_pairs
apply_remote env h [] w room =
    apply_all-nil env h
    ∙ ap (λ x. record h { remote_forward = x }) (sym (append-nil h.remote_forward))
apply_remote env h (r ∷ rs) w room =
    let g = record h { remote_forward = h.remote_forward ++ r ∷ [] } in
    apply_all-cons env h g _ _ _ (add_remote env h r w.0 (omega arith))
    ∙ apply_remote env g rs w.1 (omega (arith, length-append h.remote_forward (r ∷ [])))
    ∙ ap (λ x. record h { remote_forward = x }) (snoc_assoc h.remote_forward r rs)

pub apply_dynamic :
    (env : Env) (h : SshHost) (rs : List DynamicRule)
    → All IsWritableDynamic rs
    → length h.dynamic_forward + length rs ≤ max_forwards
    → apply_all env h (dynamic_pairs rs) ≡ record h { dynamic_forward = h.dynamic_forward ++ rs }
unfolding dynamic_pairs
apply_dynamic env h [] w room =
    apply_all-nil env h
    ∙ ap (λ x. record h { dynamic_forward = x }) (sym (append-nil h.dynamic_forward))
apply_dynamic env h (r ∷ rs) w room =
    let g = record h { dynamic_forward = h.dynamic_forward ++ r ∷ [] } in
    apply_all-cons env h g _ _ _ (add_dynamic env h r w.0 (omega arith))
    ∙ apply_dynamic env g rs w.1 (omega (arith, length-append h.dynamic_forward (r ∷ [])))
    ∙ ap (λ x. record h { dynamic_forward = x }) (snoc_assoc h.dynamic_forward r rs)

pub apply_options :
    (env : Env) (h : SshHost) (os : List SshOption)
    → All IsWritableOption os
    → length h.options + length os ≤ max_options
    → apply_all env h (option_pairs os) ≡ record h { options = h.options ++ os }
unfolding option_pairs
apply_options env h [] w room =
    apply_all-nil env h ∙ ap (λ x. record h { options = x }) (sym (append-nil h.options))
apply_options env h (o ∷ os) w room =
    let g = record h { options = h.options ++ o ∷ [] } in
    apply_all-cons env h g _ _ _ (add_generic env h o w.0 (omega arith))
    ∙ apply_options env g os w.1 (omega (arith, length-append h.options (o ∷ [])))
    ∙ ap (λ x. record h { options = x }) (snoc_assoc h.options o os)
