-- ===== src/Config/Fields/Bounds.antt =====
-- The directives and the defaults never overrun an array of the host that they are applied to.
use sshpad.Prelude.{
  ℕ, ◌≤◌, ◌<◌, true, List, [], ◌∷◌, ◌++◌, ◌≡◌, arith, Bytes, ltb, length, length-append, All,
  All-append, Bool-cases, Option-cases, inl, inr,
}
use sshpad.Config.Host.{
  ForwardRule, DynamicRule, SshOption, SshHost, copy, length-copy, Fits, FitsForward, FitsDynamic,
  FitsOption, max_forwards, max_options,
}
use sshpad.Config.Forward.{parse_forward, parse_dynamic}
use sshpad.Config.Forward.Bounds.{parse_forward_fits, parse_dynamic_fits}
use sshpad.Config.Fields.{
  Env, home_dir, expand_tilde, inherit, has_key, merge_options, apply_defaults, add_forward,
  process_kv, Directive, host_name, user, port, identity_file, proxy_jump, local_forward,
  remote_forward, dynamic_forward, generic, directive_of, apply_directive,
}

pub length-expand_tilde :
    (env : Env) (size : ℕ) (s : Bytes) → 0 < size → length (expand_tilde env size s) < size
unfolding expand_tilde
length-expand_tilde env size [] h = length-copy size [] h
length-expand_tilde env size (a ∷ []) h = length-copy size (a ∷ []) h
length-expand_tilde env size (a ∷ b ∷ rest) h =
    ground
      (arith, length-copy size (home_dir env ++ (b ∷ rest)) h, length-copy size (a ∷ b ∷ rest) h)

inherit_fits :
    (size : ℕ) (own global : Bytes) → length own < size → length (inherit size own global) < size
unfolding inherit
inherit_fits size own global h = ground (arith, length-copy size global)

-- The options of a host, and what every change keeps of them.
abbrev OptionsFit : List SshOption → Type 0
OptionsFit os = (length os ≤ max_options) × All FitsOption os

OptionsFit-snoc :
    (os : List SshOption) (o : SshOption)
    → OptionsFit os
    → FitsOption o
    → length os < max_options
    → OptionsFit (os ++ o ∷ [])
OptionsFit-snoc os o h f room =
    (omega (arith, length-append os (o ∷ [])), All-append FitsOption os (o ∷ []) h.1 (f, tt))

merge_options_fit :
    (own ds : List SshOption)
    → OptionsFit own
    → All FitsOption ds
    → OptionsFit (merge_options own ds)
unfolding merge_options
merge_options_fit own [] h hd = h
merge_options_fit own (d ∷ ds) h hd = elim (Bool-cases (has_key d.key own)) [
  | inl old ↦ rw old (merge_options_fit own ds h hd.1)
  | inr new ↦ elim (Bool-cases (ltb (length own) max_options)) [
    | inl room ↦
        rw (new, room)
          (merge_options_fit (own ++ d ∷ []) ds (OptionsFit-snoc own d h hd.0 (ground arith)) hd.1)
    | inr full ↦ rw (new, full) (merge_options_fit own ds h hd.1)
  ]
]

pub apply_defaults-Fits : (h d : SshHost) → Fits h → Fits d → Fits (apply_defaults h d)
unfolding apply_defaults
apply_defaults-Fits h d fh fd =
    let os =
      merge_options_fit h.options d.options (fh.option_count, fh.options_fit) fd.options_fit in
    record {
      name_fits = fh.name_fits;
      hostname_fits = unfold inherit in ground (arith, length-copy 256 d.hostname);
      user_fits = unfold inherit in ground (arith, length-copy 64 d.user);
      identity_fits = unfold inherit in ground (arith, length-copy 512 d.identity_file);
      proxy_fits = unfold inherit in ground (arith, length-copy 128 d.proxy_jump);
      local_count = fh.local_count;
      remote_count = fh.remote_count;
      dynamic_count = fh.dynamic_count;
      option_count = os.0;
      local_fit = fh.local_fit;
      remote_fit = fh.remote_fit;
      dynamic_fit = fh.dynamic_fit;
      options_fit = os.1;
    }

abbrev ForwardsFit : List ForwardRule → Type 0
ForwardsFit rs = (length rs ≤ max_forwards) × All FitsForward rs

add_forward_fit :
    (rs : List ForwardRule) (val : Bytes)
    → ForwardsFit rs
    → ltb (length rs) max_forwards ≡ true
    → ForwardsFit (add_forward rs (parse_forward val))
unfolding add_forward
add_forward_fit rs val h room = elim (Option-cases (parse_forward val)) [
  | inl e ↦ rw (e, add_forward) h
  | inr (r, e) ↦
      rw (e, add_forward)
        (
          ground (arith, length-append rs (r ∷ [])),
          All-append FitsForward rs (r ∷ []) h.1 (parse_forward_fits val r e, tt),
        )
]

dynamic_fit :
    (rs : List DynamicRule) (val : Bytes)
    → All FitsDynamic rs
    → All FitsDynamic (rs ++ parse_dynamic val ∷ [])
dynamic_fit rs val h = All-append FitsDynamic rs _ h (parse_dynamic_fits val, tt)

new_option_fit :
    (os : List SshOption) (key val : Bytes)
    → All FitsOption os
    → All FitsOption (os ++ (record { key = copy 64 key; value = copy 256 val } ∷ []))
new_option_fit os key val h = All-append FitsOption os _ h (
  record {
    key_fits = length-copy 64 key (omega arith);
    value_fits = length-copy 256 val (omega arith);
  },
  tt,
)

apply_directive-Fits :
    (env : Env) (h : SshHost) (d : Directive) (key val : Bytes)
    → Fits h
    → Fits (apply_directive env h d key val)
unfolding apply_directive
apply_directive-Fits env h host_name key val f = ground (arith, length-copy 256 val)
apply_directive-Fits env h user key val f = ground (arith, length-copy 64 val)
apply_directive-Fits env h port key val f = ground arith
apply_directive-Fits env h identity_file key val f = ground (arith, length-expand_tilde env 512 val)
apply_directive-Fits env h proxy_jump key val f = ground (arith, length-copy 128 val)
apply_directive-Fits env h local_forward key val f =
    ground (arith, add_forward_fit h.local_forward val (f.local_count, f.local_fit))
apply_directive-Fits env h remote_forward key val f =
    ground (arith, add_forward_fit h.remote_forward val (f.remote_count, f.remote_fit))
apply_directive-Fits env h dynamic_forward key val f = ground (
  arith,
  dynamic_fit h.dynamic_forward val f.dynamic_fit,
  length-append h.dynamic_forward (parse_dynamic val ∷ []),
)
apply_directive-Fits env h generic key val f =
    let o : SshOption = record { key = copy 64 key; value = copy 256 val } in
    ground (arith, new_option_fit h.options key val f.options_fit, length-append h.options (o ∷ []))

-- A directive, whatever its keyword and value, keeps every array of a host that fits within its size.
pub process_kv-Fits :
    (env : Env) (h : SshHost) (key val : Bytes) → Fits h → Fits (process_kv env h key val)
unfolding process_kv
process_kv-Fits env h key val = apply_directive-Fits env h (directive_of key) key val
