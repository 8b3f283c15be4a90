-- ===== src/Config/Forward/Bounds.antt =====
-- The rules that parse_forward and parse_dynamic return fit their arrays.
use sshpad.Prelude.{
  ℕ, zero, suc, ◌≤◌, ◌<◌, some, [], ◌∷◌, ◌≡◌, arith, Bytes, length, take, drop, Option-cases, inl,
  inr,
}
use sshpad.Text.{find_char, find_last}
use sshpad.Config.Host.{ForwardRule, FitsForward, FitsDynamic, copy, length-copy}
use sshpad.Config.Forward.{
  localhost, bind_spec, parse_spaced, not_colons, scan_field, scan_colon, scan_ports,
  scan_addr_ports, parse_colons, parse_in_buffer, parse_forward, parse_dynamic, skip_blank,
  find_blank,
}

bind_spec_fits : (s : Bytes) → length (bind_spec s).0 < 64
unfolding bind_spec
bind_spec_fits s = elim (Option-cases (find_char b':' s)) [
  | inl e ↦ rw e (omega arith)
  | inr (i, e) ↦ rw e (length-copy 64 (take i s) (omega arith))
]

length-not_colons-le : (n : ℕ) (s : Bytes) → length (not_colons n s).0 ≤ n
unfolding not_colons
length-not_colons-le zero s = omega arith
length-not_colons-le (suc n) [] = omega arith
length-not_colons-le (suc n) (x ∷ xs) = ground (arith, length-not_colons-le n xs)

scan_field_fits : (n : ℕ) (s f rest : Bytes) → scan_field n s ≡ some (f, rest) → length f ≤ n
unfolding scan_field
scan_field_fits n s f rest h = ground (arith, length-not_colons-le n s)

parse_spaced_fits : (b s : Bytes) (r : ForwardRule) → parse_spaced b s ≡ some r → FitsForward r
unfolding parse_spaced
parse_spaced_fits b s r h = elim (Option-cases (find_last b':' s)) [
  | inl e ↦ absurd (ground arith)
  | inr (i, e) ↦ ground (arith, bind_spec_fits b, length-copy 256 (take i s))
]

scan_ports_fits :
    (addr s : Bytes) (r : ForwardRule)
    → length addr < 64
    → scan_ports addr s ≡ some r
    → FitsForward r
unfolding scan_ports
scan_ports_fits addr s r fits h = grind (arith, scan_field_fits)

scan_addr_ports_fits : (s : Bytes) (r : ForwardRule) → scan_addr_ports s ≡ some r → FitsForward r
unfolding scan_addr_ports
scan_addr_ports_fits s r h = elim (Option-cases (scan_field 63 s)) [
  | inl e ↦ absurd (ground arith)
  | inr (p, e) ↦ elim (Option-cases (scan_colon p.1)) [
    | inl e' ↦ absurd (ground arith)
    | inr (q, e') ↦
        scan_ports_fits p.0 q r (ground (arith, scan_field_fits 63 s p.0 p.1)) (ground arith)
  ]
]

parse_colons_fits : (s : Bytes) (r : ForwardRule) → parse_colons s ≡ some r → FitsForward r
unfolding parse_colons
parse_colons_fits s r h =
    ground (arith, scan_ports_fits localhost s r (omega arith), scan_addr_ports_fits s r)

pub parse_forward_fits : (s : Bytes) (r : ForwardRule) → parse_forward s ≡ some r → FitsForward r
unfolding parse_forward parse_in_buffer
parse_forward_fits s r h = elim (Option-cases (find_blank (copy 512 s))) [
  | inl e ↦ parse_colons_fits (copy 512 s) r (ground arith)
  | inr (i, e) ↦
      parse_spaced_fits (take i (copy 512 s)) (skip_blank (drop (suc i) (copy 512 s))) r
        (ground arith)
]

pub parse_dynamic_fits : (s : Bytes) → FitsDynamic (parse_dynamic s)
unfolding parse_dynamic
parse_dynamic_fits s = record { addr_fits = bind_spec_fits (skip_blank s) }
