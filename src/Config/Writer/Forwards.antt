-- ===== src/Config/Writer/Forwards.antt =====
-- parse_forward and parse_dynamic read back what the writer prints.
use sshpad.Prelude.{
  ℕ, zero, suc, ◌+◌, ◌*◌, ◌/◌, ◌%◌, negsuc, Bool-cases, ◌<◌, ◌≤◌, true, false, some, [], ◌∷◌, ◌++◌,
  ◌≡◌, refl, ◌≢◌, arith, ltb, Bytes, All-append, length, length-append, take-length-append,
  drop-suc-length-append, append_assoc, inl, inr, ℤ, pos, is_pos,
}
use sshpad.Text.{atoi, print_int, is_digit, digits_of}
use sshpad.Text.Search.{Lacks, find_char-append, find_last-append}
use sshpad.Text.Decimal.{atoi-print_int, print_int-Digits, Digits}
use sshpad.Config.Host.{ForwardRule, DynamicRule, copy_fits, FitsForward, FitsDynamic, IsPort}
use sshpad.Config.Forward.{
  skip_blank, find_blank, bind_spec, parse_spaced, parse_in_buffer, parse_forward, parse_dynamic,
}
use sshpad.Config.Writer.{forward_text, dynamic_text}

-- The text does not begin with a blank, or is empty.
abbrev pub NoBlankFirst : Bytes → Type 0
NoBlankFirst [] = Unit {0}
NoBlankFirst (c ∷ cs) = (c ≢ b' ') × (c ≢ b'\t')

-- A rule that its line can express.
pub record IsWritableForward (r : ForwardRule) : Type 0 where
  pub fits : FitsForward r
  pub bind_is_port : IsPort r.bind_port
  pub remote_is_port : IsPort r.remote_port
  pub addr_no_colon : Lacks b':' r.bind_addr
  pub addr_no_blank : Lacks b' ' r.bind_addr
  pub host_no_blank : NoBlankFirst r.remote_host

pub record IsWritableDynamic (r : DynamicRule) : Type 0 where
  pub fits : FitsDynamic r
  pub is_port : IsPort r.bind_port
  pub addr_no_colon : Lacks b':' r.bind_addr
  pub addr_no_blank : NoBlankFirst r.bind_addr

Digits-Lacks : (c : ℕ) (s : Bytes) → is_digit c ≡ false → Digits s → Lacks c s
unfolding is_digit
Digits-Lacks c [] h d = tt
Digits-Lacks c (x ∷ xs) h d = (λ e. ground arith, Digits-Lacks c xs h d.1)

print_int-Lacks : (c : ℕ) (p : ℤ) → is_digit c ≡ false → IsPort p → Lacks c (print_int p)
print_int-Lacks c (pos n) h port = Digits-Lacks c (print_int (pos n)) h (print_int-Digits n)
print_int-Lacks c (negsuc n) h port = cc

pub atoi-port : (p : ℤ) → IsPort p → atoi (print_int p) ≡ p
atoi-port (pos n) port = atoi-print_int n (ground arith)
atoi-port (negsuc n) port = cc

power_ten : ℕ → ℕ
power_ten zero = 1
power_ten (suc k) = 10 * power_ten k

length-digits_of : (f k n : ℕ) → n < power_ten (suc k) → length (digits_of f n) ≤ suc k
unfolding digits_of power_ten
length-digits_of zero k n h = omega arith
length-digits_of (suc f) zero n h = ground arith
length-digits_of (suc f) (suc k) n h = elim (Bool-cases (ltb n 10)) [
  | inl small ↦ rw small (omega arith)
  | inr large ↦ rw large (
      omega (
        arith,
        length-append (digits_of f (n / 10)) ((b'0' + n % 10) ∷ []),
        length-digits_of f k (n / 10) (omega arith),
      ))
]

-- A port has five digits at most.
pub length-print_int : (p : ℤ) → IsPort p → length (print_int p) ≤ 5
unfolding print_int power_ten
length-print_int (pos n) port = length-digits_of (suc n) 4 n (ground arith)
length-print_int (negsuc n) port = cc

bind_spec-text :
    (addr : Bytes) (p : ℤ)
    → Lacks b':' addr
    → length addr < 64
    → IsPort p
    → bind_spec (addr ++ (b':' ∷ print_int p)) ≡ (addr, p)
unfolding bind_spec
bind_spec-text addr p lacks fits port = rw (
  find_char-append b':' addr (print_int p) lacks,
  take-length-append addr (b':' ∷ print_int p),
  drop-suc-length-append addr b':' (print_int p),
  copy_fits 64 addr fits,
  atoi-port p port,
)

port_is_pos : (p : ℤ) → IsPort p → is_pos p ≡ true
port_is_pos p port = ground arith

parse_spaced-text :
    (r : ForwardRule)
    → IsWritableForward r
    → parse_spaced
        (r.bind_addr ++ (b':' ∷ print_int r.bind_port))
        (r.remote_host ++ (b':' ∷ print_int r.remote_port))
      ≡ some r
unfolding parse_spaced is_digit
parse_spaced-text r w =
    rw
      (
        find_last-append b':' r.remote_host (print_int r.remote_port)
            (print_int-Lacks b':' r.remote_port refl w.remote_is_port),
        bind_spec-text r.bind_addr r.bind_port w.addr_no_colon w.fits.addr_fits w.bind_is_port,
        take-length-append r.remote_host (b':' ∷ print_int r.remote_port),
        drop-suc-length-append r.remote_host b':' (print_int r.remote_port),
        copy_fits 256 r.remote_host w.fits.host_fits,
        atoi-port r.remote_port w.remote_is_port,
      )
      (rw (port_is_pos r.bind_port w.bind_is_port, port_is_pos r.remote_port w.remote_is_port))

skip_blank-NoBlankFirst :
    (s : Bytes) (rest : Bytes) → NoBlankFirst s → skip_blank (s ++ b':' ∷ rest) ≡ s ++ b':' ∷ rest
unfolding skip_blank
skip_blank-NoBlankFirst [] rest h = refl
skip_blank-NoBlankFirst (c ∷ cs) rest h = ground arith

module _ (r : ForwardRule) (w : IsWritableForward r) where
  bind_text : Bytes
  bind_text = r.bind_addr ++ (b':' ∷ print_int r.bind_port)

  remote_text : Bytes
  remote_text = r.remote_host ++ (b':' ∷ print_int r.remote_port)

  forward_text_split : forward_text r ≡ bind_text ++ b' ' ∷ remote_text
  unfolding forward_text bind_text remote_text
  forward_text_split = simp append_assoc

  bind_text_no_blank : Lacks b' ' bind_text
  unfolding bind_text is_digit
  bind_text_no_blank =
      All-append (λ x. x ≢ b' ') r.bind_addr _ w.addr_no_blank
        (omega arith, print_int-Lacks b' ' r.bind_port refl w.bind_is_port)

  length-bind_text : length bind_text < 70
  unfolding bind_text
  length-bind_text = omega (
    arith,
    length-append r.bind_addr (b':' ∷ print_int r.bind_port),
    length-print_int r.bind_port w.bind_is_port,
    w.fits.addr_fits,
  )

  length-remote_text : length remote_text < 262
  unfolding remote_text
  length-remote_text = omega (
    arith,
    length-append r.remote_host (b':' ∷ print_int r.remote_port),
    length-print_int r.remote_port w.remote_is_port,
    w.fits.host_fits,
  )

  pub length-forward_text : length (forward_text r) < 340
  length-forward_text = rw forward_text_split (
      omega
        (arith, length-append bind_text (b' ' ∷ remote_text), length-bind_text, length-remote_text))

  -- A rule that the writer prints is parsed back as it was, for a rule with ports from 1 to 65535 and
  -- texts that fit, whose address has no colon and no blank and whose host starts with no blank.
  pub parse_forward-text : parse_forward (forward_text r) ≡ some r
  unfolding parse_forward parse_in_buffer find_blank
  parse_forward-text =
      rw
        (
          copy_fits 512 (forward_text r) (omega (arith, length-forward_text)),
          forward_text_split,
          find_char-append b' ' bind_text remote_text bind_text_no_blank,
          take-length-append bind_text (b' ' ∷ remote_text),
          drop-suc-length-append bind_text b' ' remote_text,
        )
        (unfold bind_text remote_text in
          rw (skip_blank-NoBlankFirst r.remote_host (print_int r.remote_port) w.host_no_blank)
            (parse_spaced-text r w))

module _ (r : DynamicRule) (w : IsWritableDynamic r) where
  pub length-dynamic_text : length (dynamic_text r) < 70
  unfolding dynamic_text
  length-dynamic_text = omega (
    arith,
    length-append r.bind_addr (b':' ∷ print_int r.bind_port),
    length-print_int r.bind_port w.is_port,
    w.fits.addr_fits,
  )

  -- A dynamic rule that the writer prints is parsed back as it was, for a rule with a port from 1 to
  -- 65535 and an address that fits, has no colon and starts with no blank.
  pub parse_dynamic-text : parse_dynamic (dynamic_text r) ≡ r
  unfolding parse_dynamic dynamic_text
  parse_dynamic-text = rw (
    skip_blank-NoBlankFirst r.bind_addr (print_int r.bind_port) w.addr_no_blank,
    bind_spec-text r.bind_addr r.bind_port w.addr_no_colon w.fits.addr_fits w.is_port,
  )
