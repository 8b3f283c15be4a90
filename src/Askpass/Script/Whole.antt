-- ===== src/Askpass/Script/Whole.antt =====
-- The script that ssh finds is the whole script.
use sshpad.Prelude.{
  ℕ, zero, suc, ◌+◌, ◌*◌, ◌/◌, ◌≤◌, ◌<◌, ◌%◌, Bool, true, false, Option, none, some, List, [], ◌∷◌,
  ◌++◌, ◌≡◌, refl, ap, subst, inl, inr, arith, leb, ltb, Bytes, ℤ, pos, negsuc, length,
  length-append, Bool-cases,
}
use sshpad.Text.{digits_of, print_int}
use sshpad.Output.{Answer, write_all, write_all_lem}
use sshpad.Config.Host.{copy_fits}
use sshpad.Askpass.Script.{
  before_port, before_curl, before_wget, script_end, curl_timeout, script_text, valid_port, Made,
  finish_script, write_script, askpass_init,
}

ten_power : ℕ → ℕ
ten_power zero = 10
ten_power (suc k) = ten_power k * 10

length-digits_of : (k f n : ℕ) → n < ten_power k → length (digits_of f n) ≤ suc k
unfolding digits_of ten_power
length-digits_of k zero n h = omega arith
length-digits_of zero (suc f) n h = ground arith
length-digits_of (suc k) (suc f) n h = elim (Bool-cases (ltb n 10)) [
  | inl small ↦ rw small (omega arith)
  | inr large ↦ rw large (
      omega (
        arith,
        length-append (digits_of f (n / 10)) ((b'0' + n % 10) ∷ []),
        length-digits_of k f (n / 10) (omega arith),
      ))
]

length_seven :
    (a p b q c r d : Bytes)
    → length (a ++ (p ++ (b ++ (q ++ (c ++ (r ++ d))))))
      ≡ length a + (length p + (length b + (length q + (length c + (length r + length d)))))
length_seven a p b q c r d = omega (
  arith,
  length-append a (p ++ (b ++ (q ++ (c ++ (r ++ d))))),
  length-append p (b ++ (q ++ (c ++ (r ++ d)))),
  length-append b (q ++ (c ++ (r ++ d))),
  length-append q (c ++ (r ++ d)),
  length-append c (r ++ d),
  length-append r d,
)

constant_parts :
    length before_port
      + (length before_curl
          + (length (print_int curl_timeout)
              + (length before_wget + (length (print_int curl_timeout) + length script_end))))
    < 4000
unfolding print_int digits_of
constant_parts = omega arith

length-script_text :
    (port : ℤ)
    → length (script_text port)
      ≡ length before_port
        + (length (print_int port)
            + (length before_curl
                + (length (print_int curl_timeout)
                    + (length before_wget
                        + (length (print_int curl_timeout) + length script_end)))))
unfolding script_text
length-script_text port =
    length_seven before_port (print_int port) before_curl (print_int curl_timeout) before_wget
      (print_int curl_timeout) script_end

length-print_port : (port : ℤ) → valid_port port ≡ true → length (print_int port) ≤ 5
unfolding print_int ten_power
length-print_port (pos n) valid = length-digits_of 4 (suc n) n (ground arith)
length-print_port (negsuc n) valid = cc

script_fits : (port : ℤ) → valid_port port ≡ true → leb 4096 (length (script_text port)) ≡ false
script_fits port valid =
    let l = length-script_text port in
    let d = length-print_port port valid in
    let k = constant_parts in
    let small : length (script_text port) < 4096 = omega (arith, l, d, k) in ground (arith, small)

-- What askpass_init may leave behind.
abbrev pub Clean : ℤ → Bytes → Made → Type 0
Clean port tmp (none, file) = file ≡ none
Clean port tmp (some path, file) = (path ≡ tmp) × (file ≡ some (script_text port))

abbrev Finished : ℤ → Bytes → Option Made → Type 0
Finished port tmp none = Unit
Finished port tmp (some made) = Clean port tmp made

finish_script-Finished :
    (port : ℤ) (tmp : Bytes) (chmod_ok : Bool) (o : Option (Bytes × Bool))
    → length tmp < 512
    → ((out : Bytes) → o ≡ some (out, true) → out ≡ script_text port)
    → Finished port tmp (finish_script tmp chmod_ok o)
finish_script-Finished port tmp chmod_ok none short whole = tt
finish_script-Finished port tmp chmod_ok (some (out, false)) short whole = refl
finish_script-Finished port tmp false (some (out, true)) short whole = refl
finish_script-Finished port tmp true (some (out, true)) short whole =
    (copy_fits 512 tmp short, ap some (whole out refl))

write_script-Finished :
    (tmp : Bytes) (answers : List Answer) (chmod_ok : Bool) (port : ℤ)
    → length tmp < 512
    → valid_port port ≡ true
    → Finished port tmp (write_script answers chmod_ok port (some tmp))
unfolding write_script
write_script-Finished tmp answers chmod_ok port short valid = rw (script_fits port valid) (
    finish_script-Finished port tmp chmod_ok (write_all answers (script_text port)) short
      (λ out e. (write_all_lem answers (script_text port) out true e).1 refl))

askpass_init-Finished :
    (tmp : Bytes) (answers : List Answer) (chmod_ok : Bool) (port : ℤ)
    → length tmp < 512
    → Finished port tmp (askpass_init (some tmp) answers chmod_ok port)
unfolding askpass_init
askpass_init-Finished tmp answers chmod_ok port short = elim (Bool-cases (valid_port port)) [
  | inl valid ↦ rw valid (write_script-Finished tmp answers chmod_ok port short valid)
  | inr invalid ↦ rw invalid refl
]

-- However write cuts the script: when askpass_init succeeds, the file at the path that it gives out (of
-- less than 512 bytes) holds the whole script for the port, which no buffer has cut; and when it
-- fails, it leaves no file behind.
pub askpass_init-Clean :
    (tmp : Bytes) (answers : List Answer) (chmod_ok : Bool) (port : ℤ) (made : Made)
    → length tmp < 512
    → askpass_init (some tmp) answers chmod_ok port ≡ some made
    → Clean port tmp made
askpass_init-Clean tmp answers chmod_ok port made short e =
    subst (Finished port tmp) e (askpass_init-Finished tmp answers chmod_ok port short)
