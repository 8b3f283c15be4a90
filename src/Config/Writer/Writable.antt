-- ===== src/Config/Writer/Writable.antt =====
-- The hosts that a configuration file can express.
use sshpad.Prelude.{
  ℕ, ◌<◌, ◌≤◌, Bool, true, false, not, ◌&&◌, List, [], ◌∷◌, ◌≡◌, refl, ◌≢◌, ◌⊎◌, inl, inr, arith,
  ltb, ◌==◌, Bytes, All, All-append, length, codes, ℤ, pos, negsuc,
}
use sshpad.Text.{print_int, is_space, is_digit, kw_eq}
use sshpad.Text.Decimal.{Digits, print_int-Digits, print_int-ne-nil}
use sshpad.Text.Search.{Lacks}
use sshpad.Text.Trim.{EndsPlain}
use sshpad.Config.Host.{
  ForwardRule, DynamicRule, SshOption, SshHost, IsPort, max_forwards, max_options,
}
use sshpad.Config.Fields.{Env, expand_tilde, has_wildcard, is_empty}
use sshpad.Config.Parser.{starts_comment}
use sshpad.Config.Parser.Blocks.{is_host}
use sshpad.Config.Writer.{
  forward_text, dynamic_text, written_if, forward_pairs, dynamic_pairs, option_pairs, host_pairs,
  Pair,
}
use sshpad.Config.Writer.Lines.{LineByte, IsKeyword, IsValue}
use sshpad.Config.Writer.Forwards.{IsWritableForward, IsWritableDynamic, length-print_int}
use sshpad.Config.Writer.Replay.{IsWritableOption}

-- A host that its block can express: every text can stand in a line or is empty, the ports are
-- ports, and nothing is read as something else.
pub record IsWritable (env : Env) (h : SshHost) : Type 0 where
  pub name_value : IsValue h.name
  pub name_fits : length h.name < 128
  pub name_plain : has_wildcard h.name ≡ false
  pub hostname_value : IsValue h.hostname
  pub hostname_fits : length h.hostname < 256
  pub user_value : (h.user ≡ []) ⊎ IsValue h.user
  pub user_fits : length h.user < 64
  pub is_port : IsPort h.port
  pub identity_value : (h.identity_file ≡ []) ⊎ IsValue h.identity_file
  pub identity_plain : expand_tilde env 512 h.identity_file ≡ h.identity_file
  pub proxy_value : (h.proxy_jump ≡ []) ⊎ IsValue h.proxy_jump
  pub proxy_fits : length h.proxy_jump < 128
  pub local_rules : All IsWritableForward h.local_forward
  pub remote_rules : All IsWritableForward h.remote_forward
  pub dynamic_rules : All IsWritableDynamic h.dynamic_forward
  pub option_rules : All IsWritableOption h.options
  pub local_count : length h.local_forward ≤ max_forwards
  pub remote_count : length h.remote_forward ≤ max_forwards
  pub dynamic_count : length h.dynamic_forward ≤ max_forwards
  pub option_count : length h.options ≤ max_options
  pub local_values : All (λ r. IsValue (forward_text r)) h.local_forward
  pub remote_values : All (λ r. IsValue (forward_text r)) h.remote_forward
  pub dynamic_values : All (λ r. IsValue (dynamic_text r)) h.dynamic_forward

abbrev word_byte : ℕ → Bool
word_byte c = not (c == 0) && not (c == 13) && not (c == 10) && not (c == b' ') && not (c == b'=')

unfoldable pub check_word : Bytes → Bool
check_word [] = true
check_word (c ∷ s) = word_byte c && check_word s

unfoldable pub starts_plain : Bytes → Bool
starts_plain [] = false
starts_plain (c ∷ s) = not (is_space c) && not (c == b'#')

unfoldable pub check_keyword : Bytes → Bool
unfolding check_word starts_plain is_space
check_keyword k = check_word k && starts_plain k && ltb (length k) 64

check_word-bytes : (k : Bytes) → check_word k ≡ true → All LineByte k
unfolding check_word
check_word-bytes [] h = tt
check_word-bytes (c ∷ k) h = ground (arith, check_word-bytes k)

check_word-no_blank : (k : Bytes) → check_word k ≡ true → Lacks b' ' k
unfolding check_word
check_word-no_blank [] h = tt
check_word-no_blank (c ∷ k) h = ground (arith, check_word-no_blank k)

check_word-no_equals : (k : Bytes) → check_word k ≡ true → Lacks b'=' k
unfolding check_word
check_word-no_equals [] h = tt
check_word-no_equals (c ∷ k) h = ground (arith, check_word-no_equals k)

-- A keyword can be checked by evaluation.
pub check_keyword_sound : (k : Bytes) → check_keyword k ≡ true → IsKeyword k
unfolding check_keyword
check_keyword_sound [] h = cc
check_keyword_sound (c ∷ k) h = record {
  bytes = check_word-bytes (c ∷ k) (ground arith);
  starts = ground arith;
  no_blank = check_word-no_blank (c ∷ k) (ground arith);
  no_equals = check_word-no_equals (c ∷ k) (ground arith);
  no_comment = unfold starts_comment in ground arith;
  short = ground arith;
}

Digits-LineByte : (s : Bytes) → Digits s → All LineByte s
unfolding is_digit
Digits-LineByte [] d = tt
Digits-LineByte (c ∷ s) d = (ground arith, Digits-LineByte s d.1)

Digits-EndsPlain : (c : ℕ) (s : Bytes) → Digits (c ∷ s) → EndsPlain (c ∷ s)
Digits-EndsPlain c [] d = unfold is_digit is_space in ground arith
Digits-EndsPlain c (x ∷ s) d = Digits-EndsPlain x s d.1

Digits-IsValue : (s : Bytes) → Digits s → s ≢ [] → length s < 900 → IsValue s
Digits-IsValue [] d ne fits = absurd (ne refl)
Digits-IsValue (c ∷ s) d ne fits = record {
  bytes = Digits-LineByte (c ∷ s) d;
  starts = unfold is_digit is_space in ground arith;
  ends = Digits-EndsPlain c s d;
  short = fits;
}

print_int-IsValue : (p : ℤ) → IsPort p → IsValue (print_int p)
print_int-IsValue (pos n) port =
    Digits-IsValue (print_int (pos n)) (print_int-Digits n) (print_int-ne-nil n)
      (omega (arith, length-print_int (pos n) port))
print_int-IsValue (negsuc n) port = cc

-- A pair that its line gives back and that opens no block.
abbrev pub IsGoodPair : Pair → Type 0
IsGoodPair p = IsKeyword p.0 × IsValue p.1 × (is_host p.0 ≡ false)

written_if-Good :
    (b : Bool) (k v : Bytes)
    → check_keyword k ≡ true
    → is_host k ≡ false
    → (b ≡ true → IsValue v)
    → All IsGoodPair (written_if b k v)
unfolding written_if
written_if-Good true k v kw nh iv = ((check_keyword_sound k kw, iv refl, nh), tt)
written_if-Good false k v kw nh iv = tt

forward_pairs-Good :
    (k : Bytes) (rs : List ForwardRule)
    → check_keyword k ≡ true
    → is_host k ≡ false
    → All (λ r. IsValue (forward_text r)) rs
    → All IsGoodPair (forward_pairs k rs)
unfolding forward_pairs
forward_pairs-Good k [] kw nh iv = tt
forward_pairs-Good k (r ∷ rs) kw nh iv =
    ((check_keyword_sound k kw, iv.0, nh), forward_pairs-Good k rs kw nh iv.1)

dynamic_pairs-Good :
    (rs : List DynamicRule)
    → All (λ r. IsValue (dynamic_text r)) rs
    → All IsGoodPair (dynamic_pairs rs)
unfolding dynamic_pairs check_keyword kw_eq
dynamic_pairs-Good [] iv = tt
dynamic_pairs-Good (r ∷ rs) iv =
    ((check_keyword_sound (codes "DynamicForward") refl, iv.0, refl), dynamic_pairs-Good rs iv.1)

option_pairs-Good :
    (os : List SshOption) → All IsWritableOption os → All IsGoodPair (option_pairs os)
unfolding option_pairs
option_pairs-Good [] w = tt
option_pairs-Good (o ∷ os) w =
    ((w.0.keyword, w.0.value_text, w.0.not_host), option_pairs-Good os w.1)

not_empty-IsValue : (v : Bytes) → (v ≡ []) ⊎ IsValue v → not (is_empty v) ≡ true → IsValue v
unfolding is_empty
not_empty-IsValue [] w h = cc
not_empty-IsValue (c ∷ v) (inl e) h = cc
not_empty-IsValue (c ∷ v) (inr iv) h = iv

pub host_pairs-Good : (env : Env) (h : SshHost) → IsWritable env h → All IsGoodPair (host_pairs h)
unfolding host_pairs check_keyword kw_eq
host_pairs-Good env h w =
    All-append IsGoodPair _ _
      (written_if-Good _ (codes "HostName") h.hostname refl refl (λ e. w.hostname_value))
      (All-append IsGoodPair _ _
        (written_if-Good _ (codes "User") h.user refl refl (not_empty-IsValue h.user w.user_value))
        (All-append IsGoodPair _ _
          (written_if-Good _ (codes "Port") (print_int h.port) refl refl
            (λ e. print_int-IsValue h.port w.is_port))
          (All-append IsGoodPair _ _
            (written_if-Good _ (codes "IdentityFile") h.identity_file refl refl
              (not_empty-IsValue h.identity_file w.identity_value))
            (All-append IsGoodPair _ _
              (written_if-Good _ (codes "ProxyJump") h.proxy_jump refl refl
                (not_empty-IsValue h.proxy_jump w.proxy_value))
              (All-append IsGoodPair _ _
                (forward_pairs-Good (codes "LocalForward") h.local_forward refl refl w.local_values)
                (All-append IsGoodPair _ _
                  (forward_pairs-Good (codes "RemoteForward") h.remote_forward refl refl
                    w.remote_values)
                  (All-append IsGoodPair _ _ (dynamic_pairs-Good h.dynamic_forward w.dynamic_values)
                    (option_pairs-Good h.options w.option_rules))))))))
