-- ===== src/Crypto/RoundTrip.antt =====
-- What cs_encrypt makes, cs_decrypt opens with the same password.
use sshpad.Prelude.{
  ℕ, ◌+◌, ◌-◌, ◌<◌, false, some, ◌++◌, ◌≡◌, refl, subst, sym, ap, ◌∙◌, arith, inl, inr, Bytes,
  length, length-append, drop-drop, drop-length-append, take, drop, take_at, drop_at, take_fits,
  take-length-append, ltb, Option-cases, some-inj, str_eq, pos, int_of_bits,
}
use sshpad.Text.{c_str}
use sshpad.Text.Trim.{c_str-Plain}
use sshpad.Crypto.{
  IsText, OpenSsl, Draws, be32, read_be32, plaintext_of, frame, cs_encrypt, is_valid_iter,
  cs_decrypt, default_iter,
}

int_of_length : (n : ℕ) → n < 2147483648 → int_of_bits n ≡ pos n
int_of_length n h = ground arith

plaintext_of-IsText : (s : Bytes) → length s < 2147483648 → plaintext_of s ≡ some s
unfolding plaintext_of
plaintext_of-IsText s short =
    rw (int_of_length (length s) short) (ap some (take_fits (length s) s (omega arith)))

module _ (o : OpenSsl) (salt iv cipher tag : Bytes) (hs : length salt ≡ 32) (hi : length iv ≡ 12)
    (ht : length tag ≡ 16) where
  length-frame : length (frame salt iv cipher tag) ≡ length cipher + 68
  unfolding be32
  length-frame = omega (
    arith,
    length-append salt (iv ++ (cipher ++ tag)),
    length-append iv (cipher ++ tag),
    length-append cipher tag,
  )

  frame-salt : take 32 (drop 8 (frame salt iv cipher tag)) ≡ salt
  unfolding be32
  frame-salt = take_at 32 salt (iv ++ (cipher ++ tag)) hs

  frame-iv : take 12 (drop 40 (frame salt iv cipher tag)) ≡ iv
  unfolding be32
  frame-iv =
      ap (take 12) (drop_at 32 salt (iv ++ (cipher ++ tag)) hs) ∙ take_at 12 iv (cipher ++ tag) hi

  frame-cipher :
      take (length (frame salt iv cipher tag) - 52 - 16) (drop 52 (frame salt iv cipher tag))
      ≡ cipher
  unfolding be32
  frame-cipher =
      let room : length (frame salt iv cipher tag) - 52 - 16 ≡ length cipher =
        omega (arith, length-frame) in
      let behind : drop 52 (frame salt iv cipher tag) ≡ cipher ++ tag =
        sym (drop-drop 40 12 (frame salt iv cipher tag))
        ∙ ap (drop 12) (drop_at 32 salt (iv ++ (cipher ++ tag)) hs)
        ∙ drop_at 12 iv (cipher ++ tag) hi in
      rw (room, behind) (take-length-append cipher tag)

  frame-tag : drop (length (frame salt iv cipher tag) - 16) (frame salt iv cipher tag) ≡ tag
  unfolding be32
  frame-tag =
      let room : length (frame salt iv cipher tag) - 16 ≡ 52 + length cipher =
        omega (arith, length-frame) in
      let behind : drop 52 (frame salt iv cipher tag) ≡ cipher ++ tag =
        sym (drop-drop 40 12 (frame salt iv cipher tag))
        ∙ ap (drop 12) (drop_at 32 salt (iv ++ (cipher ++ tag)) hs)
        ∙ drop_at 12 iv (cipher ++ tag) hi in
      rw room (
        sym (drop-drop 52 (length cipher) (frame salt iv cipher tag))
        ∙ ap (drop (length cipher)) behind
        ∙ drop-length-append cipher tag)

  frame-long : ltb (length (frame salt iv cipher tag)) 68 ≡ false
  frame-long = ground (arith, length-frame)

  -- The fields that cs_decrypt reads out of a frame.
  cs_decrypt-frame :
      (password key text : Bytes)
      → o.pbkdf2 password salt default_iter ≡ some key
      → o.unseal key iv cipher tag ≡ some text
      → cs_decrypt o (frame salt iv cipher tag) password ≡ some (c_str text)
  unfolding cs_decrypt be32 read_be32 is_valid_iter str_eq
  cs_decrypt-frame password key text k u =
      rw (frame-long, frame-salt, k, frame-iv, frame-cipher, frame-tag, u) refl

-- What cs_encrypt makes of a C string of less than 2^31 bytes is opened by cs_decrypt with the same
-- password, and gives that string.
pub cs_decrypt-cs_encrypt :
    (o : OpenSsl) (draws : Draws) (text password blob : Bytes)
    → IsText text
    → cs_encrypt o draws text password ≡ some blob
    → cs_decrypt o blob password ≡ some text
unfolding cs_encrypt
cs_decrypt-cs_encrypt o draws text password blob t e = elim (Option-cases draws.salt) [
  | inl failed ↦ absurd (ground arith)
  | inr (salt, es) ↦ elim (Option-cases draws.iv) [
    | inl failed ↦ absurd (ground arith)
    | inr (iv, ei) ↦ elim (Option-cases (o.pbkdf2 password salt default_iter)) [
      | inl failed ↦ absurd (ground arith)
      | inr (key, ek) ↦ elim (Option-cases (o.seal key iv text)) [
        | inl failed ↦ absurd (ground (arith, plaintext_of-IsText text t.short))
        | inr ((cipher, tag), sealed) ↦
            let made : cs_encrypt o draws text password ≡ some (frame salt iv cipher tag) =
              rw (es, ei, ek, plaintext_of-IsText text t.short, sealed) refl in
            let same : frame salt iv cipher tag ≡ blob = some-inj (sym made ∙ e) in
            subst (λ b. cs_decrypt o b password ≡ some text) same
              (cs_decrypt-frame o salt iv cipher tag (draws.length-salt salt es)
                  (draws.length-iv iv ei) (o.length-tag key iv text cipher tag sealed) password key
                  text ek (o.unseal-seal key iv text cipher tag sealed)
                ∙ ap some (c_str-Plain text t.no_nul))
      ]
    ]
  ]
]
