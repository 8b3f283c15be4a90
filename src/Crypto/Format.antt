-- ===== src/Crypto/Format.antt =====
-- The objects that cs_decrypt accepts.
use sshpad.Prelude.{
  ℕ, zero, suc, ◌+◌, ◌-◌, ◌*◌, ◌/◌, ◌%◌, ◌<◌, ◌≤◌, true, false, some, [], ◌∷◌, ◌++◌, ◌≡◌, refl, sym,
  ap, ap₂, ◌∙◌, arith, inl, inr, Bytes, All, length, take, drop, drop-drop, take-append-drop,
  length-take, length-drop, ltb, Option-cases, some-inj, none-some, str_eq, str_eq_iff,
}
use sshpad.Text.{c_str}
use sshpad.Crypto.{OpenSsl, magic, be32, read_be32, cs_decrypt, is_valid_iter}

-- The parts of an object, with the key of the password and what the tag vouches for.
pub record Opened (o : OpenSsl) (blob password text : Bytes) : Type 0 where
  pub iter : ℕ
  pub salt : Bytes
  pub iv : Bytes
  pub cipher : Bytes
  pub tag : Bytes
  pub key : Bytes
  pub plaintext : Bytes
  pub parts : blob ≡ magic ++ (be32 iter ++ (salt ++ (iv ++ (cipher ++ tag))))
  pub iter_bounds : (0 < iter) × (iter ≤ 10000000)
  pub lengths : (length salt ≡ 32) × (length iv ≡ 12) × (length tag ≡ 16)
  pub derived : o.pbkdf2 password salt iter ≡ some key
  pub verified : o.unseal key iv cipher tag ≡ some plaintext
  pub result : text ≡ c_str plaintext

abbrev pub IsByte : ℕ → Type 0
IsByte b = b < 256

be32-digits :
    (a b c d : ℕ)
    → a < 256
    → b < 256
    → c < 256
    → d < 256
    → be32 (a * 16777216 + b * 65536 + c * 256 + d) ≡ a ∷ b ∷ c ∷ d ∷ []
unfolding be32
be32-digits a b c d ha hb hc hd =
    let n : ℕ = a * 16777216 + b * 65536 + c * 256 + d in
    let first : n / 16777216 % 256 ≡ a = omega arith in
    let second : n / 65536 % 256 ≡ b = omega arith in
    let third : n / 256 % 256 ≡ c = omega arith in
    let fourth : n % 256 ≡ d = omega arith in rw (first, second, third, fourth) refl

be32-read_be32 : (s : Bytes) → 4 ≤ length s → All IsByte s → be32 (read_be32 s) ≡ take 4 s
unfolding read_be32
be32-read_be32 [] h hb = absurd (omega arith)
be32-read_be32 (a ∷ []) h hb = absurd (omega arith)
be32-read_be32 (a ∷ b ∷ []) h hb = absurd (omega arith)
be32-read_be32 (a ∷ b ∷ c ∷ []) h hb = absurd (omega arith)
be32-read_be32 (a ∷ b ∷ c ∷ d ∷ rest) h hb = be32-digits a b c d hb.0 hb.1.0 hb.1.1.0 hb.1.1.1.0

All-drop : (n : ℕ) (s : Bytes) → All IsByte s → All IsByte (drop n s)
All-drop zero s h = h
All-drop (suc n) [] h = h
All-drop (suc n) (x ∷ s) h = All-drop n s h.1

-- What stands from byte `k` on is a field of `n` bytes and the rest.
peel : (k n : ℕ) (s rest : Bytes) → drop (k + n) s ≡ rest → drop k s ≡ take n (drop k s) ++ rest
peel k n s rest e =
    sym (take-append-drop n (drop k s)) ∙ ap (λ r. take n (drop k s) ++ r) (drop-drop k n s ∙ e)

abbrev sealed_part : Bytes → Bytes
sealed_part blob = take (length blob - 52 - 16) (drop 52 blob)

blob_parts :
    (blob : Bytes)
    → All IsByte blob
    → 68 ≤ length blob
    → take 4 blob ≡ magic
    → blob
      ≡ magic
        ++ (be32 (read_be32 (drop 4 blob))
            ++ (take 32 (drop 8 blob)
                ++ (take 12 (drop 40 blob) ++ (sealed_part blob ++ drop (length blob - 16) blob))))
blob_parts blob bytes long known =
    let tag_at : 52 + (length blob - 52 - 16) ≡ length blob - 16 = omega arith in
    let count : be32 (read_be32 (drop 4 blob)) ≡ take 4 (drop 4 blob) =
      be32-read_be32 (drop 4 blob) (omega (arith, length-drop 4 blob)) (All-drop 4 blob bytes) in
    (peel 0 4 blob _ (
      peel 4 4 blob _ (
        peel 8 32 blob _ (
          peel 40 12 blob _
            (peel 52 (length blob - 52 - 16) blob _ (ap (λ n. drop n blob) tag_at))))))
    ∙ ap₂
        (λ m n.
          m
          ++ (n
              ++ (take 32 (drop 8 blob)
                  ++ (take 12 (drop 40 blob)
                      ++ (sealed_part blob ++ drop (length blob - 16) blob)))))
        known (sym count)

iter_range : (n : ℕ) → is_valid_iter n ≡ true → (0 < n) × (n ≤ 10000000)
unfolding is_valid_iter
iter_range n h = ground arith

part_lengths :
    (blob : Bytes)
    → 68 ≤ length blob
    → (length (take 32 (drop 8 blob)) ≡ 32)
      × (length (take 12 (drop 40 blob)) ≡ 12)
      × (length (drop (length blob - 16) blob) ≡ 16)
part_lengths blob long = (
  length-take 32 (drop 8 blob) (omega (arith, length-drop 8 blob)),
  length-take 12 (drop 40 blob) (omega (arith, length-drop 40 blob)),
  omega (arith, length-drop (length blob - 16) blob),
)

-- cs_decrypt gives a text only for an object of the format: the magic number, a count of iterations
-- from 1 to ten million, a salt, an IV, the sealed text and a tag that the key of the password
-- verifies.
pub cs_decrypt-Opened :
    (o : OpenSsl) (blob password text : Bytes)
    → All IsByte blob
    → cs_decrypt o blob password ≡ some text
    → Opened o blob password text
unfolding cs_decrypt
cs_decrypt-Opened o blob password text bytes e =
    let long : 68 ≤ length blob = ground arith in
    let known : str_eq (take 4 blob) magic ≡ true = ground arith in
    let count : is_valid_iter (read_be32 (drop 4 blob)) ≡ true = ground arith in
    let enough : ltb (length blob) 68 ≡ false = ground arith in
    elim (Option-cases (o.pbkdf2 password (take 32 (drop 8 blob)) (read_be32 (drop 4 blob)))) [
      | inl failed ↦ none-some (sym (rw (enough, known, count, failed) refl) ∙ e)
      | inr (key, ek) ↦
          elim (Option-cases (
            o.unseal key (take 12 (drop 40 blob)) (sealed_part blob)
              (drop (length blob - 16) blob))) [
                | inl failed ↦ none-some (sym (rw (enough, known, count, ek, failed) refl) ∙ e)
                | inr (plaintext, ep) ↦ record {
                  iter = read_be32 (drop 4 blob);
                  salt = take 32 (drop 8 blob);
                  iv = take 12 (drop 40 blob);
                  cipher = sealed_part blob;
                  tag = drop (length blob - 16) blob;
                  key = key;
                  plaintext = plaintext;
                  parts = blob_parts blob bytes long ((str_eq_iff (take 4 blob) magic).0 known);
                  iter_bounds = iter_range (read_be32 (drop 4 blob)) count;
                  lengths = part_lengths blob long;
                  derived = ek;
                  verified = ep;
                  result = some-inj (sym e ∙ rw (enough, known, count, ek, ep) refl);
                }
              ]
    ]
