-- ===== src/Crypto.antt =====
-- src/crypto_store.c: the object that holds the encrypted hosts. OpenSSL is a parameter; what the
-- random generator gives is an argument.
pub mod Format
pub mod RoundTrip
use sshpad.Prelude.{
  ℕ, ◌+◌, ◌-◌, ◌*◌, ◌/◌, ◌%◌, Bool, true, false, not, ◌||◌, Option, none, some, List, [], ◌∷◌, ◌++◌,
  ◌≡◌, ◌≢◌, ◌<◌, All, ◌==◌, ltb, if◌then◌else◌, Bytes, ℤ, pos, negsuc, int_of_bits, length, take,
  drop, str_eq, ◌>>=◌, ◌>>◌, guard,
}
use sshpad.Text.{c_str}

-- A C string whose length is an `int`.
pub record IsText (s : Bytes) : Type 0 where
  pub no_nul : All (λ c. c ≢ 0) s
  pub short : length s < 2147483648

-- What is used of OpenSSL: PBKDF2-HMAC-SHA256 with a key of 32 bytes, and AES-256-GCM with an IV of
-- 12 bytes and a tag of 16. Each call may fail; what was sealed is opened with the same key and IV.
pub record OpenSsl : Type 0 where
  pub pbkdf2 : Bytes → Bytes → ℕ → Option Bytes
  pub seal : Bytes → Bytes → Bytes → Option (Bytes × Bytes)
  pub unseal : Bytes → Bytes → Bytes → Bytes → Option Bytes
  pub length-tag :
      (key iv text cipher tag : Bytes) → seal key iv text ≡ some (cipher, tag) → length tag ≡ 16
  pub unseal-seal :
      (key iv text cipher tag : Bytes)
      → seal key iv text ≡ some (cipher, tag)
      → unseal key iv cipher tag ≡ some text

-- The two answers of RAND_bytes, which fills its buffer or fails.
pub record Draws : Type 0 where
  pub salt : Option Bytes
  pub iv : Option Bytes
  pub length-salt : (s : Bytes) → salt ≡ some s → length s ≡ 32
  pub length-iv : (s : Bytes) → iv ≡ some s → length s ≡ 12

-- "SPD\x01"
abbrev pub magic : Bytes
magic = 83 ∷ 80 ∷ 68 ∷ 1 ∷ []

abbrev pub default_iter : ℕ
default_iter = 600000

abbrev pub header_len : ℕ
header_len = 52

abbrev pub tag_len : ℕ
tag_len = 16

-- A uint32_t, its high byte first.
unfoldable pub be32 : ℕ → Bytes
be32 n = n / 16777216 % 256 ∷ n / 65536 % 256 ∷ n / 256 % 256 ∷ n % 256 ∷ []

unfoldable pub read_be32 : Bytes → ℕ
read_be32 (a ∷ b ∷ c ∷ d ∷ rest) = a * 16777216 + b * 65536 + c * 256 + d
read_be32 _ = 0

-- What EVP_EncryptUpdate is given: as many bytes as `(int)strlen(plaintext)` says. A negative length
-- is one that malloc refuses.
abbrev cut_at : ℤ → Bytes → Option Bytes
cut_at (pos n) text = some (take n text)
cut_at (negsuc n) text = none

unfoldable pub plaintext_of : Bytes → Option Bytes
plaintext_of text = cut_at (int_of_bits (length text)) text

abbrev pub frame : Bytes → Bytes → Bytes → Bytes → Bytes
frame salt iv cipher tag = magic ++ (be32 default_iter ++ (salt ++ (iv ++ (cipher ++ tag))))

unfoldable pub cs_encrypt : OpenSsl → Draws → Bytes → Bytes → Option Bytes
cs_encrypt o draws text password = do
  salt ← draws.salt
  iv ← draws.iv
  key ← o.pbkdf2 password salt default_iter
  plaintext ← plaintext_of text
  (cipher, tag) ← o.seal key iv plaintext
  some (frame salt iv cipher tag)

unfoldable pub is_valid_iter : ℕ → Bool
is_valid_iter n = not (n == 0 || ltb 10000000 n)

-- The string that comes back ends at its first NUL for those that read it.
unfoldable pub cs_decrypt : OpenSsl → Bytes → Bytes → Option Bytes
cs_decrypt o blob password = do
  guard (not (ltb (length blob) (header_len + tag_len)))
  guard (str_eq (take 4 blob) magic)
  guard (is_valid_iter (read_be32 (drop 4 blob)))
  key ← o.pbkdf2 password (take 32 (drop 8 blob)) (read_be32 (drop 4 blob))
  text ←
      o.unseal key (take 12 (drop 40 blob))
        (take (length blob - header_len - tag_len) (drop header_len blob))
        (drop (length blob - tag_len) blob)
  some (c_str text)
