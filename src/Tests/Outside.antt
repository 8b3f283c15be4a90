-- ===== src/Tests/Outside.antt =====
-- Concrete functions in the place of json-c, OpenSSL and the clock, for which the laws hold.
use sshpad.Prelude.{
  ℕ, zero, suc, ◌-◌, ◌≤◌, Option, none, some, List, [], ◌∷◌, ◌++◌, map, ◌≡◌, refl, ◌≢◌, ap, ap₂,
  sym, ◌∙◌, arith, Bytes, ℤ, pos, negsuc, All, length, take, drop, replicate, length-append,
  take-length-append, drop-length-append, some-inj, codes, ◌%◌,
}
use sshpad.Json.{JsonC, assoc}
use sshpad.Config.Fields.{is_empty}
use sshpad.Crypto.{OpenSsl, Draws}
use sshpad.Uuid.{hex_digit}
use sshpad.R2.Sign.{Hashing, Now, hex}

-- Several texts in one, each behind its length, and back.
abbrev pub frames : List Bytes → Bytes
frames [] = []
frames (s ∷ ss) = length s ∷ (s ++ frames ss)

abbrev unframe : ℕ → Bytes → List Bytes
unframe zero s = []
unframe (suc fuel) [] = []
unframe (suc fuel) (n ∷ s) = take n s ∷ unframe fuel (drop n s)

pub unframe-frames :
    (ss : List Bytes) (fuel : ℕ) → length (frames ss) ≤ fuel → unframe fuel (frames ss) ≡ ss
unframe-frames [] zero enough = refl
unframe-frames [] (suc fuel) enough = refl
unframe-frames (s ∷ ss) zero enough = absurd (omega arith)
unframe-frames (s ∷ ss) (suc fuel) enough =
    let rest : length (frames ss) ≤ fuel = omega (arith, length-append s (frames ss)) in
    rw
      (
        take-length-append s (frames ss),
        drop-length-append s (frames ss),
        unframe-frames ss fuel rest,
      )
      refl

abbrev pub members : List (Bytes × Bytes) → List Bytes
members [] = []
members ((k, j) ∷ ps) = k ∷ j ∷ members ps

abbrev pairs : List Bytes → List (Bytes × Bytes)
pairs [] = []
pairs (k ∷ []) = []
pairs (k ∷ j ∷ ss) = (k, j) ∷ pairs ss

pub pairs-members : (ps : List (Bytes × Bytes)) → pairs (members ps) ≡ ps
pairs-members [] = refl
pairs-members ((k, j) ∷ ps) = ap (◌∷◌ (k, j)) (pairs-members ps)

-- A value is its text: the first number says of what kind it is, and null is the empty text.
abbrev string_of : Bytes → Option Bytes
string_of [] = none
string_of (kind ∷ s) = some s

abbrev int_of : Bytes → ℤ
int_of (kind ∷ zero ∷ n ∷ s) = pos n
int_of (kind ∷ suc sign ∷ n ∷ s) = negsuc n
int_of _ = pos 0

abbrev int_value : ℤ → Bytes
int_value (pos n) = 2 ∷ 0 ∷ n ∷ []
int_value (negsuc n) = 2 ∷ 1 ∷ n ∷ []

pub int_of-int_value : (n : ℤ) → int_of (int_value n) ≡ n
int_of-int_value (pos n) = refl
int_of-int_value (negsuc n) = refl

abbrev elements_of : Bytes → Option (List Bytes)
elements_of [] = none
elements_of (kind ∷ s) = some (unframe (length s) s)

abbrev member_of : Bytes → Bytes → Option Bytes
member_of [] key = none
member_of (kind ∷ s) key = assoc (pairs (unframe (length s) s)) key

abbrev lower : Bytes → Bytes
lower [] = []
lower (x ∷ xs) = (x - 1) ∷ lower xs

pub lower-suc : (s : Bytes) → lower (map suc s) ≡ s
lower-suc [] = refl
lower-suc (x ∷ xs) = ap₂ ◌∷◌ (omega arith) (lower-suc xs)

pub suc-no_nul : (s : Bytes) → All (λ c. c ≢ 0) (map suc s)
suc-no_nul [] = tt
suc-no_nul (x ∷ xs) = (omega arith, suc-no_nul xs)

abbrev pub json_c : JsonC
unfolding is_empty
json_c = record {
  Json = Bytes;
  is_null = is_empty;
  new_string = λ s. 1 ∷ s;
  new_int = int_value;
  new_array = λ js. 3 ∷ frames js;
  new_object = λ ps. 4 ∷ frames (members ps);
  object_get_ex = member_of;
  elements = elements_of;
  get_string = string_of;
  get_int = int_of;
  to_json_string = λ style j. map suc j;
  tokener_parse = λ s. some (lower s);
  printed_null = 40 ∷ 41 ∷ [];
  IsNested = λ n j. Unit;
  get_string-new_string = λ s. refl;
  get_int-new_int = int_of-int_value;
  elements-new_array = λ js. ap some (unframe-frames js (length (frames js)) (omega arith));
  object_get_ex-new_object = λ ps key u.
      ap (λ qs. assoc qs key)
        (ap pairs (unframe-frames (members ps) (length (frames (members ps))) (omega arith))
          ∙ pairs-members ps);
  string_not_null = λ s. refl;
  object_not_null = λ ps. refl;
  array_not_null = λ js. refl;
  new_string-IsNested = λ n s. tt;
  new_int-IsNested = λ n i. tt;
  new_array-IsNested = λ n js nested. tt;
  new_object-IsNested = λ n ps nested. tt;
  tokener_parse-to_json_string = λ style j not_null nested. ap some (lower-suc j);
  to_json_string-no_nul = λ style j. suc-no_nul j;
}

-- The key is the password, and the tag has no use.
abbrev pub tag : Bytes
tag = replicate 16 7

abbrev pub openssl : OpenSsl
openssl = record {
  pbkdf2 = λ password salt iter. some password;
  seal = λ key iv text. some (text, tag);
  unseal = λ key iv cipher tag. some cipher;
  length-tag =
      λ key iv text cipher t e. ap length (sym (ap (λ (p : Bytes × Bytes). p.1) (some-inj e)));
  unseal-seal =
      λ key iv text cipher t e. ap some (sym (ap (λ (p : Bytes × Bytes). p.0) (some-inj e)));
}

abbrev pub draws : Draws
draws = record {
  salt = some (replicate 32 5);
  iv = some (replicate 12 6);
  length-salt = λ s e. ap length (sym (some-inj e));
  length-iv = λ s e. ap length (sym (some-inj e));
}

-- The digest of the empty text is the one of SHA-256.
abbrev digest : Bytes → Bytes
digest [] =
    227 ∷ 176 ∷ 196 ∷ 66 ∷ 152 ∷ 252 ∷ 28 ∷ 20 ∷ 154 ∷ 251 ∷ 244 ∷ 200 ∷ 153 ∷ 111 ∷ 185 ∷ 36 ∷ 39
    ∷ 174 ∷ 65 ∷ 228 ∷ 100 ∷ 155 ∷ 147 ∷ 76 ∷ 164 ∷ 149 ∷ 153 ∷ 27 ∷ 120 ∷ 82 ∷ 184 ∷ 85 ∷ []
digest (b ∷ bs) = replicate 32 (b % 256)

pub length-digest : (s : Bytes) → length (digest s) ≡ 32
length-digest [] = refl
length-digest (b ∷ bs) = refl

abbrev pub hashing : Hashing
unfolding hex hex_digit
hashing = record {
  sha256 = digest;
  hmac_sha256 = λ key s. digest s;
  length-sha256 = length-digest;
  length-hmac = λ key s. length-digest s;
  sha256_nil = refl;
}

abbrev pub now : Now
now = record {
  date = codes "20261126";
  datetime = codes "20261126T061428Z";
  length-date = refl;
  length-datetime = refl;
}
