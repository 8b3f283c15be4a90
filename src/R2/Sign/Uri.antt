-- ===== src/R2/Sign/Uri.antt =====
-- The encoding of a path that AWS Signature V4 asks for; sign_request of src/r2_client.c has none.
use sshpad.Prelude.{
  ℕ, ◌+◌, ◌/◌, ◌%◌, Bool, true, ◌&&◌, ◌||◌, ◌==◌, leb, ltb, if◌then◌else◌, [], ◌∷◌, ◌≡◌, refl,
  arith, Bytes,
}

-- A digit of a number in base 16, in upper case.
abbrev pub upper_digit : ℕ → ℕ
upper_digit n = if ltb n 10 then 48 + n else 55 + n

abbrev between : ℕ → ℕ → ℕ → Bool
between a b c = leb a c && leb c b

-- A letter, a digit, or one of - . _ ~
unfoldable pub is_unreserved : ℕ → Bool
is_unreserved c =
    between 65 90 c
    || between 97 122 c
    || between 48 57 c
    || c == b'-'
    || c == b'.'
    || c == b'_'
    || c == b'~'

-- UriEncode of a path: every byte but these and the slashes between the names becomes %XY.
unfoldable pub uri_encode : Bytes → Bytes
unfolding is_unreserved
uri_encode [] = []
uri_encode (c ∷ cs) =
    let rest = uri_encode cs in
    if is_unreserved c || c == b'/'
    then c ∷ rest
    else b'%' ∷ upper_digit (c / 16) ∷ upper_digit (c % 16) ∷ rest

-- A path that has no byte to encode.
unfoldable pub is_plain : Bytes → Bool
unfolding is_unreserved
is_plain [] = true
is_plain (c ∷ cs) = (is_unreserved c || c == b'/') && is_plain cs

pub uri_encode_plain : (path : Bytes) → is_plain path ≡ true → uri_encode path ≡ path
unfolding uri_encode is_plain
uri_encode_plain [] plain = refl
uri_encode_plain (c ∷ cs) plain = ground (arith, uri_encode_plain cs)
