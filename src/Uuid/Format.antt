-- ===== src/Uuid/Format.antt =====
-- The form of the identifiers that uuid_generate_v4 makes.
use sshpad.Prelude.{ℕ, ◌+◌, ◌/◌, ◌%◌, Option, some, ◌≡◌, refl, ap, arith, length, get_elem?}
use sshpad.Uuid.{hex_digit, random_byte, stamp, uuid_byte, uuid_generate_v4}

-- An identifier has 36 characters with dashes at 8, 13, 18 and 23, the version 4 at 14, and one of the
-- digits 8, 9, a and b at 19, whatever the random device gives.
pub uuid_generate_v4_lem :
    (source : Option (ℕ → ℕ))
    → (length (uuid_generate_v4 source) ≡ 36)
      × (get_elem? (uuid_generate_v4 source) 8 ≡ some 45)
      × (get_elem? (uuid_generate_v4 source) 13 ≡ some 45)
      × (get_elem? (uuid_generate_v4 source) 18 ≡ some 45)
      × (get_elem? (uuid_generate_v4 source) 23 ≡ some 45)
      × (get_elem? (uuid_generate_v4 source) 14 ≡ some (hex_digit 4))
      × (get_elem? (uuid_generate_v4 source) 19
          ≡ some (hex_digit (8 + (random_byte source 8 % 64) / 16)))
unfolding uuid_generate_v4 uuid_byte stamp
uuid_generate_v4_lem source = (
  refl,
  refl,
  refl,
  refl,
  refl,
  ap (λ n. some (hex_digit n)) (omega arith),
  ap (λ n. some (hex_digit n)) (omega arith),
)
