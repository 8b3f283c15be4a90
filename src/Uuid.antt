-- ===== src/Uuid.antt =====
-- src/util.c: uuid_generate_v4. A byte of the random device is an argument; setting and clearing bits
-- is written with remainders and sums.
pub mod Format
use sshpad.Prelude.{
  ℕ, ◌+◌, ◌/◌, ◌%◌, Option, none, some, [], ◌∷◌, ◌++◌, Bytes, ltb, ◌==◌, if◌then◌else◌,
}

-- A digit of `%x`.
unfoldable pub hex_digit : ℕ → ℕ
hex_digit n = if ltb n 10 then 48 + n else 87 + n

-- "%02x", of a byte.
abbrev pub hex_byte : ℕ → Bytes
hex_byte b = hex_digit (b / 16) ∷ hex_digit (b % 16) ∷ []

-- The bytes that were read; zeros if the device cannot be opened or gives fewer than 16.
unfoldable pub random_byte : Option (ℕ → ℕ) → ℕ → ℕ
random_byte none i = 0
random_byte (some read) i = read i

-- The bytes with the version in byte 6 and the variant in byte 8.
unfoldable pub stamp : ℕ → ℕ → ℕ
stamp i b = if i == 6 then b % 16 + 64 else if i == 8 then b % 64 + 128 else b

unfoldable pub uuid_byte : Option (ℕ → ℕ) → ℕ → Bytes
uuid_byte source i = hex_byte (stamp i (random_byte source i))

unfoldable pub uuid_generate_v4 : Option (ℕ → ℕ) → Bytes
uuid_generate_v4 source =
    uuid_byte source 0
    ++ (uuid_byte source 1
        ++ (uuid_byte source 2
            ++ (uuid_byte source 3
                ++ (45
                    ∷ (uuid_byte source 4
                        ++ (uuid_byte source 5
                            ++ (45
                                ∷ (uuid_byte source 6
                                    ++ (uuid_byte source 7
                                        ++ (45
                                            ∷ (uuid_byte source 8
                                                ++ (uuid_byte source 9
                                                    ++ (45
                                                        ∷ (uuid_byte source 10
                                                            ++ (uuid_byte source 11
                                                            ++ (uuid_byte source 12
                                                            ++ (uuid_byte source 13
                                                            ++ (uuid_byte source 14
                                                            ++ uuid_byte source 15))))))))))))))))))
