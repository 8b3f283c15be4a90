-- ===== src/Prelude/Int.antt =====
-- The values of a C `int`, under the library's names (its ℤ stands on the unary ℕ).
use Prim.Native.Nat.{ℕ, ◌-◌, ◌%◌}
use mathlib.Core.Bool.{Bool, false}
use sshpad.Prelude.Tests.{ltb, ◌==◌, if◌then◌else◌}

-- `negsuc n` is -(n + 1).
pub data ℤ : Type 0 where
  pos : ℕ → ℤ
  negsuc : ℕ → ℤ

abbrev pub is_pos : ℤ → Bool
is_pos (pos n) = ltb 0 n
is_pos (negsuc n) = false

abbrev pub is_zero : ℤ → Bool
is_zero (pos n) = n == 0
is_zero (negsuc n) = false

abbrev pub to_ℕ : ℤ → ℕ
to_ℕ (pos n) = n
to_ℕ (negsuc n) = 0

-- The `int` with the low 32 bits `u % 2 ^ 32`.
abbrev pub int_of_bits : ℕ → ℤ
int_of_bits u =
    if ltb (u % 4294967296) 2147483648
    then pos (u % 4294967296)
    else negsuc (4294967295 - u % 4294967296)
