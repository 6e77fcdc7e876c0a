-- ===== src/Common/Words.antt =====
-- Unsigned machine words as native numbers: `size_t` has 32 bits on the ARM target, a byte 8.
use Prim.Native.Nat.{ℕ, ◌+◌, ◌-◌, ◌%◌, ◌^◌, ◌<◌}
use mathlib.Core.List.{List, [], ◌∷◌}

abbrev pub size_mod : ℕ
size_mod = 2 ^ 32

abbrev pub add_size : ℕ → ℕ → ℕ
add_size a b = (a + b) % size_mod

-- The second operand is itself a `size_t`, so the modulus covers it.
abbrev pub sub_size : ℕ → ℕ → ℕ
sub_size a b = (a + size_mod - b) % size_mod

abbrev pub byte_mod : ℕ
byte_mod = 256

-- A list of bytes.
abbrev pub AllBytes : List ℕ → Type 0
AllBytes [] = Unit {0}
AllBytes (a ∷ bin) = (a < 256) × AllBytes bin
