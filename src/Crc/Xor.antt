-- ===== src/Crc/Xor.antt =====
-- The laws of the exclusive or of two numbers, from its lowest digit on.
use package_compile_sys.Common.{
  ℕ, zero, suc, ◌+◌, ◌*◌, ◌/◌, ◌%◌, ◌≤◌, ◌<◌, ◌^◌, ◌≡◌, refl, sym, ap, ◌∙◌, arith,
}
use native.Mathlib.Nat.{mul_assoc}
use Prim.Native.Nat.{bit_xor, bit_xor-bitwise, digits, differ}

abbrev xor_digits : ℕ → ℕ → ℕ → ℕ
xor_digits n a b = digits (λ b. b) differ n a b

xor_digits_fuel : (n m a b : ℕ) → a ≤ n → a ≤ m → xor_digits n a b ≡ xor_digits m a b
xor_digits_fuel zero zero a b p q = refl
xor_digits_fuel zero (suc m) zero b p q = refl
xor_digits_fuel zero (suc m) (suc a) b p q = absurd (omega arith)
xor_digits_fuel (suc n) zero zero b p q = refl
xor_digits_fuel (suc n) zero (suc a) b p q = absurd (omega arith)
xor_digits_fuel (suc n) (suc m) zero b p q = refl
xor_digits_fuel (suc n) (suc m) (suc a) b p q =
    omega (arith, xor_digits_fuel n m (suc a / 2) (b / 2) (omega arith) (omega arith))

pub zero-bit_xor : (b : ℕ) → bit_xor 0 b ≡ b
zero-bit_xor b = bit_xor-bitwise 0 b

differ_bits : (x y : ℕ) → x < 2 → y < 2 → differ x y ≡ (x + y) % 2
differ_bits zero y p q = omega arith
differ_bits (suc x) zero p q = omega arith
differ_bits (suc zero) (suc zero) p q = refl
differ_bits (suc zero) (suc (suc y)) p q = absurd (omega arith)
differ_bits (suc (suc x)) (suc y) p q = absurd (omega arith)

differ_low : (a b : ℕ) → differ (a % 2) (b % 2) ≡ (a + b) % 2
differ_low a b = omega (arith, differ_bits (a % 2) (b % 2) (omega arith) (omega arith))

xor_step : (a b : ℕ) → bit_xor a b ≡ bit_xor (a / 2) (b / 2) * 2 + (a + b) % 2
xor_step zero b = omega (arith, zero-bit_xor b, zero-bit_xor (b / 2))
xor_step (suc a) b = omega (
  arith,
  bit_xor-bitwise (suc a) b,
  bit_xor-bitwise (suc a / 2) (b / 2),
  xor_digits_fuel a (suc a / 2) (suc a / 2) (b / 2) (omega arith) (omega arith),
  differ_low (suc a) b,
)

pub half-xor : (a b : ℕ) → bit_xor a b / 2 ≡ bit_xor (a / 2) (b / 2)
half-xor a b = omega (arith, xor_step a b)

pub low-xor : (a b : ℕ) → bit_xor a b % 2 ≡ (a + b) % 2
low-xor a b = omega (arith, xor_step a b)

xor-zero_fuel : (n a : ℕ) → a ≤ n → bit_xor a 0 ≡ a
xor-zero_fuel zero zero h = refl
xor-zero_fuel zero (suc a) h = absurd (omega arith)
xor-zero_fuel (suc n) a h = omega (arith, xor_step a 0, xor-zero_fuel n (a / 2) (omega arith))

pub xor_zero : (a : ℕ) → bit_xor a 0 ≡ a
xor_zero a = xor-zero_fuel a a (omega arith)

xor_self_fuel : (n a : ℕ) → a ≤ n → bit_xor a a ≡ 0
xor_self_fuel zero zero h = refl
xor_self_fuel zero (suc a) h = absurd (omega arith)
xor_self_fuel (suc n) a h = omega (arith, xor_step a a, xor_self_fuel n (a / 2) (omega arith))

pub xor_self : (a : ℕ) → bit_xor a a ≡ 0
xor_self a = xor_self_fuel a a (omega arith)

xor_comm_fuel : (n a b : ℕ) → a ≤ n → bit_xor a b ≡ bit_xor b a
xor_comm_fuel zero zero b h = omega (arith, zero-bit_xor b, xor_zero b)
xor_comm_fuel zero (suc a) b h = absurd (omega arith)
xor_comm_fuel (suc n) a b h =
    omega (arith, xor_step a b, xor_step b a, xor_comm_fuel n (a / 2) (b / 2) (omega arith))

pub xor_comm : (a b : ℕ) → bit_xor a b ≡ bit_xor b a
xor_comm a b = xor_comm_fuel a a b (omega arith)

xor_assoc_fuel : (n a b c : ℕ) → a ≤ n → bit_xor (bit_xor a b) c ≡ bit_xor a (bit_xor b c)
xor_assoc_fuel zero zero b c h = rw (zero-bit_xor b, zero-bit_xor (bit_xor b c)) refl
xor_assoc_fuel zero (suc a) b c h = absurd (omega arith)
xor_assoc_fuel (suc n) a b c h =
    let ih = xor_assoc_fuel n (a / 2) (b / 2) (c / 2) (omega arith) in
    let l : bit_xor (bit_xor a b / 2) (c / 2) ≡ bit_xor (a / 2) (bit_xor b c / 2) =
      rw (half-xor a b, half-xor b c) ih in
    omega (arith, xor_step (bit_xor a b) c, xor_step a (bit_xor b c), low-xor a b, low-xor b c, l)

pub xor_assoc : (a b c : ℕ) → bit_xor (bit_xor a b) c ≡ bit_xor a (bit_xor b c)
xor_assoc a b c = xor_assoc_fuel a a b c (omega arith)

-- The pairs of two exclusive ors change places.
pub xor_swap :
    (a b c d : ℕ) → bit_xor (bit_xor a b) (bit_xor c d) ≡ bit_xor (bit_xor a c) (bit_xor b d)
xor_swap a b c d =
    xor_assoc a b (bit_xor c d)
    ∙ ap (bit_xor a)
        (sym (xor_assoc b c d) ∙ ap (λ x. bit_xor x d) (xor_comm b c) ∙ xor_assoc c b d)
    ∙ sym (xor_assoc a c (bit_xor b d))

-- An exclusive or has no more digits than its arguments.
pub xor-bits : (n a b : ℕ) → a < 2 ^ n → b < 2 ^ n → bit_xor a b < 2 ^ n
xor-bits zero zero b p q = omega (arith, zero-bit_xor b)
xor-bits zero (suc a) b p q = absurd (omega arith)
xor-bits (suc n) a b p q =
    omega (arith, xor_step a b, xor-bits n (a / 2) (b / 2) (omega arith) (omega arith))

pub pow_suc : (a n : ℕ) → a * 2 ^ suc n ≡ a * 2 ^ n * 2
pow_suc a n = ap (λ x. a * x) (omega arith) ∙ sym (mul_assoc a (2 ^ n) 2)

half_of : (x y : ℕ) → x ≡ y * 2 → x / 2 ≡ y
half_of x y e = omega (arith, e)

-- A multiple of 2 ^ n and a number below 2 ^ n are combined by their sum.
pub xor-join : (n a b : ℕ) → b < 2 ^ n → bit_xor (a * 2 ^ n) b ≡ a * 2 ^ n + b
xor-join zero a zero p = omega (arith, xor_zero (a * 1))
xor-join zero a (suc b) p = absurd (omega arith)
xor-join (suc n) a b p =
    let e = pow_suc a n in
    omega (
      arith,
      e,
      xor_step (a * 2 ^ suc n) b,
      xor-join n a (b / 2) (omega arith),
      ap (λ x. bit_xor x (b / 2)) (half_of (a * 2 ^ suc n) (a * 2 ^ n) e),
    )
