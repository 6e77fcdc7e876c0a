-- ===== src/Crc/Reference.antt =====
-- The same file: the two checksums one bit at a time, and that the tables compute them.
use package_compile_sys.Common.{
  ℕ, zero, suc, ◌+◌, ◌*◌, ◌/◌, ◌%◌, ◌^◌, ◌<◌, ◌≡◌, refl, sym, ap, ap₂, ◌∙◌, List, [], ◌∷◌, arith,
  ◌==◌, if◌then◌else◌,
}
use Prim.Native.Nat.{bit_xor}
use package_compile_sys.Crc.{crc_shift, crc_entry}
use package_compile_sys.Crc.Xor.{
  half-xor, low-xor, xor_zero, zero-bit_xor, xor_self, xor_comm, xor_assoc, xor_swap, xor-bits,
  xor-join, pow_suc,
}

-- The polynomial is added if the lowest bit is set.
added : ℕ → ℕ → ℕ
added poly crc = if crc % 2 == 1 then poly else 0

shift_added : (poly crc : ℕ) → crc_shift poly crc ≡ bit_xor (crc / 2) (added poly crc)
unfolding crc_shift added
shift_added poly crc = ground (arith, xor_zero (crc / 2))

added-xor : (poly x y : ℕ) → added poly (bit_xor x y) ≡ bit_xor (added poly x) (added poly y)
unfolding added
added-xor poly x y =
    ground (arith, low-xor x y, xor_self poly, xor_zero poly, zero-bit_xor poly, xor_zero 0)

-- A turn is linear.
shift-xor :
    (poly x y : ℕ) → crc_shift poly (bit_xor x y) ≡ bit_xor (crc_shift poly x) (crc_shift poly y)
shift-xor poly x y =
    rw
      (
        shift_added poly x,
        shift_added poly y,
        shift_added poly (bit_xor x y),
        half-xor x y,
        added-xor poly x y,
      )
      (xor_swap _ _ _ _)

entry-xor :
    (poly turns x y : ℕ)
    → crc_entry poly turns (bit_xor x y) ≡ bit_xor (crc_entry poly turns x) (crc_entry poly turns y)
unfolding crc_entry
entry-xor poly zero x y = refl
entry-xor poly (suc turns) x y =
    ap (crc_entry poly turns) (shift-xor poly x y) ∙ entry-xor poly turns _ _

shift_even : (poly x y : ℕ) → x ≡ y * 2 → crc_shift poly x ≡ y
unfolding crc_shift
shift_even poly x y e = ground (arith, e)

-- The turns take away zeros below.
entry_zeros : (poly turns h : ℕ) → crc_entry poly turns (h * 2 ^ turns) ≡ h
unfolding crc_entry
entry_zeros poly zero h = omega arith
entry_zeros poly (suc turns) h =
    ap (crc_entry poly turns) (shift_even poly _ _ (pow_suc h turns)) ∙ entry_zeros poly turns h

split_byte : (crc : ℕ) → crc ≡ bit_xor (crc / 256 * 2 ^ 8) (crc % 256)
split_byte crc = omega (arith, xor-join 8 (crc / 256) (crc % 256) (omega arith))

-- A byte taken in at once: the rest of the checksum, and the entry of its lowest byte.
pub entry_byte :
    (poly crc : ℕ) → crc_entry poly 8 crc ≡ bit_xor (crc / 256) (crc_entry poly 8 (crc % 256))
entry_byte poly crc =
    ap (crc_entry poly 8) (split_byte crc)
    ∙ entry-xor poly 8 (crc / 256 * 2 ^ 8) (crc % 256)
    ∙ ap (λ x. bit_xor x (crc_entry poly 8 (crc % 256))) (entry_zeros poly 8 (crc / 256))

-- A byte changes the lowest byte only.
xor_byte :
    (crc byte : ℕ) → byte < 256 → bit_xor crc byte ≡ crc / 256 * 256 + bit_xor (crc % 256) byte
xor_byte crc byte h =
    ap (λ x. bit_xor x byte) (split_byte crc)
    ∙ xor_assoc (crc / 256 * 2 ^ 8) (crc % 256) byte
    ∙ xor-join 8 (crc / 256) (bit_xor (crc % 256) byte) (xor-bits 8 _ _ (omega arith) h)

pub xor_div : (crc byte : ℕ) → byte < 256 → bit_xor crc byte / 256 ≡ crc / 256
xor_div crc byte h = omega (arith, xor_byte crc byte h, xor-bits 8 (crc % 256) byte (omega arith) h)

pub xor_mod : (crc byte : ℕ) → byte < 256 → bit_xor crc byte % 256 ≡ bit_xor (crc % 256) byte
xor_mod crc byte h = omega (arith, xor_byte crc byte h, xor-bits 8 (crc % 256) byte (omega arith) h)

-- A register that is shifted by one bit of the message: the polynomial is added when the bit and the
-- lowest bit of the register differ.
abbrev pub shift_in : ℕ → ℕ → ℕ → ℕ
shift_in poly crc bit = if (crc + bit) % 2 == 1 then bit_xor (crc / 2) poly else crc / 2

-- `n` bits of a number, from the lowest one on.
unfoldable pub serial_bits : ℕ → ℕ → ℕ → ℕ → ℕ
serial_bits poly zero crc byte = crc
serial_bits poly (suc n) crc byte = serial_bits poly n (shift_in poly crc (byte % 2)) (byte / 2)

unfoldable pub serial : ℕ → ℕ → List ℕ → ℕ
serial poly crc [] = crc
serial poly crc (byte ∷ bytes) = serial poly (serial_bits poly 8 crc byte) bytes

shift_in-added :
    (poly crc byte : ℕ)
    → shift_in poly crc (byte % 2) ≡ bit_xor (crc / 2) (added poly (bit_xor crc byte))
unfolding added
shift_in-added poly crc byte = ground (arith, low-xor crc byte, xor_zero (crc / 2))

shift-in :
    (poly crc byte : ℕ)
    → crc_shift poly (bit_xor crc byte) ≡ bit_xor (shift_in poly crc (byte % 2)) (byte / 2)
shift-in poly crc byte =
    rw (shift_added poly (bit_xor crc byte), half-xor crc byte, shift_in-added poly crc byte)
      (xor_assoc _ _ _ ∙ ap (bit_xor (crc / 2)) (xor_comm _ _) ∙ sym (xor_assoc _ _ _))

-- The bits of a byte can be added at once.
pub entry-serial_bits :
    (poly n crc byte : ℕ)
    → byte < 2 ^ n
    → crc_entry poly n (bit_xor crc byte) ≡ serial_bits poly n crc byte
unfolding crc_entry serial_bits
entry-serial_bits poly zero crc zero h = xor_zero crc
entry-serial_bits poly zero crc (suc byte) h = absurd (omega arith)
entry-serial_bits poly (suc n) crc byte h =
    ap (crc_entry poly n) (shift-in poly crc byte)
    ∙ entry-serial_bits poly n _ (byte / 2) (omega arith)

-- A byte by the table.
pub serial-table :
    (poly crc byte : ℕ)
    → byte < 256
    → bit_xor (crc / 256) (crc_entry poly 8 (bit_xor (crc % 256) byte))
      ≡ serial_bits poly 8 crc byte
serial-table poly crc byte h =
    ap₂ (λ x y. bit_xor x (crc_entry poly 8 y)) (sym (xor_div crc byte h))
      (sym (xor_mod crc byte h))
    ∙ sym (entry_byte poly (bit_xor crc byte))
    ∙ entry-serial_bits poly 8 crc byte h
