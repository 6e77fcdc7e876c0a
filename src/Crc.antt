-- ===== src/Crc.antt =====
-- app/cppUtils/CrcTool/CrcTool.cpp and CrcTool.h: two checksums by tables. A number of 8, 16 or 32 bits
-- is a natural number below that power of 2, a table that was not made `none`, and a read through it
-- has no result.
pub mod Xor
pub mod Tables
pub mod Reference
pub mod Detect
mod Tests
use package_compile_sys.Common.{
  ℕ, zero, suc, ◌+◌, ◌*◌, ◌/◌, ◌%◌, ◌^◌, List, [], ◌∷◌, Option, none, some, ◌==◌, if◌then◌else◌,
  get_elem?,
}
use Prim.Native.Nat.{bit_xor}

-- A turn of the inner loops of `GenerateCrc16Table` and `GenerateCrc32Table`, by the reflected polynomial.
unfoldable pub crc_shift : ℕ → ℕ → ℕ
crc_shift poly crc = if crc % 2 == 1 then bit_xor (crc / 2) poly else crc / 2

unfoldable pub crc_entry : ℕ → ℕ → ℕ → ℕ
crc_entry poly zero crc = crc
crc_entry poly (suc turns) crc = crc_entry poly turns (crc_shift poly crc)

-- `n` entries from the one with index `i` on.
unfoldable pub fill_table : (ℕ → ℕ) → ℕ → ℕ → List ℕ
fill_table entry zero i = []
fill_table entry (suc n) i = entry i ∷ fill_table entry n (i + 1)

abbrev pub poly_16 : ℕ
poly_16 = 0xA001

abbrev pub poly_32 : ℕ
poly_32 = 0xEDB88320

-- `CrcToolMode_t`.
pub data CrcToolMode : Type 0 where
  min_mode rstb_16 rstb_32 max_mode : CrcToolMode

-- The three tables of a `CrcTool`.
pub record CrcTool : Type 0 where
  pub m_hi16_tbl : Option (List ℕ)
  pub m_low16_tbl : Option (List ℕ)
  pub m_crc_u32_tbl : Option (List ℕ)

unfoldable pub generate_crc16_table : CrcTool → CrcTool
generate_crc16_table this = record this {
  m_hi16_tbl = some (fill_table (λ j. crc_entry poly_16 8 j % 256) 256 0);
  m_low16_tbl = some (fill_table (λ j. crc_entry poly_16 8 j / 256 % 256) 256 0);
}

unfoldable pub generate_crc32_table : CrcTool → CrcTool
generate_crc32_table this = record this {
  m_crc_u32_tbl = some (fill_table (λ i. crc_entry poly_32 8 i) 256 0);
}

-- The constructor; `new` throws when it fails, so its result is never NULL.
unfoldable pub crc_tool : CrcToolMode → CrcTool
crc_tool min_mode = record { m_hi16_tbl = none; m_low16_tbl = none; m_crc_u32_tbl = none }
crc_tool rstb_16 =
    generate_crc16_table (record { m_hi16_tbl = none; m_low16_tbl = none; m_crc_u32_tbl = none })
crc_tool rstb_32 =
    generate_crc32_table (record { m_hi16_tbl = none; m_low16_tbl = none; m_crc_u32_tbl = none })
crc_tool max_mode = record { m_hi16_tbl = none; m_low16_tbl = none; m_crc_u32_tbl = none }

-- A read of a table.
unfoldable pub entry_of : Option (List ℕ) → ℕ → Option ℕ
entry_of none index = none
entry_of (some tbl) index = get_elem? tbl index

-- The loop of `GetCrc16Val`, with `crcHi` and `crcLo`.
unfoldable pub crc16_loop : CrcTool → List ℕ → ℕ → ℕ → Option (ℕ × ℕ)
crc16_loop this [] crc_hi crc_lo = some (crc_hi, crc_lo)
crc16_loop this (byte ∷ addr) crc_hi crc_lo =
    let index = bit_xor crc_lo byte in
    elim (entry_of this.m_hi16_tbl index) [
      | none ↦ none
      | some h ↦ elim (entry_of this.m_low16_tbl index) [
        | none ↦ none
        | some l ↦ crc16_loop this addr l (bit_xor crc_hi h)
      ]
    ]

unfoldable pub get_crc16_val : CrcTool → List ℕ → Option ℕ
get_crc16_val this addr = elim (crc16_loop this addr 0 0) [
  | none ↦ none
  | some crc ↦ some (crc.0 * 256 + crc.1)
]

-- The loop of `GetCrc32Val`.
unfoldable pub crc32_loop : CrcTool → List ℕ → ℕ → Option ℕ
crc32_loop this [] crc = some crc
crc32_loop this (byte ∷ bytes) crc = elim (entry_of this.m_crc_u32_tbl (bit_xor crc byte % 256)) [
  | none ↦ none
  | some t ↦ crc32_loop this bytes (bit_xor (crc / 256) t)
]

unfoldable pub get_crc32_val : CrcTool → List ℕ → Option ℕ
get_crc32_val this addr = crc32_loop this addr 0xffffffff
