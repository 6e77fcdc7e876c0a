-- ===== src/Crc/Tables.antt =====
-- The same file, the entries of the tables, and the two checksums by them.
use package_compile_sys.Common.{
  ℕ, zero, suc, ◌+◌, ◌/◌, ◌%◌, ◌^◌, ◌<◌, ◌≡◌, refl, sym, ap, ◌∙◌, List, [], ◌∷◌, some, arith,
  get_elem?, AllBytes,
}
use Prim.Native.Nat.{bit_xor}
use package_compile_sys.Crc.{
  crc_shift, crc_entry, fill_table, poly_16, poly_32, rstb_16, rstb_32, crc_tool,
  generate_crc16_table, generate_crc32_table, entry_of, crc16_loop, get_crc16_val, crc32_loop,
  get_crc32_val,
}
use package_compile_sys.Crc.Xor.{xor-bits, xor_comm}
use package_compile_sys.Crc.Reference.{serial, serial_bits, serial-table, xor_mod, xor_div}

get-fill_table :
    (entry : ℕ → ℕ) (n i k : ℕ) → k < n → get_elem? (fill_table entry n i) k ≡ some (entry (i + k))
unfolding fill_table
get-fill_table entry zero i k h = absurd (omega arith)
get-fill_table entry (suc n) i zero h = ap (λ x. some (entry x)) (omega arith)
get-fill_table entry (suc n) i (suc k) h =
    get-fill_table entry n (i + 1) k (omega arith) ∙ ap (λ x. some (entry x)) (omega arith)

crc32_entry :
    (k : ℕ) → k < 256 → entry_of (crc_tool rstb_32).m_crc_u32_tbl k ≡ some (crc_entry poly_32 8 k)
unfolding crc_tool entry_of generate_crc32_table
crc32_entry k h =
    get-fill_table (λ i. crc_entry poly_32 8 i) 256 0 k h
    ∙ ap (λ x. some (crc_entry poly_32 8 x)) (omega arith)

crc16_low :
    (k : ℕ)
    → k < 256
    → entry_of (crc_tool rstb_16).m_hi16_tbl k ≡ some (crc_entry poly_16 8 k % 256)
unfolding crc_tool entry_of generate_crc16_table
crc16_low k h =
    get-fill_table (λ j. crc_entry poly_16 8 j % 256) 256 0 k h
    ∙ ap (λ x. some (crc_entry poly_16 8 x % 256)) (omega arith)

crc16_high :
    (k : ℕ)
    → k < 256
    → entry_of (crc_tool rstb_16).m_low16_tbl k ≡ some (crc_entry poly_16 8 k / 256 % 256)
unfolding crc_tool entry_of generate_crc16_table
crc16_high k h =
    get-fill_table (λ j. crc_entry poly_16 8 j / 256 % 256) 256 0 k h
    ∙ ap (λ x. some (crc_entry poly_16 8 x / 256 % 256)) (omega arith)

crc32_loop-serial :
    (bytes : List ℕ) (crc : ℕ)
    → AllBytes bytes
    → crc32_loop (crc_tool rstb_32) bytes crc ≡ some (serial poly_32 crc bytes)
unfolding crc32_loop serial
crc32_loop-serial [] crc all = refl
crc32_loop-serial (byte ∷ bytes) crc (h, all) =
    rw
      (
        crc32_loop,
        xor_mod crc byte h,
        crc32_entry (bit_xor (crc % 256) byte) (xor-bits 8 _ _ (omega arith) h),
        serial-table poly_32 crc byte h,
      )
      (crc32_loop-serial bytes _ all)

-- Numbers below 2 ^ 16 keep below it.
shift_bound : (crc : ℕ) → crc < 2 ^ 16 → crc_shift poly_16 crc < 2 ^ 16
unfolding crc_shift
shift_bound crc h = ground (arith, h, xor-bits 16 (crc / 2) poly_16 (omega arith) (omega arith))

entry_bound : (n crc : ℕ) → crc < 2 ^ 16 → crc_entry poly_16 n crc < 2 ^ 16
unfolding crc_entry
entry_bound zero crc h = h
entry_bound (suc n) crc h = entry_bound n _ (shift_bound crc h)

-- A byte at the two halves of the checksum.
halves_byte :
    (crc byte : ℕ)
    → crc < 2 ^ 16
    → byte < 256
    → (crc_entry poly_16 8 (bit_xor (crc % 256) byte) / 256 % 256
        ≡ serial_bits poly_16 8 crc byte / 256)
      × (bit_xor (crc / 256) (crc_entry poly_16 8 (bit_xor (crc % 256) byte) % 256)
          ≡ serial_bits poly_16 8 crc byte % 256)
      × (serial_bits poly_16 8 crc byte < 2 ^ 16)
halves_byte crc byte lt h =
    let index = bit_xor (crc % 256) byte in
    let in_table = xor-bits 8 (crc % 256) byte (omega arith) h in
    let e = crc_entry poly_16 8 index in
    let small = entry_bound 8 index (omega (arith, in_table)) in
    let hi = xor_div e (crc / 256) (omega arith) in
    let lo = xor_mod e (crc / 256) (omega arith) in
    let next : serial_bits poly_16 8 crc byte ≡ bit_xor e (crc / 256) =
      sym (serial-table poly_16 crc byte h) ∙ xor_comm (crc / 256) e in
    (
      omega (arith, small, hi, ap (λ x. x / 256) next),
      xor_comm (crc / 256) (e % 256) ∙ sym lo ∙ ap (λ x. x % 256) (sym next),
      omega (arith, next, xor-bits 16 e (crc / 256) small (omega arith)),
    )

crc16_loop-serial :
    (bytes : List ℕ) (crc : ℕ)
    → crc < 2 ^ 16
    → AllBytes bytes
    → crc16_loop (crc_tool rstb_16) bytes (crc / 256) (crc % 256)
      ≡ some (serial poly_16 crc bytes / 256, serial poly_16 crc bytes % 256)
unfolding crc16_loop serial
crc16_loop-serial [] crc lt all = refl
crc16_loop-serial (byte ∷ bytes) crc lt (h, all) =
    let in_table = xor-bits 8 (crc % 256) byte (omega arith) h in
    let (hi, lo, small) = halves_byte crc byte lt h in
    rw (crc16_loop, crc16_low _ in_table, crc16_high _ in_table, hi, lo)
      (crc16_loop-serial bytes _ small all)

-- On bytes, `GetCrc32Val` of a `CrcTool` of mode RSTB_32 returns, and returns the register that takes in
-- the bits of the data one at a time, from the lowest bit of each byte on, with the reflected
-- polynomial 0xEDB88320 and 0xffffffff at the start; `GetCrc16Val` of one of mode RSTB_16 does so with
-- 0xA001 and 0.
pub crc_val-serial :
    (bytes : List ℕ)
    → AllBytes bytes
    → (get_crc32_val (crc_tool rstb_32) bytes ≡ some (serial poly_32 0xffffffff bytes))
      × (get_crc16_val (crc_tool rstb_16) bytes ≡ some (serial poly_16 0 bytes))
unfolding get_crc32_val get_crc16_val
crc_val-serial bytes all =
    let loop = crc16_loop-serial bytes 0 (omega arith) all in
    (crc32_loop-serial bytes _ all, rw (get_crc16_val, loop) (ap some (omega arith)))
