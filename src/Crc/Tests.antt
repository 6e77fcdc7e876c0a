-- ===== src/Crc/Tests.antt =====
-- The checksums of the digits from 1 to 9, and the theorems at them.
use package_compile_sys.Common.{ℕ, ◌≡◌, ◌≢◌, refl, List, [], ◌∷◌, some, arith}
use package_compile_sys.Crc.{
  crc_shift, crc_entry, fill_table, poly_16, poly_32, rstb_16, rstb_32, crc_tool,
  generate_crc16_table, generate_crc32_table, entry_of, crc16_loop, get_crc16_val, crc32_loop,
  get_crc32_val,
}
use package_compile_sys.Crc.Reference.{serial}
use package_compile_sys.Crc.Tables.{crc_val-serial}
use package_compile_sys.Crc.Detect.{one_byte_detected}

abbrev digits : List ℕ
digits = 49 ∷ 50 ∷ 51 ∷ 52 ∷ 53 ∷ 54 ∷ 55 ∷ 56 ∷ 57 ∷ []

abbrev three : List ℕ
three = 51 ∷ []

crc32_check : get_crc32_val (crc_tool rstb_32) digits ≡ some 0x340BC6D9
unfolding get_crc32_val crc32_loop crc_tool generate_crc32_table entry_of fill_table crc_entry
    crc_shift
crc32_check = refl

crc16_check : get_crc16_val (crc_tool rstb_16) digits ≡ some 0xBB3D
unfolding get_crc16_val crc16_loop crc_tool generate_crc16_table entry_of fill_table crc_entry
    crc_shift
crc16_check = refl

crc_val-serial_example :
    (get_crc32_val (crc_tool rstb_32) three ≡ some (serial poly_32 0xffffffff three))
    × (get_crc16_val (crc_tool rstb_16) three ≡ some (serial poly_16 0 three))
crc_val-serial_example = crc_val-serial three (omega arith, tt)

one_byte_detected_example :
    (get_crc32_val (crc_tool rstb_32) (49 ∷ 50 ∷ 51 ∷ [])
      ≢ get_crc32_val (crc_tool rstb_32) (49 ∷ 0 ∷ 51 ∷ []))
    × (get_crc16_val (crc_tool rstb_16) (49 ∷ 50 ∷ 51 ∷ [])
        ≢ get_crc16_val (crc_tool rstb_16) (49 ∷ 0 ∷ 51 ∷ []))
one_byte_detected_example =
    one_byte_detected (49 ∷ []) three 50 0 (omega arith, tt) (omega arith, tt) (omega arith)
      (omega arith) (λ e. omega (arith, e))
