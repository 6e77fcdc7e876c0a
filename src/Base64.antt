-- ===== src/Base64.antt =====
-- app/lzUtils/common/misc.c: base64Encode and base64Decode. A `char` is an unsigned byte, as on the
-- target. A mask of adjacent bits is a division and a remainder, a cast to `char` is a remainder by
-- 256, and `|` of bits that cannot meet is `+`. A buffer is the list of the chars written to it,
-- without the final NUL.
pub mod RoundTrip
pub mod Bounds
mod Tests
use package_compile_sys.Common.{
  ℕ, zero, suc, ◌+◌, ◌*◌, ◌-◌, List, [], ◌∷◌, Option, none, some, Bool, true, false, ltb, leb, ◌==◌,
  if◌then◌else◌, get_or, length, size_mod,
}
use package_compile_sys.Common.{◌/◌, ◌%◌}

-- `base64Char`.
abbrev pub base64_char : List ℕ
base64_char =
    65 ∷ 66 ∷ 67 ∷ 68 ∷ 69 ∷ 70 ∷ 71 ∷ 72 ∷ 73 ∷ 74 ∷ 75 ∷ 76 ∷ 77 ∷ 78 ∷ 79 ∷ 80 ∷ 81 ∷ 82 ∷ 83
    ∷ 84 ∷ 85 ∷ 86 ∷ 87 ∷ 88 ∷ 89 ∷ 90 ∷ 97 ∷ 98 ∷ 99 ∷ 100 ∷ 101 ∷ 102 ∷ 103 ∷ 104 ∷ 105 ∷ 106
    ∷ 107 ∷ 108 ∷ 109 ∷ 110 ∷ 111 ∷ 112 ∷ 113 ∷ 114 ∷ 115 ∷ 116 ∷ 117 ∷ 118 ∷ 119 ∷ 120 ∷ 121 ∷ 122
    ∷ 48 ∷ 49 ∷ 50 ∷ 51 ∷ 52 ∷ 53 ∷ 54 ∷ 55 ∷ 56 ∷ 57 ∷ 43 ∷ 47 ∷ []

abbrev pub pad : ℕ
pad = 61

unfoldable pub digit : ℕ → ℕ
digit v = get_or base64_char v 0

-- `bin[i] >> 2`, `& 0x3F`.
unfoldable pub first_of : ℕ → ℕ
first_of a = a / 4 % 64

-- `(bin[i] << 4) & 0x30`.
unfoldable pub second_high : ℕ → ℕ
second_high a = (a * 16 % 256 / 16 % 4) * 16

-- `(bin[i + 1] >> 4) & 0x0F`.
unfoldable pub second_low : ℕ → ℕ
second_low b = b / 16 % 16

-- `(bin[i + 1] << 2) & 0x3C`.
unfoldable pub third_high : ℕ → ℕ
third_high b = (b * 4 % 256 / 4 % 16) * 4

-- `(bin[i + 2] >> 6) & 0x03`.
unfoldable pub third_low : ℕ → ℕ
third_low c = c / 64 % 4

-- The rounds of the loop from `bin[i]` on, with `j` chars written so far, and whether it came to its
-- end: an output buffer that is too small makes it stop and return -1.
unfoldable pub encode_from : ℕ → List ℕ → ℕ → Bool × List ℕ
encode_from base_size [] j = (true, [])
encode_from base_size (a ∷ []) j =
    if leb base_size (j + 4)
    then (false, [])
    else (true, digit (first_of a) ∷ digit (second_high a) ∷ pad ∷ pad ∷ [])
encode_from base_size (a ∷ b ∷ []) j = if leb base_size (j + 4) then (false, []) else (
  true,
  digit (first_of a) ∷ digit (second_high a + second_low b) ∷ digit (third_high b) ∷ pad ∷ [],
)
encode_from base_size (a ∷ b ∷ c ∷ bin) j =
    let (done, base64) = encode_from base_size bin (j + 4) in
    if leb base_size (j + 4) then (false, []) else (
      done,
      digit (first_of a)
          ∷ digit (second_high a + second_low b)
          ∷ digit (third_high b + third_low c)
          ∷ digit (c % 64)
          ∷ base64,
    )

unfoldable pub encode : List ℕ → ℕ → Bool × List ℕ
encode bin base_size = encode_from base_size bin 0

-- A search through the table: the last place that holds the char, or `temp` as it was.
unfoldable pub search_from : List ℕ → ℕ → ℕ → ℕ → ℕ
search_from [] k c temp = temp
search_from (x ∷ table) k c temp = search_from table (suc k) c (if x == c then k else temp)

unfoldable pub value : ℕ → ℕ
value c = search_from base64_char 0 c 0xff

-- `((temp[0] << 2) & 0xFC) | ((temp[1] >> 4) & 0x03)`.
unfoldable pub byte0 : ℕ → ℕ → ℕ
byte0 t0 t1 = (t0 * 4 % 256 / 4) * 4 + t1 / 16 % 4

-- `((temp[1] << 4) & 0xF0) | ((temp[2] >> 2) & 0x0F)`.
unfoldable pub byte1 : ℕ → ℕ → ℕ
byte1 t1 t2 = (t1 * 16 % 256 / 16) * 16 + t2 / 4 % 16

-- `((temp[2] << 6) & 0xF0) | (temp[3] & 0x3F)`: the low two bits of the first mask are clear.
unfoldable pub byte2 : ℕ → ℕ → ℕ
byte2 t2 t3 = (t2 * 64 % 256 / 16) * 16 + t3 % 64

-- A quadruple that the input does not hold in full is read out of range, and has no result.
unfoldable pub decode_from : List ℕ → Option (List ℕ)
decode_from [] = some []
decode_from (w ∷ []) = none
decode_from (w ∷ x ∷ []) = none
decode_from (w ∷ x ∷ y ∷ []) = none
decode_from (w ∷ x ∷ y ∷ z ∷ base64) =
    let rest = decode_from base64 in
    let b0 = byte0 (value w) (value x) in
    let b1 = byte1 (value x) (value y) in
    let b2 = byte2 (value y) (value z) in
    if y == pad
    then some (b0 ∷ [])
    else (if z == pad
        then some (b0 ∷ b1 ∷ [])
        else elim rest [ none ↦ none | some bin ↦ some (b0 ∷ b1 ∷ b2 ∷ bin) ])

-- `(baseSize / 4 - 1) * 3 > binSize`, on 32 bits.
unfoldable pub refused : ℕ → ℕ → Bool
refused base_size bin_size =
    ltb bin_size (((base_size / 4 + (size_mod - 1)) % size_mod) * 3 % size_mod)

-- The outcome `some (false, [])` is the return of -1.
unfoldable pub decode : List ℕ → ℕ → Option (Bool × List ℕ)
decode base64 bin_size =
    if refused (length base64) bin_size
    then some (false, [])
    else elim (decode_from base64) [ none ↦ none | some bin ↦ some (true, bin) ]
