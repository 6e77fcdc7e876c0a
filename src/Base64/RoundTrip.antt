-- ===== src/Base64/RoundTrip.antt =====
-- What base64Decode makes of the output of base64Encode.
use package_compile_sys.Common.{
  AllBytes, ℕ, zero, suc, ◌+◌, ◌*◌, ◌-◌, ◌/◌, ◌%◌, ◌<◌, ◌≤◌, ◌≡◌, refl, ◌∙◌, ap, List, [], ◌∷◌,
  some, Bool, true, false, arith, leb, ◌==◌, if◌then◌else◌, length, size_mod, lt→leb, ==→eq,
  Bool-cases, inl, inr,
}
use package_compile_sys.Base64.{
  pad, digit, value, search_from, first_of, second_high, second_low, third_high, third_low, byte0,
  byte1, byte2, encode_from, encode, decode_from, refused, decode,
}

-- The number of chars for so many bytes, `base64GetEncodeSafeOutBytes`.
abbrev pub encoded_size : ℕ → ℕ
encoded_size n = (n + 2) / 3 * 4

all_below : ℕ → (ℕ → Bool) → Bool
all_below zero test = true
all_below (suc k) test = if test k then all_below k test else false

all_below-lt : (n v : ℕ) (test : ℕ → Bool) → all_below n test ≡ true → v < n → test v ≡ true
unfolding all_below
all_below-lt zero v test h lt = absurd (omega arith)
all_below-lt (suc k) v test h lt = elim (Bool-cases (test k)) [
  | inl passes ↦ elim (Bool-cases (v == k)) [
    | inl here ↦ ap test (==→eq v k here) ∙ passes
    | inr other ↦ all_below-lt k v test (ground (arith, h, passes)) (ground (arith, lt, other))
  ]
  | inr fails ↦ ground (arith, h, fails)
]

abbrev digit_test : ℕ → Bool
digit_test v = if value (digit v) == v then (if digit v == pad then false else true) else false

digits_pass : all_below 64 digit_test ≡ true
unfolding all_below value digit search_from
digits_pass = refl

value-digit : (v : ℕ) → v < 64 → value (digit v) ≡ v
value-digit v lt = ground (arith, all_below-lt 64 v digit_test digits_pass lt)

digit-pad : (v : ℕ) → v < 64 → (digit v == pad) ≡ false
digit-pad v lt = ground (arith, all_below-lt 64 v digit_test digits_pass lt)

-- Three bytes make four sextets, and come back.
module _ (a b c : ℕ) (ha : a < 256) (hb : b < 256) (hc : c < 256) where
  sextets :
      (first_of a < 64)
      × (second_high a + second_low b < 64)
      × (second_high a < 64)
      × (third_high b + third_low c < 64)
      × (third_high b < 64)
      × (c % 64 < 64)
  unfolding first_of second_high second_low third_high third_low
  sextets = (omega arith, omega arith, omega arith, omega arith, omega arith, omega arith)

  bytes0 :
      (byte0 (first_of a) (second_high a + second_low b) ≡ a)
      × (byte0 (first_of a) (second_high a) ≡ a)
  unfolding first_of second_high second_low byte0
  bytes0 = (omega arith, omega arith)

  bytes1 :
      (byte1 (second_high a + second_low b) (third_high b + third_low c) ≡ b)
      × (byte1 (second_high a + second_low b) (third_high b) ≡ b)
  unfolding second_high second_low third_high third_low byte1
  bytes1 = (omega arith, omega arith)

  bytes2 : byte2 (third_high b + third_low c) (c % 64) ≡ c
  unfolding third_high third_low byte2
  bytes2 = omega arith

encode_from_lem :
    (bin : List ℕ) (j base_size : ℕ)
    → AllBytes bin
    → j + encoded_size (length bin) < base_size
    → (base64 : List ℕ) × (encode_from base_size bin j ≡ (true, base64))
      × (decode_from base64 ≡ some bin)
      × (length base64 ≡ encoded_size (length bin))
unfolding encode_from decode_from
encode_from_lem [] j base_size bytes room = ([], refl, refl, refl)
encode_from_lem (a ∷ []) j base_size bytes room =
    let fits : leb base_size (j + 4) ≡ false = lt→leb base_size (j + 4) (omega arith) in
    let (x0, x1, x2, x3, x4, x5) = sextets a 0 0 bytes.0 (omega arith) (omega arith) in
    (
      digit (first_of a) ∷ digit (second_high a) ∷ pad ∷ pad ∷ [],
      rw fits refl,
      rw
          (
            value-digit (first_of a) x0,
            value-digit (second_high a) x2,
            (bytes0 a 0 0 bytes.0 (omega arith) (omega arith)).1,
          )
          refl,
      refl,
    )
encode_from_lem (a ∷ b ∷ []) j base_size bytes room =
    let fits : leb base_size (j + 4) ≡ false = lt→leb base_size (j + 4) (omega arith) in
    let (x0, x1, x2, x3, x4, x5) = sextets a b 0 bytes.0 bytes.1.0 (omega arith) in
    (
      digit (first_of a) ∷ digit (second_high a + second_low b) ∷ digit (third_high b) ∷ pad ∷ [],
      rw fits refl,
      rw
          (
            value-digit (first_of a) x0,
            value-digit (second_high a + second_low b) x1,
            value-digit (third_high b) x4,
            digit-pad (third_high b) x4,
            (bytes0 a b 0 bytes.0 bytes.1.0 (omega arith)).0,
            (bytes1 a b 0 bytes.0 bytes.1.0 (omega arith)).1,
          )
          refl,
      refl,
    )
encode_from_lem (a ∷ b ∷ c ∷ bin) j base_size bytes room =
    let fits : leb base_size (j + 4) ≡ false = lt→leb base_size (j + 4) (omega arith) in
    let (x0, x1, x2, x3, x4, x5) = sextets a b c bytes.0 bytes.1.0 bytes.1.1.0 in
    let (base64, run, back, size) =
      encode_from_lem bin (j + 4) base_size bytes.1.1.1 (omega arith) in
    (
      digit (first_of a)
          ∷ digit (second_high a + second_low b)
          ∷ digit (third_high b + third_low c)
          ∷ digit (c % 64)
          ∷ base64,
      rw (fits, run) refl,
      rw
          (
            digit-pad (third_high b + third_low c) x3,
            digit-pad (c % 64) x5,
            back,
            value-digit (first_of a) x0,
            value-digit (second_high a + second_low b) x1,
            value-digit (third_high b + third_low c) x3,
            value-digit (c % 64) x5,
            (bytes0 a b c bytes.0 bytes.1.0 bytes.1.1.0).0,
            (bytes1 a b c bytes.0 bytes.1.0 bytes.1.1.0).0,
            bytes2 a b c bytes.0 bytes.1.0 bytes.1.1.0,
          )
          refl,
      omega arith,
    )

not_refused :
    (n size bin_size : ℕ)
    → 0 < n
    → n ≤ bin_size
    → size ≡ encoded_size n
    → size < size_mod
    → refused size bin_size ≡ false
unfolding refused
not_refused n size bin_size some_bytes room e small = ground arith

-- What `base64Encode` writes for one byte or more is decoded by `base64Decode` to the same bytes,
-- where the first buffer takes four chars for each three bytes begun and a NUL, the second one the
-- bytes, and the chars are fewer than 2^32; neither call returns -1.
pub decode-encode :
    (bin : List ℕ) (base_size bin_size : ℕ)
    → AllBytes bin
    → 0 < length bin
    → encoded_size (length bin) < base_size
    → base_size < size_mod
    → length bin ≤ bin_size
    → (base64 : List ℕ) × (encode bin base_size ≡ (true, base64))
      × (length base64 ≡ encoded_size (length bin))
      × (decode base64 bin_size ≡ some (true, bin))
unfolding encode decode
decode-encode bin base_size bin_size bytes some_bytes room small fits =
    let (base64, run, back, size) = encode_from_lem bin 0 base_size bytes (omega arith) in
    (
      base64,
      run,
      size,
      rw
          (
            not_refused (length bin) (length base64) bin_size some_bytes fits size (omega arith),
            back,
          )
          refl,
    )

accepted :
    (n size : ℕ)
    → 0 < n
    → n % 3 ≡ 0
    → size ≡ encoded_size n
    → size < size_mod
    → refused size (n - 3) ≡ false
unfolding refused
accepted n size some_bytes whole e small = ground arith

-- `base64Decode` refuses an output buffer only when it is more than three bytes too small: chars
-- that stand for a positive multiple of three bytes are decoded in full into a buffer that takes
-- three bytes less.
decode_overruns :
    (bin : List ℕ) (base_size : ℕ)
    → AllBytes bin
    → 0 < length bin
    → length bin % 3 ≡ 0
    → encoded_size (length bin) < base_size
    → base_size < size_mod
    → (base64 : List ℕ) × (encode bin base_size ≡ (true, base64))
      × (decode base64 (length bin - 3) ≡ some (true, bin))
unfolding encode decode
decode_overruns bin base_size bytes some_bytes whole room small =
    let (base64, run, back, size) = encode_from_lem bin 0 base_size bytes (omega arith) in
    (
      base64,
      run,
      rw (accepted (length bin) (length base64) some_bytes whole size (omega arith), back) refl,
    )
