-- ===== src/Base64/Tests.antt =====
-- Base64 of a few bytes, and the theorems at them.
use package_compile_sys.Common.{
  AllBytes, ℕ, ◌<◌, ◌≡◌, refl, List, [], ◌∷◌, some, true, arith, ltb, length,
}
use package_compile_sys.Base64.{
  digit, value, search_from, first_of, second_high, second_low, third_high, third_low, byte0, byte1,
  byte2, encode_from, encode, decode_from, refused, decode,
}
use package_compile_sys.Base64.RoundTrip.{encoded_size, decode-encode}
use package_compile_sys.Base64.Bounds.{encode-room}

-- "Man" and "Ma".
abbrev man : List ℕ
man = 77 ∷ 97 ∷ 110 ∷ []

abbrev ma : List ℕ
ma = 77 ∷ 97 ∷ []

encode-man : encode man 8 ≡ (true, 84 ∷ 87 ∷ 70 ∷ 117 ∷ [])
unfolding encode encode_from digit first_of second_high second_low third_high third_low
encode-man = refl

encode-ma : encode ma 8 ≡ (true, 84 ∷ 87 ∷ 69 ∷ 61 ∷ [])
unfolding encode encode_from digit first_of second_high second_low third_high third_low
encode-ma = refl

decode-ma : decode (84 ∷ 87 ∷ 69 ∷ 61 ∷ []) 2 ≡ some (true, ma)
unfolding decode decode_from refused value search_from byte0 byte1 byte2
decode-ma = refl

man-AllBytes : AllBytes man
man-AllBytes = (omega arith, (omega arith, (omega arith, tt)))

decode-encode_example :
    (base64 : List ℕ) × (encode man 8 ≡ (true, base64))
    × (length base64 ≡ encoded_size (length man))
    × (decode base64 3 ≡ some (true, man))
decode-encode_example =
    decode-encode man 8 3 man-AllBytes (omega arith) (omega arith) (omega arith) (omega arith)

encode-room_example :
    (length (encode man 4).1 < 4) × ((encode man 4).0 ≡ ltb (encoded_size (length man)) 4)
encode-room_example = encode-room man 4 (omega arith)
