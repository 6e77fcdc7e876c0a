-- ===== src/Base64/Bounds.antt =====
-- The output buffer of base64Encode.
use package_compile_sys.Common.{
  ℕ, ◌+◌, ◌<◌, ◌≡◌, List, [], ◌∷◌, arith, leb, length, Bool-cases, inl, inr, ltb,
}
use package_compile_sys.Base64.{encode_from, encode}
use package_compile_sys.Base64.RoundTrip.{encoded_size}

encode_from-room :
    (bin : List ℕ) (j base_size : ℕ)
    → j < base_size
    → (j + length (encode_from base_size bin j).1 < base_size)
      × ((encode_from base_size bin j).0 ≡ ltb (j + encoded_size (length bin)) base_size)
unfolding encode_from
encode_from-room [] j base_size room = (ground arith, ground arith)
encode_from-room (a ∷ []) j base_size room = (ground arith, ground arith)
encode_from-room (a ∷ b ∷ []) j base_size room = (ground arith, ground arith)
encode_from-room (a ∷ b ∷ c ∷ bin) j base_size room = elim (Bool-cases (leb base_size (j + 4))) [
  | inl small ↦ (ground (arith, small), ground (arith, small))
  | inr fits ↦
      let ih = encode_from-room bin (j + 4) base_size (ground arith) in
      (ground (arith, fits, ih), ground (arith, fits, ih))
]

-- `base64Encode` never writes past an output buffer of one char or more, its NUL included, and it
-- returns -1 exactly when the buffer cannot take four chars for each three bytes begun and the NUL.
pub encode-room :
    (bin : List ℕ) (base_size : ℕ)
    → 0 < base_size
    → (length (encode bin base_size).1 < base_size)
      × ((encode bin base_size).0 ≡ ltb (encoded_size (length bin)) base_size)
unfolding encode
encode-room bin base_size room = ground (arith, encode_from-room bin 0 base_size room)
