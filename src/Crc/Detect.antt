-- ===== src/Crc/Detect.antt =====
-- The same file, what the checksums detect.
use package_compile_sys.Common.{
  ℕ, zero, suc, ◌/◌, ◌%◌, ◌^◌, ◌<◌, ◌≤◌, ◌≡◌, ◌≢◌, refl, sym, ap, ◌∙◌, List, [], ◌∷◌, ◌++◌, Option,
  none, some, arith, AllBytes, Bool-cases, inl, inr, ◌==◌, true, false,
}
use Prim.Native.Nat.{bit_xor}
use package_compile_sys.Crc.{
  crc_shift, crc_entry, poly_16, poly_32, rstb_16, rstb_32, crc_tool, get_crc16_val, get_crc32_val,
}
use package_compile_sys.Crc.Xor.{xor-bits, xor_comm, xor_assoc, xor_self, xor_zero, zero-bit_xor}
use package_compile_sys.Crc.Reference.{serial, serial_bits, entry-serial_bits}
use package_compile_sys.Crc.Tables.{crc_val-serial}

xor_twice : (a b : ℕ) → bit_xor (bit_xor a b) b ≡ a
xor_twice a b = xor_assoc a b b ∙ ap (bit_xor a) (xor_self b) ∙ xor_zero a

xor_cancel : (a b c : ℕ) → bit_xor a c ≡ bit_xor b c → a ≡ b
xor_cancel a b c e = sym (xor_twice a c) ∙ ap (λ x. bit_xor x c) e ∙ xor_twice b c

-- A polynomial with the bit `w`, the highest one.
module _ (poly w : ℕ) where
  abbrev TopBit : Type 0
  TopBit = (2 ^ w ≤ poly) × (poly < 2 ^ suc w)

  -- The highest bit tells whether the polynomial was added.
  not_added : (a b : ℕ) → TopBit → a < 2 ^ w → b < 2 ^ w → bit_xor a poly ≢ b
  not_added a b (top, _) h k e =
      let p : bit_xor a b ≡ poly =
        ap (bit_xor a) (sym e)
        ∙ sym (xor_assoc a a poly)
        ∙ ap (λ x. bit_xor x poly) (xor_self a)
        ∙ zero-bit_xor poly in
      omega (arith, p, top, xor-bits w a b h k)

  shift_odd : (x : ℕ) → (x % 2 == 1) ≡ true → crc_shift poly x ≡ bit_xor (x / 2) poly
  unfolding crc_shift
  shift_odd x a = rw (crc_shift, a) refl

  shift_even : (x : ℕ) → (x % 2 == 1) ≡ false → crc_shift poly x ≡ x / 2
  unfolding crc_shift
  shift_even x a = rw (crc_shift, a) refl

  shift_inj :
      (x y : ℕ)
      → TopBit
      → x < 2 ^ suc w
      → y < 2 ^ suc w
      → crc_shift poly x ≡ crc_shift poly y
      → x ≡ y
  shift_inj x y top h k e =
      let hx : x / 2 < 2 ^ w = omega (arith, h) in
      let hy : y / 2 < 2 ^ w = omega (arith, k) in
      elim (Bool-cases (x % 2 == 1)) [
        | inl a ↦ elim (Bool-cases (y % 2 == 1)) [
          | inl b ↦ ground (
            arith,
            a,
            b,
            xor_cancel (x / 2) (y / 2) poly (sym (shift_odd x a) ∙ e ∙ shift_odd y b),
          )
          | inr b ↦ absurd (not_added _ _ top hx hy (sym (shift_odd x a) ∙ e ∙ shift_even y b))
        ]
        | inr a ↦ elim (Bool-cases (y % 2 == 1)) [
          | inl b ↦ absurd (not_added _ _ top hy hx (sym (shift_odd y b) ∙ sym e ∙ shift_even x a))
          | inr b ↦ ground (arith, a, b, sym (shift_even x a) ∙ e ∙ shift_even y b)
        ]
      ]

  shift_bound : (x : ℕ) → TopBit → x < 2 ^ suc w → crc_shift poly x < 2 ^ suc w
  shift_bound x (_, lt) h = elim (Bool-cases (x % 2 == 1)) [
    | inl a ↦ rw (shift_odd x a) (xor-bits (suc w) (x / 2) poly (omega (arith, h)) lt)
    | inr a ↦ rw (shift_even x a) (omega (arith, h))
  ]

  entry_bound : (n x : ℕ) → TopBit → x < 2 ^ suc w → crc_entry poly n x < 2 ^ suc w
  unfolding crc_entry
  entry_bound zero x top h = h
  entry_bound (suc n) x top h = entry_bound n _ top (shift_bound x top h)

  entry_inj :
      (n x y : ℕ)
      → TopBit
      → x < 2 ^ suc w
      → y < 2 ^ suc w
      → crc_entry poly n x ≡ crc_entry poly n y
      → x ≡ y
  unfolding crc_entry
  entry_inj zero x y top h k e = e
  entry_inj (suc n) x y top h k e =
      shift_inj x y top h k (entry_inj n _ _ top (shift_bound x top h) (shift_bound y top k) e)

  -- A register and a byte that both fit.
  bits_bound :
      (crc byte : ℕ)
      → TopBit
      → 256 ≤ 2 ^ suc w
      → crc < 2 ^ suc w
      → byte < 256
      → (bit_xor crc byte < 2 ^ suc w) × (serial_bits poly 8 crc byte < 2 ^ suc w)
  bits_bound crc byte top wide h k =
      let b = xor-bits (suc w) crc byte h (omega (arith, wide, k)) in
      (b, rw (sym (entry-serial_bits poly 8 crc byte k)) (entry_bound 8 _ top b))

  bits_inj :
      (p q a b : ℕ)
      → TopBit
      → 256 ≤ 2 ^ suc w
      → p < 2 ^ suc w
      → q < 2 ^ suc w
      → a < 256
      → b < 256
      → serial_bits poly 8 p a ≡ serial_bits poly 8 q b
      → bit_xor p a ≡ bit_xor q b
  bits_inj p q a b top wide hp hq ha hb e =
      entry_inj 8 _ _ top (bits_bound p a top wide hp ha).0 (bits_bound q b top wide hq hb).0
        (entry-serial_bits poly 8 p a ha ∙ e ∙ sym (entry-serial_bits poly 8 q b hb))

  -- Registers that differ still differ behind the same bytes.
  serial_inj :
      (bytes : List ℕ) (p q : ℕ)
      → TopBit
      → 256 ≤ 2 ^ suc w
      → AllBytes bytes
      → p < 2 ^ suc w
      → q < 2 ^ suc w
      → serial poly p bytes ≡ serial poly q bytes
      → p ≡ q
  unfolding serial
  serial_inj [] p q top wide all hp hq e = e
  serial_inj (c ∷ bytes) p q top wide (hc, all) hp hq e = xor_cancel p q c (
      bits_inj p q c c top wide hp hq hc hc (
        serial_inj bytes _ _ top wide all (bits_bound p c top wide hp hc).1
          (bits_bound q c top wide hq hc).1 e))

  serial_differs :
      (before after : List ℕ) (p a b : ℕ)
      → TopBit
      → 256 ≤ 2 ^ suc w
      → AllBytes before
      → AllBytes after
      → p < 2 ^ suc w
      → a < 256
      → b < 256
      → serial poly p (before ++ a ∷ after) ≡ serial poly p (before ++ b ∷ after)
      → a ≡ b
  unfolding serial
  serial_differs [] after p a b top wide all all' hp ha hb e =
      let e' =
        serial_inj after _ _ top wide all' (bits_bound p a top wide hp ha).1
          (bits_bound p b top wide hp hb).1 e in
      xor_cancel a b p (xor_comm a p ∙ bits_inj p p a b top wide hp hp ha hb e' ∙ xor_comm p b)
  serial_differs (c ∷ before) after p a b top wide (hc, all) all' hp ha hb e =
      serial_differs before after _ a b top wide all all' (bits_bound p c top wide hp hc).1 ha hb e

AllBytes-around :
    (before after : List ℕ) (a : ℕ)
    → AllBytes before
    → AllBytes after
    → a < 256
    → AllBytes (before ++ a ∷ after)
AllBytes-around [] after a all all' h = (h, all')
AllBytes-around (c ∷ before) after a (hc, all) all' h =
    (hc, AllBytes-around before after a all all' h)

value_of : Option ℕ → ℕ
value_of none = 0
value_of (some n) = n

-- Two messages of bytes that differ in one byte have different results of `GetCrc32Val` on a `CrcTool` of
-- mode RSTB_32, and of `GetCrc16Val` on one of mode RSTB_16.
pub one_byte_detected :
    (before after : List ℕ) (a b : ℕ)
    → AllBytes before
    → AllBytes after
    → a < 256
    → b < 256
    → a ≢ b
    → (get_crc32_val (crc_tool rstb_32) (before ++ a ∷ after)
        ≢ get_crc32_val (crc_tool rstb_32) (before ++ b ∷ after))
      × (get_crc16_val (crc_tool rstb_16) (before ++ a ∷ after)
          ≢ get_crc16_val (crc_tool rstb_16) (before ++ b ∷ after))
unfolding value_of
one_byte_detected before after a b all all' ha hb ne =
    let (l32, l16) =
      crc_val-serial (before ++ a ∷ after) (AllBytes-around before after a all all' ha) in
    let (r32, r16) =
      crc_val-serial (before ++ b ∷ after) (AllBytes-around before after b all all' hb) in
    (
      λ e. ne (
          serial_differs poly_32 31 before after 0xffffffff a b (omega arith, omega arith)
            (omega arith) all all' (omega arith) ha hb (ap value_of (sym l32 ∙ e ∙ r32))),
      λ e. ne (
          serial_differs poly_16 15 before after 0 a b (omega arith, omega arith) (omega arith) all
            all' (omega arith) ha hb (ap value_of (sym l16 ∙ e ∙ r16))),
    )
