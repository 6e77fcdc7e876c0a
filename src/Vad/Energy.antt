-- ===== src/Vad/Energy.antt =====
-- When a chunk is answered, and that the sums fit.
use package_compile_sys.Common.{
  Option-cases, inl, inr, ◌↔◌, ℕ, zero, suc, ◌+◌, ◌*◌, ◌/◌, ◌≤◌, ◌<◌, ◌≡◌, ◌≢◌, refl, ap, ◌∙◌, List,
  [], ◌∷◌, none, some, Bool, true, false, arith, ◌^◌, length, get_elem?, get_or,
  get_elem?-eq-get_or, leb, ltb, if◌then◌else◌, AllBytes, ne→==,
}
use package_compile_sys.Vad.{
  VadArgs, magnitude, short_at, square, energy, chunk_unit_compare, min_over_times, over_times,
  is_chunk_speaking,
}

square-le : (w : ℕ) → w < 2 ^ 16 → square w ≤ 2 ^ 30
square-le w h = product (magnitude w) (ground (arith, h))
  where
    product : (m : ℕ) → m ≤ 2 ^ 15 → m * m ≤ 2 ^ 30
    product m h = grind arith

some_inj : (m n : ℕ) → some m ≡ some n → m ≡ n
some_inj m n e = cc

none-some : (n : ℕ) → none ≢ some n
none-some n e = cc

-- Samples inside the buffer are read.
short_at_lem : (mem : List ℕ) (at : ℕ) → at + 2 ≤ length mem → (w : ℕ) × (short_at mem at ≡ some w)
unfolding short_at
short_at_lem mem at h = (
  get_or mem at 0 + 256 * get_or mem (at + 1) 0,
  rw
      (
        short_at,
        get_elem?-eq-get_or mem at 0 (omega (arith, h)),
        get_elem?-eq-get_or mem (at + 1) 0 (omega (arith, h)),
      )
      refl,
)

energy_lem :
    (mem : List ℕ) (n at : ℕ) → at + n * 2 ≤ length mem → (sum : ℕ) × (energy mem n at ≡ some sum)
unfolding energy
energy_lem mem zero at h = (0, refl)
energy_lem mem (suc n) at h =
    let (w, e) = short_at_lem mem at (omega (arith, h)) in
    let (sum, f) = energy_lem mem n (at + 2) (omega (arith, h)) in
    (square w + sum, rw (energy, e, f) refl)

byte_at : (mem : List ℕ) (i b : ℕ) → AllBytes mem → get_elem? mem i ≡ some b → b < 256
byte_at [] i b h e = cc
byte_at (x ∷ mem) zero b h e = omega (arith, h.0, some_inj x b e)
byte_at (x ∷ mem) (suc i) b h e = byte_at mem i b h.1 e

short_at-le : (mem : List ℕ) (at w : ℕ) → AllBytes mem → short_at mem at ≡ some w → w < 2 ^ 16
unfolding short_at
short_at-le mem at w h e = elim (Option-cases (get_elem? mem at)) [
  | inl n ↦ absurd (none-some w (rw (n, short_at) refl ∙ e))
  | inr (low, l) ↦ elim (Option-cases (get_elem? mem (at + 1))) [
    | inl n ↦ absurd (none-some w (rw (l, n, short_at) refl ∙ e))
    | inr (high, k) ↦ omega (
      arith,
      some_inj (low + 256 * high) w (rw (l, k, short_at) refl ∙ e),
      byte_at mem at low h l,
      byte_at mem (at + 1) high h k,
    )
  ]
]

-- The sum of a unit's squares stays within `long long`, for every unit that 32 bits can measure.
energy-le :
    (mem : List ℕ) (n at sum : ℕ) → AllBytes mem → energy mem n at ≡ some sum → sum ≤ n * 2 ^ 30
unfolding energy
energy-le mem zero at sum h e = omega (arith, some_inj 0 sum e)
energy-le mem (suc n) at sum h e = elim (Option-cases (short_at mem at)) [
  | inl q ↦ absurd (none-some sum (rw (q, energy) refl ∙ e))
  | inr (w, l) ↦ elim (Option-cases (energy mem n (at + 2))) [
    | inl q ↦ absurd (none-some sum (rw (l, q, energy) refl ∙ e))
    | inr (rest, r) ↦ omega (
      arith,
      some_inj (square w + rest) sum (rw (l, r, energy) refl ∙ e),
      square-le w (short_at-le mem at w h l),
      energy-le mem n (at + 2) rest h r,
    )
  ]
]

unit_inside : (i n unit bytes : ℕ) → (i + suc n) * unit ≤ bytes → i * unit + unit / 2 * 2 ≤ bytes
unit_inside i n unit bytes h = grind arith

next_units : (i n unit bytes : ℕ) → (i + suc n) * unit ≤ bytes → (i + 1 + n) * unit ≤ bytes
next_units i n unit bytes h = grind arith

over_times_lem :
    (a : VadArgs) (n i : ℕ)
    → (i + n) * a.unit_bytes ≤ length a.sample
    → (times : ℕ) × (over_times a n i ≡ some times)
unfolding over_times chunk_unit_compare
over_times_lem a zero i h = (0, refl)
over_times_lem a (suc n) i h =
    let (sum, e) =
      energy_lem a.sample (a.unit_bytes / 2) (i * a.unit_bytes)
        (unit_inside i n a.unit_bytes (length a.sample) h) in
    let (times, f) = over_times_lem a n (i + 1) (next_units i n a.unit_bytes (length a.sample) h) in
    (
      (if ltb (a.unit_bytes / 2 * a.vad_threshold) sum then 1 else 0) + times,
      rw (over_times, chunk_unit_compare, e, f) refl,
    )

div_inside : (bytes unit n : ℕ) → unit ≢ 0 → bytes ≤ n → (0 + bytes / unit) * unit ≤ n
div_inside bytes unit n h le = grind arith

-- A chunk of so many bytes as the buffer holds, or fewer, is answered, for units of one byte or more.
pub answers :
    (a : VadArgs)
    → a.unit_bytes ≢ 0
    → a.bytes ≤ length a.sample
    → (b : Bool) × (is_chunk_speaking a ≡ some b)
unfolding is_chunk_speaking
answers a h le =
    let (times, e) =
      over_times_lem a (a.bytes / a.unit_bytes) 0
        (div_inside a.bytes a.unit_bytes (length a.sample) h le) in
    (
      leb (min_over_times (a.bytes / a.unit_bytes)) times,
      rw (is_chunk_speaking, ne→== _ _ h, e) refl,
    )

-- A chunk speaks exactly if at least one unit and at least a tenth of its units (rounded down) are
-- over the threshold. A chunk of less than one unit never speaks.
is_chunk_speaking_iff :
    (a : VadArgs) (times : ℕ)
    → a.unit_bytes ≢ 0
    → over_times a (a.bytes / a.unit_bytes) 0 ≡ some times
    → (is_chunk_speaking a ≡ some true) ↔ ((1 ≤ times) × (a.bytes / a.unit_bytes / 10 ≤ times))
unfolding is_chunk_speaking min_over_times
is_chunk_speaking_iff a times h e = (λ f. ground (arith, e, f), λ f. ground (arith, e, f))

pub short_chunk_silent :
    (a : VadArgs) → a.unit_bytes ≢ 0 → a.bytes < a.unit_bytes → is_chunk_speaking a ≡ some false
unfolding is_chunk_speaking min_over_times over_times
short_chunk_silent a h lt =
    let no_units : a.bytes / a.unit_bytes ≡ 0 = grind arith in
    rw (is_chunk_speaking, ne→== _ _ h, no_units) (ap some (ground arith))
