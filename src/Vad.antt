-- ===== src/Vad.antt =====
-- app/lzUtils/vad_op/vad_op.c and vad_op.h: voice activity detection. A chunk of 16-bit samples is
-- cut into units; it speaks if enough units are louder than the threshold, and a state machine
-- confirms the start and the end of speech over several chunks.
pub mod Energy
pub mod Machine
pub mod Confirm
mod Tests
use package_compile_sys.Common.{
  ℕ, zero, suc, ◌+◌, ◌-◌, ◌*◌, ◌/◌, ◌%◌, List, Option, none, some, Bool, true, false, ltb, leb,
  ◌==◌, if◌then◌else◌, get_elem?,
}

-- `vad_status_t`, the values that `savedStatus` takes.
pub data Status : Type 0 where
  idel started speaking finished done : Status

-- `vad_args_t`. The samples are the bytes that `sample` points to, low byte first.
pub record VadArgs : Type 0 where
  pub sample : List ℕ
  pub bytes : ℕ
  pub saved_status : Status
  pub confirm_count : ℕ
  pub vad_threshold : ℕ
  pub started_confirm_count : ℕ
  pub finished_confirm_count : ℕ
  pub unit_bytes : ℕ

-- The distance from 0 of the `short` whose bits are a given number below 2 ^ 16.
abbrev pub magnitude : ℕ → ℕ
magnitude w = if ltb w 0x8000 then w else 0x1_0000 - w

-- The bits of the `short` at a byte offset; a read past the samples has no result.
unfoldable pub short_at : List ℕ → ℕ → Option ℕ
short_at mem at = elim (get_elem? mem at) [
  | none ↦ none
  | some low ↦ elim (get_elem? mem (at + 1)) [ none ↦ none | some high ↦ some (low + 256 * high) ]
]

abbrev pub square : ℕ → ℕ
square w = magnitude w * magnitude w

-- `sum += sample[i] * sample[i]` for `n` samples. No sum leaves `long long`: a square is at most
-- 2 ^ 30, and a unit has fewer than 2 ^ 31 samples.
unfoldable pub energy : List ℕ → ℕ → ℕ → Option ℕ
energy mem zero at = some 0
energy mem (suc n) at = elim (short_at mem at) [
  | none ↦ none
  | some w ↦ elim (energy mem n (at + 2)) [ none ↦ none | some sum ↦ some (square w + sum) ]
]

unfoldable pub chunk_unit_compare : VadArgs → ℕ → Option Bool
chunk_unit_compare a idx =
    let samples = a.unit_bytes / 2 in
    elim (energy a.sample samples (idx * a.unit_bytes)) [
      | none ↦ none
      | some sum ↦ some (ltb (samples * a.vad_threshold) sum)
    ]

-- `x * 0.1` cut to an integer is `x / 10`: the double 0.1 is no less than 1/10, and the excess is
-- far below 1/10 for a 32-bit `x`.
unfoldable pub min_over_times : ℕ → ℕ
min_over_times x = if ltb 0 (x / 10) then x / 10 else 1

-- The units from `i` on that are over the threshold.
unfoldable pub over_times : VadArgs → ℕ → ℕ → Option ℕ
over_times a zero i = some 0
over_times a (suc n) i = elim (chunk_unit_compare a i) [
  | none ↦ none
  | some loud ↦ elim (over_times a n (i + 1)) [
    | none ↦ none
    | some times ↦ some ((if loud then 1 else 0) + times)
  ]
]

-- `none` is the division by a unit of no bytes, or a read past the samples.
unfoldable pub is_chunk_speaking : VadArgs → Option Bool
is_chunk_speaking a =
    if a.unit_bytes == 0
    then none
    else (let unit_count = a.bytes / a.unit_bytes in
        elim (over_times a unit_count 0) [
          | none ↦ none
          | some times ↦ some (leb (min_over_times unit_count) times)
        ])

-- `confirmCount` is an `unsigned char`.
abbrev pub count_up : ℕ → ℕ
count_up n = (n + 1) % 256

-- What the machine does with the answer of `isChunkSpeaking`, in the three states that ask for it.
unfoldable pub on_idel : VadArgs → Bool → VadArgs
on_idel a true =
    if leb a.started_confirm_count (count_up a.confirm_count)
    then record a { confirm_count = 0; saved_status = started }
    else record a { confirm_count = count_up a.confirm_count; saved_status = idel }
on_idel a false = record a { confirm_count = 0; saved_status = idel }

unfoldable pub on_started : VadArgs → Bool → VadArgs
on_started a true = record a { saved_status = speaking }
on_started a false = record a { confirm_count = count_up a.confirm_count; saved_status = speaking }

unfoldable pub on_speaking : VadArgs → Bool → VadArgs
on_speaking a false =
    if leb a.finished_confirm_count (count_up a.confirm_count)
    then record a { confirm_count = 0; saved_status = finished }
    else record a { confirm_count = count_up a.confirm_count; saved_status = speaking }
on_speaking a true = record a { confirm_count = 0; saved_status = speaking }

abbrev pub ask : Option Bool → (Bool → VadArgs) → Option (Status × VadArgs)
ask none k = none
ask (some b) k = let a = k b in some (a.saved_status, a)

get_vad_status_in : Status → VadArgs → Option (Status × VadArgs)
get_vad_status_in idel a = ask (is_chunk_speaking a) (on_idel a)
get_vad_status_in started a = ask (is_chunk_speaking a) (on_started a)
get_vad_status_in speaking a = ask (is_chunk_speaking a) (on_speaking a)
get_vad_status_in finished a = some (finished, a)
get_vad_status_in done a = some (done, a)

-- The status returned, and the arguments as the call leaves them.
unfoldable pub get_vad_status : VadArgs → Option (Status × VadArgs)
unfolding get_vad_status_in
get_vad_status a = get_vad_status_in a.saved_status a
