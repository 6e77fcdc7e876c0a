-- ===== src/Vad/Tests.antt =====
-- Runs of the voice detector, and the theorems at concrete chunks.
use package_compile_sys.Common.{ℕ, ◌≡◌, refl, List, [], ◌∷◌, some, true, false, arith}
use package_compile_sys.Vad.{
  Status, idel, started, VadArgs, short_at, energy, chunk_unit_compare, min_over_times, over_times,
  is_chunk_speaking, on_idel, get_vad_status,
}
use package_compile_sys.Vad.Energy.{short_chunk_silent}
use package_compile_sys.Vad.Machine.{Next, get_vad_status-Next}
use package_compile_sys.Vad.Confirm.{hear, start_confirmed}

-- Two samples, 256 and -2.
abbrev loud : List ℕ
loud = 0 ∷ 1 ∷ 0xfe ∷ 0xff ∷ []

abbrev quiet_room : VadArgs
quiet_room = record {
  sample = loud;
  bytes = 4;
  saved_status = idel;
  confirm_count = 0;
  vad_threshold = 1000;
  started_confirm_count = 2;
  finished_confirm_count = 3;
  unit_bytes = 2;
}

energy-loud : energy loud 2 0 ≡ some 65540
unfolding energy short_at
energy-loud = refl

loud_speaks : is_chunk_speaking quiet_room ≡ some true
unfolding is_chunk_speaking over_times chunk_unit_compare energy short_at min_over_times
loud_speaks = refl

short_chunk_silent_example : is_chunk_speaking (record quiet_room { bytes = 1 }) ≡ some false
short_chunk_silent_example =
    short_chunk_silent (record quiet_room { bytes = 1 }) (λ e. omega arith) (omega arith)

first_call : get_vad_status quiet_room ≡ some (idel, record quiet_room { confirm_count = 1 })
unfolding get_vad_status is_chunk_speaking over_times chunk_unit_compare energy short_at
    min_over_times on_idel
first_call = refl

get_vad_status-Next_example : Next idel idel × (◌≡◌ {A = Status} idel idel)
get_vad_status-Next_example =
    get_vad_status-Next quiet_room (record quiet_room { confirm_count = 1 }) idel first_call

abbrev quiet : List ℕ
quiet = 0 ∷ 0 ∷ 0 ∷ 0 ∷ []

quiet_silent : is_chunk_speaking (record quiet_room { sample = quiet }) ≡ some false
unfolding is_chunk_speaking over_times chunk_unit_compare energy short_at min_over_times
quiet_silent = refl

-- The chunk between the loud ones begins the count again.
start_confirmed_example :
    (c : VadArgs) × (hear quiet_room (loud ∷ quiet ∷ loud ∷ loud ∷ []) ≡ some c)
    × (c.saved_status ≡ started)
    × (c.confirm_count ≡ 0)
start_confirmed_example =
    start_confirmed (loud ∷ quiet ∷ loud ∷ []) (true ∷ false ∷ true ∷ []) loud true quiet_room refl
      (omega arith) (omega arith) (loud_speaks, (quiet_silent, (loud_speaks, tt))) loud_speaks
