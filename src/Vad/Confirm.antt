-- ===== src/Vad/Confirm.antt =====
-- How many chunks confirm the start and the end of speech.
use Prim.Native.Nat.{max}
use package_compile_sys.Common.{
  ℕ, zero, suc, ◌+◌, ◌≤◌, ◌<◌, ◌≡◌, ◌≢◌, refl, ◌∙◌, List, [], ◌∷◌, ◌++◌, Option, none, some, Bool,
  true, false, arith, length, ap, ap₂, sym, leb, lt→leb, ◌/◌, if◌then◌else◌,
}
use package_compile_sys.Vad.Energy.{answers}
use package_compile_sys.Vad.{
  Status, idel, started, speaking, finished, done, VadArgs, chunk_unit_compare, over_times,
  is_chunk_speaking, on_idel, on_started, on_speaking, get_vad_status, get_vad_status_in, ask,
}

-- The settings that the answer for a buffer depends on.
record Same (a b : VadArgs) : Type 0 where
  sample : a.sample ≡ b.sample
  bytes : a.bytes ≡ b.bytes
  threshold : a.vad_threshold ≡ b.vad_threshold
  unit : a.unit_bytes ≡ b.unit_bytes

unit-Same : (a b : VadArgs) (i : ℕ) → Same a b → chunk_unit_compare a i ≡ chunk_unit_compare b i
unfolding chunk_unit_compare
unit-Same a b i s = rw (s.sample, s.threshold, s.unit)

over_times-Same : (a b : VadArgs) (n i : ℕ) → Same a b → over_times a n i ≡ over_times b n i
unfolding over_times
over_times-Same a b zero i s = refl
over_times-Same a b (suc n) i s =
    ap₂
      (λ (x : Option Bool) (y : Option ℕ). elim x as (λ _. Option ℕ) [
        | none ↦ none
        | some loud ↦ elim y as (λ _. Option ℕ) [
          | none ↦ none
          | some times ↦ some ((if loud then 1 else 0) + times)
        ]
      ])
      (unit-Same a b i s) (over_times-Same a b n (i + 1) s)

answer-Same : (a b : VadArgs) → Same a b → is_chunk_speaking a ≡ is_chunk_speaking b
unfolding is_chunk_speaking
answer-Same a b s = ground (arith, over_times-Same a b (a.bytes / a.unit_bytes) 0 s)

status_total :
    (from : Status) (a : VadArgs) (b : Bool)
    → is_chunk_speaking a ≡ some b
    → (s : Status) × (c : VadArgs) × (get_vad_status_in from a ≡ some (s, c))
unfolding get_vad_status_in
status_total idel a b e = (_, on_idel a b, ap (λ o. ask o (on_idel a)) e)
status_total started a b e = (_, on_started a b, ap (λ o. ask o (on_started a)) e)
status_total speaking a b e = (_, on_speaking a b, ap (λ o. ask o (on_speaking a)) e)
status_total finished a b e = (finished, a, refl)
status_total done a b e = (done, a, refl)

-- Every call returns, for units of one byte or more and a chunk inside its buffer.
get_vad_status_total :
    (a : VadArgs)
    → a.unit_bytes ≢ 0
    → a.bytes ≤ length a.sample
    → (s : Status) × (b : VadArgs) × (get_vad_status a ≡ some (s, b))
unfolding get_vad_status
get_vad_status_total a h le = let (b, e) = answers a h le in status_total a.saved_status a b e

-- One call for each buffer of samples, all of `bytes` bytes.
pub hear : VadArgs → List (List ℕ) → Option VadArgs
hear a [] = some a
hear a (chunk ∷ chunks) = elim (get_vad_status (record a { sample = chunk })) [
  | none ↦ none
  | some (s, b) ↦ hear b chunks
]

-- What `isChunkSpeaking` answers for each of the buffers, with the settings of `a`.
abbrev pub Answers : VadArgs → List (List ℕ) → List Bool → Type 0
Answers a [] [] = Unit {0}
Answers a [] (b ∷ bs) = ⊥
Answers a (chunk ∷ chunks) [] = ⊥
Answers a (chunk ∷ chunks) (b ∷ bs) =
    (is_chunk_speaking (record a { sample = chunk }) ≡ some b) × Answers a chunks bs

keep-Answers :
    (a b : VadArgs) (chunks : List (List ℕ)) (bs : List Bool)
    → a.bytes ≡ b.bytes
    → a.vad_threshold ≡ b.vad_threshold
    → a.unit_bytes ≡ b.unit_bytes
    → Answers a chunks bs
    → Answers b chunks bs
keep-Answers a b [] [] p q r h = tt
keep-Answers a b [] (x ∷ bs) p q r h = h
keep-Answers a b (chunk ∷ chunks) [] p q r h = h
keep-Answers a b (chunk ∷ chunks) (x ∷ bs) p q r h = (
  sym (
        answer-Same (record a { sample = chunk }) (record b { sample = chunk })
          (record { sample = refl; bytes = p; threshold = q; unit = r }))
      ∙ h.0,
  keep-Answers a b chunks bs p q r h.1,
)

hear_step :
    (a b : VadArgs) (s : Status) (chunk : List ℕ) (chunks : List (List ℕ))
    → get_vad_status (record a { sample = chunk }) ≡ some (s, b)
    → hear a (chunk ∷ chunks) ≡ hear b chunks
unfolding hear
hear_step a b s chunk chunks e = rw (e, hear)

heard_idel :
    (a : VadArgs) (b : Bool)
    → a.saved_status ≡ idel
    → is_chunk_speaking a ≡ some b
    → get_vad_status a ≡ some ((on_idel a b).saved_status, on_idel a b)
unfolding get_vad_status get_vad_status_in
heard_idel a b st e = ground arith

-- How many answers in a row are `true` at the end of a list, where `n` of them were before it.
abbrev pub streak : ℕ → List Bool → ℕ
streak n [] = n
streak n (true ∷ bs) = streak (n + 1) bs
streak n (false ∷ bs) = streak 0 bs

-- The most answers in a row that are `true`, likewise.
abbrev pub longest : ℕ → List Bool → ℕ
longest n [] = n
longest n (true ∷ bs) = longest (n + 1) bs
longest n (false ∷ bs) = max n (longest 0 bs)

longest-le : (n : ℕ) (bs : List Bool) → n ≤ longest n bs
longest-le n [] = omega arith
longest-le n (true ∷ bs) = omega (arith, longest-le (n + 1) bs)
longest-le n (false ∷ bs) = omega arith

-- One more answer to an idle machine.
on_idel_lem :
    (a : VadArgs) (b : Bool)
    → a.started_confirm_count < 256
    → a.confirm_count < a.started_confirm_count
    → let n = streak a.confirm_count (b ∷ []) in
      on_idel a b ≡ record a {
        confirm_count = if leb a.started_confirm_count n then 0 else n;
        saved_status = if leb a.started_confirm_count n then started else idel;
      }
unfolding on_idel
on_idel_lem a true small lt = ground arith
on_idel_lem a false small lt = ground arith

streak-cons :
    (n : ℕ) (b : Bool) (bs : List Bool) → streak (streak n (b ∷ [])) bs ≡ streak n (b ∷ bs)
streak-cons n true bs = refl
streak-cons n false bs = refl

longest-cons :
    (n : ℕ) (b : Bool) (bs : List Bool) → longest (streak n (b ∷ [])) bs ≤ longest n (b ∷ bs)
longest-cons n true bs = omega arith
longest-cons n false bs = omega arith

-- An answer that does not make up the number.
on_idel_stays :
    (a : VadArgs) (b : Bool)
    → a.started_confirm_count < 256
    → a.confirm_count < a.started_confirm_count
    → streak a.confirm_count (b ∷ []) < a.started_confirm_count
    → on_idel a b
      ≡ record a { confirm_count = streak a.confirm_count (b ∷ []); saved_status = idel }
on_idel_stays a b small lt less = on_idel_lem a b small lt ∙ rw (lt→leb _ _ less) refl

-- An idle machine hears buffers that `isChunkSpeaking` answers, among which, the count included, fewer
-- than `startedConfirmCount` in a row speak. With one more buffer it is started, and its count 0, if
-- that makes `startedConfirmCount` in a row; else it is idle still, and the count is the number that
-- speak in a row at the end. A buffer that does not speak begins the count again.
pub start_confirmed :
    (chunks : List (List ℕ)) (bs : List Bool) (chunk : List ℕ) (b : Bool) (a : VadArgs)
    → a.saved_status ≡ idel
    → a.started_confirm_count < 256
    → longest a.confirm_count bs < a.started_confirm_count
    → Answers a chunks bs
    → is_chunk_speaking (record a { sample = chunk }) ≡ some b
    → let n = streak a.confirm_count (bs ++ b ∷ []) in
      (c : VadArgs) × (hear a (chunks ++ chunk ∷ []) ≡ some c)
      × (c.saved_status ≡ (if leb a.started_confirm_count n then started else idel))
      × (c.confirm_count ≡ (if leb a.started_confirm_count n then 0 else n))
unfolding hear
start_confirmed [] [] chunk b a st small low h e =
    let q = on_idel_lem (record a { sample = chunk }) b small low in
    (
      on_idel (record a { sample = chunk }) b,
      rw (hear, heard_idel (record a { sample = chunk }) b st e) refl,
      ap (λ (x : VadArgs). x.saved_status) q,
      ap (λ (x : VadArgs). x.confirm_count) q,
    )
start_confirmed [] (x ∷ bs) chunk b a st small low h e = absurd h
start_confirmed (first ∷ chunks) [] chunk b a st small low h e = absurd h
start_confirmed (first ∷ chunks) (x ∷ bs) chunk b a st small low (h, hs) e =
    let n = streak a.confirm_count (x ∷ []) in
    let d = record a { sample = first; confirm_count = n; saved_status = idel } in
    let less = longest-cons a.confirm_count x bs in
    let now : get_vad_status (record a { sample = first }) ≡ some (idel, d) =
      heard_idel (record a { sample = first }) x st h
      ∙ ap (λ (y : VadArgs). some (y.saved_status, y))
          (on_idel_stays (record a { sample = first }) x small
            (omega (arith, low, longest-le a.confirm_count (x ∷ bs)))
            (omega (arith, low, less, longest-le n bs))) in
    let (c, run, status, count) =
      start_confirmed chunks bs chunk b d refl small (omega (arith, low, less))
        (keep-Answers a d chunks bs refl refl refl hs)
        (keep-Answers a d (chunk ∷ []) (b ∷ []) refl refl refl (e, tt)).0 in
    (
      c,
      hear_step a d idel first (chunks ++ chunk ∷ []) now ∙ run,
      status ∙ rw (streak-cons a.confirm_count x (bs ++ b ∷ [])) refl,
      count ∙ rw (streak-cons a.confirm_count x (bs ++ b ∷ [])) refl,
    )
