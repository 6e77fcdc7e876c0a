-- ===== src/Vad/Machine.antt =====
-- The order of the states, and how many chunks confirm a change.
use package_compile_sys.Common.{
  ◌≡◌, refl, Option, none, some, Bool, true, false, arith, ◌⊎◌, inl, inr, subst,
}
use package_compile_sys.Vad.{
  Status, idel, started, speaking, finished, done, VadArgs, is_chunk_speaking, on_idel, on_started,
  on_speaking, get_vad_status, get_vad_status_in, ask,
}

-- The changes of state that the header's order allows.
pub data Next : Status → Status → Type 0 where
  stay_idel : Next idel idel
  start : Next idel started
  talk : Next started speaking
  stay_speaking : Next speaking speaking
  finish : Next speaking finished
  stay_finished : Next finished finished
  stay_done : Next done done

idel_cases :
    (a : VadArgs) (b : Bool)
    → ((on_idel a b).saved_status ≡ idel) ⊎ ((on_idel a b).saved_status ≡ started)
unfolding on_idel
idel_cases a true = ground arith
idel_cases a false = inl refl

speaking_cases :
    (a : VadArgs) (b : Bool)
    → ((on_speaking a b).saved_status ≡ speaking) ⊎ ((on_speaking a b).saved_status ≡ finished)
unfolding on_speaking
speaking_cases a true = inl refl
speaking_cases a false = ground arith

started_case : (a : VadArgs) (b : Bool) → (on_started a b).saved_status ≡ speaking
unfolding on_started
started_case a true = refl
started_case a false = refl

-- What a call returns, by the state it finds.
abbrev Returns : Status → Option (Status × VadArgs) → Type 0
Returns from none = Unit {0}
Returns from (some (s, b)) = Next from s × (b.saved_status ≡ s)

ask-Returns :
    (from : Status) (answer : Option Bool) (k : Bool → VadArgs)
    → ((b : Bool) → Next from (k b).saved_status)
    → Returns from (ask answer k)
ask-Returns from none k h = tt
ask-Returns from (some b) k h = (h b, refl)

status-Returns :
    (from : Status) (a : VadArgs) → a.saved_status ≡ from → Returns from (get_vad_status_in from a)
unfolding get_vad_status_in
status-Returns idel a e =
    ask-Returns idel (is_chunk_speaking a) (on_idel a)
      λ b. elim (idel_cases a b) [ inl e ↦ rw e stay_idel | inr e ↦ rw e start ]
status-Returns started a e =
    ask-Returns started (is_chunk_speaking a) (on_started a) λ b. rw (started_case a b) talk
status-Returns speaking a e =
    ask-Returns speaking (is_chunk_speaking a) (on_speaking a)
      λ b. elim (speaking_cases a b) [ inl e ↦ rw e stay_speaking | inr e ↦ rw e finish ]
status-Returns finished a e = (stay_finished, e)
status-Returns done a e = (stay_done, e)

-- Every call that returns, returns the status that it saves, and that status may follow the one
-- that it found.
pub get_vad_status-Next :
    (a b : VadArgs) (s : Status)
    → get_vad_status a ≡ some (s, b)
    → Next a.saved_status s × (b.saved_status ≡ s)
unfolding get_vad_status
get_vad_status-Next a b s e =
    subst (Returns a.saved_status) e (status-Returns a.saved_status a refl)
