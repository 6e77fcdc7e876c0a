-- ===== src/MemPool/Tests.antt =====
-- A pool of two blocks, one of which is out, and the theorems at it.
use package_compile_sys.Common.{ℕ, ◌≡◌, refl, [], ◌∷◌, some, none, true, false}
use package_compile_sys.MemPool.{MemUnit, add, has_block, del, get, put}
use package_compile_sys.MemPool.Held.{Reach, started, step, adds, takes, count, get-exclusive}

abbrev unit : ℕ → MemUnit
unit n = record { is_act = true; block = n; size = 64 }

abbrev used : ℕ → MemUnit
used n = record { is_act = false; block = n; size = 64 }

first_taken : get (unit 7 ∷ unit 9 ∷ []) ≡ (some (7, 64), used 7 ∷ unit 9 ∷ [])
unfolding get
first_taken = refl

second_taken : get (used 7 ∷ unit 9 ∷ []) ≡ (some (9, 64), used 7 ∷ used 9 ∷ [])
unfolding get
second_taken = refl

given_back : put 7 (used 7 ∷ used 9 ∷ []) ≡ (true, unit 7 ∷ used 9 ∷ [])
unfolding put
given_back = refl

del_faults : del (some 9) (unit 7 ∷ unit 9 ∷ []) ≡ none
unfolding del has_block
del_faults = refl

one_out : Reach (used 7 ∷ unit 9 ∷ []) (7 ∷ [])
unfolding add
one_out =
    step _ _ _ _
      (step _ _ _ _ (step _ _ _ _ started (adds [] [] (unit 7) refl refl))
        (adds (unit 7 ∷ []) [] (unit 9) refl refl))
      (takes (unit 7 ∷ unit 9 ∷ []) _ [] 7 64 first_taken)

get-exclusive_example : count 9 (7 ∷ []) ≡ 0
get-exclusive_example =
    get-exclusive (used 7 ∷ unit 9 ∷ []) (used 7 ∷ used 9 ∷ []) (7 ∷ []) 9 64 one_out second_taken
