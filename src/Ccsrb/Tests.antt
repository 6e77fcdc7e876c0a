-- ===== src/Ccsrb/Tests.antt =====
-- Runs of the chunk ring, and the theorems at concrete rings.
use package_compile_sys.Common.{
  ℕ, ◌≡◌, refl, List, [], ◌∷◌, none, some, arith, replicate, length-replicate,
}
use package_compile_sys.Ccsrb.{Ccsrb, write_sync}
use package_compile_sys.Ccsrb.Inv.{IsValid, contents}
use package_compile_sys.Ccsrb.Produce.{produce, produce_refines, Produced, short_sync_faults}
use package_compile_sys.Ccsrb.Run.{Turn, put, get, queue_run, ring_run, ring_run_refines}

abbrev blank : ℕ → List ℕ
blank n = replicate n 0

-- 8, 9 stand at the end of five cells.
abbrev turned : Ccsrb
turned = record {
  ri = 3;
  contex = 1;
  rcm = none;
  wi = 4;
  empty = 4;
  wcm = none;
  c_bytes = 5;
  mm = 1 ∷ 2 ∷ 3 ∷ 8 ∷ 5 ∷ [];
}

-- The same ring with a scratch block handed to the writer.
abbrev lent : Ccsrb
lent = record turned { wi = 3; ri = 2; wcm = some (9 ∷ 9 ∷ 9 ∷ []) }

abbrev script : List Turn
script = put (7 ∷ 6 ∷ 4 ∷ []) ∷ put (1 ∷ 1 ∷ []) ∷ get 2 ∷ get 9 ∷ get 2 ∷ []

turned-IsValid : IsValid turned
turned-IsValid = omega arith

lent-IsValid : IsValid lent
lent-IsValid = omega arith

script_runs :
    ring_run blank turned script
    ≡ some [] ∷ none ∷ some (8 ∷ 7 ∷ []) ∷ none ∷ some (6 ∷ 4 ∷ []) ∷ []
unfolding queue_run
script_runs =
    ring_run_refines blank (λ n. length-replicate n 0) script turned turned-IsValid refl refl

produce_refines_example :
    (q : Ccsrb) × (produce turned (7 ∷ 6 ∷ []) (some (0 ∷ 0 ∷ [])) ≡ some q)
    × Produced turned (7 ∷ 6 ∷ []) q
produce_refines_example =
    produce_refines turned (7 ∷ 6 ∷ []) (0 ∷ 0 ∷ []) turned-IsValid refl refl (omega arith)

ring_run_refines_example : ring_run blank turned script ≡ queue_run 5 (contents turned) script
ring_run_refines_example =
    ring_run_refines blank (λ n. length-replicate n 0) script turned turned-IsValid refl refl

short_sync_faults_example : write_sync lent 1 ≡ none
short_sync_faults_example =
    short_sync_faults lent (9 ∷ 9 ∷ 9 ∷ []) 1 lent-IsValid refl (omega arith) (omega arith)
