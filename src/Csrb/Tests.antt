-- ===== src/Csrb/Tests.antt =====
-- Runs of the mirrored ring, and the theorems at concrete rings.
use package_compile_sys.Common.{
  ℕ, ◌≡◌, refl, List, [], ◌∷◌, Option, none, some, arith, true, false, get_or,
}
use package_compile_sys.Csrb.{
  Csrb, create, write_query, write_sync, synced, is_inside, read_query, read_sync, copy_up,
  copy_down,
}
use package_compile_sys.Csrb.Refine.{
  IsValid, produce, consume, Produced, produce_keeps_queue, mirror_stale,
}

-- Four bytes were written and read, then four more written up to the end of the first half.
abbrev at_end : Csrb
at_end = record {
  ri = 4;
  wi = 0;
  contex = 4;
  empty = 4;
  capacity = 8;
  alloc = false;
  mem = 1 ∷ 2 ∷ 3 ∷ 4 ∷ 5 ∷ 6 ∷ 7 ∷ 8 ∷ 1 ∷ 2 ∷ 3 ∷ 4 ∷ 0 ∷ 0 ∷ 0 ∷ 0 ∷ [];
}

at_end-IsValid : IsValid at_end
at_end-IsValid = omega arith

-- From `create` on: 1 to 4 in and out, then 5 to 8, 9 and 10, 11 and 12; the reader asks for all.
history : Option (List ℕ × Csrb)
unfolding create
history = elim (create true true none 8) [
  | none ↦ none
  | some p ↦ elim (produce p (1 ∷ 2 ∷ 3 ∷ 4 ∷ [])) [
    | none ↦ none
    | some p1 ↦ elim (consume p1 4) [
      | none ↦ none
      | some (_, p2) ↦ elim (produce p2 (5 ∷ 6 ∷ 7 ∷ 8 ∷ [])) [
        | none ↦ none
        | some p3 ↦ elim (produce p3 (9 ∷ 10 ∷ [])) [
          | none ↦ none
          | some p4 ↦ elim (produce p4 (11 ∷ 12 ∷ [])) [ none ↦ none | some p5 ↦ consume p5 8 ]
        ]
      ]
    ]
  ]
]

abbrev bytes_read : Option (List ℕ × Csrb) → List ℕ
bytes_read none = []
bytes_read (some (bytes, p)) = bytes

-- The bytes 11 and 12 never reach the mirror: the reader gets the stale 3 and 4.
history_reads_stale : bytes_read history ≡ 5 ∷ 6 ∷ 7 ∷ 8 ∷ 9 ∷ 10 ∷ 3 ∷ 4 ∷ []
unfolding history produce consume write_query write_sync synced is_inside read_query read_sync
    copy_up copy_down
history_reads_stale = refl

produce_keeps_queue_example :
    (q : Csrb) × (produce at_end (9 ∷ 10 ∷ []) ≡ some q) × Produced at_end (9 ∷ 10 ∷ []) q
produce_keeps_queue_example = produce_keeps_queue at_end (9 ∷ 10 ∷ []) at_end-IsValid (omega arith)

abbrev later : Csrb
later = record at_end { wi = 2; contex = 6; empty = 2 }

later-IsValid : IsValid later
later-IsValid = omega arith

mirror_stale_example :
    (q : Csrb) × (produce later (11 ∷ 12 ∷ []) ≡ some q) × (get_or q.mem 10 0 ≡ 3)
mirror_stale_example =
    mirror_stale later (11 ∷ 12 ∷ []) 10 later-IsValid (omega arith) (omega arith) (omega arith)
      (omega arith)
