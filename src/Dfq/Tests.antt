-- ===== src/Dfq/Tests.antt =====
-- Readers and writers of a queue of two places, and the theorems at them.
use package_compile_sys.Common.{
  ℕ, ◌≤◌, ◌≡◌, refl, [], ◌∷◌, none, some, true, false, arith, ◌==◌, if◌then◌else◌, length,
}
use package_compile_sys.Dll.{DllFifoPar}
use package_compile_sys.Dll.Heap.{null, node, Store, pure}
use package_compile_sys.Dll.Chain.{Cells}
use package_compile_sys.Dll.Queue.{IsList}
use package_compile_sys.Dfq.{DfqFifo, Wait, td_write, read, td_read}
use package_compile_sys.Dfq.Bound.{td_write_keeps_bound}
use package_compile_sys.Dfq.Read.{read_lem}

abbrev owned : DllFifoPar
owned = record { size = 0; dat_create = true; dat_destroy = true }

abbrev heap1 : Store
heap1 = record { cell = λ q. if q == 16 then some (node 0 0 5) else none; dropped = [] }

abbrev heap0 : Store
heap0 = record { cell = λ q. none; dropped = [] }

abbrev holding : ℕ → DfqFifo
holding places = record {
  size = places;
  que = record { par = some owned; front = 16; back = 16; size = 1 };
  is_wait_was_exited = false;
}

abbrev drained : DfqFifo
drained = record {
  size = 1;
  que = record { par = some owned; front = null; back = 16; size = 0 };
  is_wait_was_exited = false;
}

holding-IsList : (places : ℕ) → IsList heap1 (holding places).que ((16, 5) ∷ [])
holding-IsList places = record {
  chain = ((λ q. omega arith), refl, tt, tt);
  size = refl;
  ends = (refl, refl);
}

drained-IsList : IsList heap0 drained.que []
drained-IsList = record { chain = tt; size = refl; ends = tt }

-- Another thread reads, or writes, or the wait ends by itself.
abbrev other_reads : Wait
other_reads p s = some (drained, heap0)

abbrev other_writes : Wait
other_writes p s = some (holding 1, heap1)

abbrev by_itself : Wait
by_itself p = pure p

td_write_keeps_bound_example :
    (q : DfqFifo) × (t : Store) × (ys : Cells) × (td_write other_reads 48 (holding 1) 7 heap1
      ≡ some ((true, q), t))
    × IsList t q.que ys
    × (ys ≡ (48, 7) ∷ [])
    × (q.size ≡ 1)
    × (length ys ≤ q.size)
td_write_keeps_bound_example =
    td_write_keeps_bound heap1 heap0 (holding 1) drained 48 7 ((16, 5) ∷ []) [] other_reads
      (holding-IsList 1) (omega arith) refl drained-IsList (λ q. omega arith) refl

read_lem_example :
    (q : DfqFifo) × (t : Store) × (read (other_writes ∷ []) drained heap0
      ≡ some ((some (some 5), q), t))
    × (td_read (other_writes ∷ []) drained heap0 ≡ some ((some (some 5), q), t))
    × IsList t q.que []
read_lem_example =
    read_lem (other_writes ∷ []) [] drained (holding 1) heap0 heap1 16 5 []
      (drained-IsList, (holding 1, heap1, refl, refl, (refl, refl))) (holding-IsList 1)
