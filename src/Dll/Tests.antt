-- ===== src/Dll/Tests.antt =====
-- A list of two nodes on a concrete heap, and the theorems at it.
use package_compile_sys.Common.{
  ◌≡◌, refl, [], ◌∷◌, ◌++◌, Option, none, some, true, false, arith, ◌==◌, if◌then◌else◌,
}
use package_compile_sys.Dll.{
  DllFifoPar, DllFifo, push_back, pop_front, insert, erase, remove, clear,
}
use package_compile_sys.Dll.Heap.{Ptr, null, Node, node, Store}
use package_compile_sys.Dll.Chain.{Cells}
use package_compile_sys.Dll.Queue.{IsList, push_back_lem, pop_front_lem}
use package_compile_sys.Dll.Walk.{AllFree, dropped_by}
use package_compile_sys.Dll.Clear.{clear_lem}
use package_compile_sys.Dll.Middle.{Without, erase_lem, remove_lem}
use package_compile_sys.Dll.Insert.{insert_lem}

abbrev owning : DllFifoPar
owning = record { size = 0; dat_create = false; dat_destroy = true }

abbrev cell : Ptr → Option Node
cell q = if q == 16 then some (node 0 32 5) else if q == 32 then some (node 16 0 6) else none

abbrev heap : Store
heap = record { cell = cell; dropped = [] }

abbrev two : DllFifo
two = record { par = some owning; front = 16; back = 32; size = 2 }

abbrev first : Cells
first = (16, 5) ∷ []

abbrev second : Cells
second = (32, 6) ∷ []

two-IsList : IsList heap two (first ++ second)
two-IsList = record {
  chain = ((λ q. omega arith), refl, ((λ q. omega arith), tt), ((λ q. omega arith), refl, tt, tt));
  size = refl;
  ends = (refl, refl);
}

abbrev lone_heap : Store
lone_heap = record { cell = λ q. if q == 16 then some (node 0 0 5) else none; dropped = [] }

abbrev lone : DllFifo
lone = record { par = none; front = 16; back = 16; size = 1 }

lone-IsList : IsList lone_heap lone first
lone-IsList = record {
  chain = ((λ q. omega arith), refl, tt, tt);
  size = refl;
  ends = (refl, refl);
}

push_back_lem_example :
    (f' : DllFifo) × (t : Store) × (push_back 48 two 7 heap ≡ some ((true, f'), t))
    × IsList t f' ((first ++ second) ++ (48, 7) ∷ [])
    × (t.dropped ≡ [])
push_back_lem_example =
    push_back_lem heap two 48 7 (first ++ second) (λ q. omega arith) refl two-IsList

pop_front_lem_example :
    (f' : DllFifo) × (t : Store) × (pop_front two heap ≡ some ((some 5, f'), t))
    × IsList t f' second
    × (t.dropped ≡ [])
pop_front_lem_example = pop_front_lem heap two 16 5 second two-IsList

clear_lem_example :
    (t : Store) × (clear 3 two heap
      ≡ some ((true, record two { front = null; back = null; size = 0 }), t))
    × (t.dropped ≡ dropped_by owning (first ++ second) [])
    × AllFree t.cell (first ++ second)
clear_lem_example = clear_lem 3 two owning heap (first ++ second) two-IsList refl refl (omega arith)

erase_lem_example :
    (f' : DllFifo) × (t : Store) × (erase 3 two 6 heap ≡ some ((true, f'), t))
    × Without heap owning 6 (first ++ []) f' t
erase_lem_example =
    erase_lem 3 heap two owning first [] 32 6 two-IsList refl (omega arith) ((λ q. omega arith), tt)

remove_lem_example :
    (f' : DllFifo) × (t : Store) × (remove 3 two 1 heap ≡ some ((true, f'), t))
    × Without heap owning 6 (first ++ []) f' t
remove_lem_example = remove_lem 3 heap two owning first [] 32 6 two-IsList refl (omega arith)

insert_lem_example :
    (f' : DllFifo) × (t : Store) × (insert 3 48 two 7 1 heap ≡ some ((true, f'), t))
    × IsList t f' (first ++ (48, 7) ∷ second)
    × (t.dropped ≡ [])
insert_lem_example =
    insert_lem 3 heap two 16 5 [] [] 32 6 48 7 two-IsList (omega arith) (λ q. omega arith) refl
