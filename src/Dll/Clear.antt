-- ===== src/Dll/Clear.antt =====
-- The loop of `dll_fifo_clear` and `dll_fifo_destroy`: it frees every node and drops every payload.
use package_compile_sys.Common.{
  ℕ, zero, suc, ◌<◌, ◌≡◌, refl, ap, ◌∙◌, [], ◌∷◌, Option, none, some, true, arith, length, ne→==,
  if◌then◌else◌,
}
use package_compile_sys.Dll.{DllFifo, DllFifoPar, release, free_all, clear}
use package_compile_sys.Dll.Heap.{
  Ptr, null, Node, node, Store, update, update_self, bind_ok, load_ok, free_ok, load, free_node,
}
use package_compile_sys.Dll.Chain.{Cells, first_or, Chain, Chain-frame}
use package_compile_sys.Dll.Queue.{IsList}
use package_compile_sys.Dll.Walk.{dropped_by, release_lem, AllFree}

update-none : (c : Ptr → Option Node) (p q : Ptr) → c q ≡ none → update c p none q ≡ none
unfolding update
update-none c p q h = ground arith

record Freed (s : Store) (par : DllFifoPar) (xs : Cells) (t : Store) : Type 0 where
  dropped : t.dropped ≡ dropped_by par xs s.dropped
  free : AllFree t.cell xs
  still_free : (p : Ptr) → s.cell p ≡ none → t.cell p ≡ none

free_all_lem :
    (fuel : ℕ) (f : DllFifo) (par : DllFifoPar) (s : Store) (prev : Ptr) (xs : Cells)
    → f.par ≡ some par
    → Chain s.cell prev xs null
    → length xs < fuel
    → (t : Store) × (free_all fuel f (first_or null xs) s ≡ some (tt, t)) × Freed s par xs t
unfolding free_all
free_all_lem zero f par s prev xs e h lt = absurd (omega arith)
free_all_lem (suc k) f par s prev [] e h lt =
    (s, refl, record { dropped = refl; free = tt; still_free = λ p q. q })
free_all_lem (suc k) f par s prev ((a, d) ∷ xs) e h lt =
    let nd = node prev (first_or null xs) d in
    let s1 : Store = record s { dropped = if par.dat_destroy then d ∷ s.dropped else s.dropped } in
    let s2 : Store = record s1 { cell = update s.cell a none } in
    let (t, run, done) =
      free_all_lem k f par s2 a xs e (Chain-frame s.cell a none a xs null h.2 h.3) (omega arith) in
    (
      t,
      rw (ne→== a null h.0, free_all)
          (bind_ok (load a) _ s nd s (load_ok a s nd h.1)
            ∙ bind_ok (release f d) _ s tt s1 (release_lem f par d s e)
            ∙ bind_ok (free_node a) _ s1 tt s2 (free_ok a s1 nd h.1)
            ∙ run),
      record {
        dropped = done.dropped;
        free = (done.still_free a (update_self s.cell a none), done.free);
        still_free = λ p q. done.still_free p (update-none s.cell a p q);
      },
    )

-- `dll_fifo_clear` frees every node of a well-formed list whose `front` is the first cell, hands
-- every payload to `dat_destroy` (if it is set) from front to back, and leaves an empty handle with
-- both ends NULL. A round for each cell and one more are enough.
pub clear_lem :
    (fuel : ℕ) (f : DllFifo) (par : DllFifoPar) (s : Store) (xs : Cells)
    → IsList s f xs
    → f.front ≡ first_or null xs
    → f.par ≡ some par
    → length xs < fuel
    → (t : Store) × (clear fuel f s
        ≡ some ((true, record f { front = null; back = null; size = 0 }), t))
      × (t.dropped ≡ dropped_by par xs s.dropped)
      × AllFree t.cell xs
unfolding clear
clear_lem fuel f par s xs l e p lt =
    let (t, run, done) = free_all_lem fuel f par s null xs p l.chain lt in
    (
      t,
      bind_ok (free_all fuel f f.front) _ s tt t (ap (λ q. free_all fuel f q s) e ∙ run),
      done.dropped,
      done.free,
    )
